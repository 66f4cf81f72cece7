-- ===== src/Main/Guided.antt =====
-- The guide index of a running program.
use iptv2hdhr.Base.{◌≡◌, refl, sym, ap, ◌∙◌, subst, List, [], ◌∷◌, ◌++◌, map, append_assoc, Unicode}
use iptv2hdhr.Config.Schema.{Config, GuideSource}
use iptv2hdhr.Fetch.Sources.{Get}
use iptv2hdhr.Fetch.Sources.Cells.{refresh_cells, empty_cells}
use iptv2hdhr.Playlist.Fetcher.Merged.{Action}
use iptv2hdhr.Lineup.{Lineup}
use iptv2hdhr.Guide.Fetcher.{
  Index, GuideFetcher, new_guide_fetcher, refresh_guide, refresh_each_guide, refresh_guides_now,
}
use iptv2hdhr.Guide.Fetcher.Published.{
  GuideAction, refreshes, merges, run, refreshes_of, Indexes, merge_guides-Indexes,
}
use iptv2hdhr.Main.{
  Program, World, Running, starts, acts, reads, rebuilds, guide_acts, first_program,
  first_guide_refreshes, guide_act,
}

module _ {E : Type 0} ⦃u : Unicode⦄ (world : World E) where
  -- One of the merges has published the index: it fits each guide's last good document at that time.
  pub record IsIndexed (srcs : List GuideSource) (guided : List (GuideAction E)) (idx : Index)
      : Type 0 where
    pub before : List (GuideAction E)
    pub after : List (GuideAction E)
    pub split_at : guided ≡ before ++ merges ∷ after
    pub indexes :
        Indexes world.time_format world.sorter
          (refresh_cells world.parse_document (refreshes_of before) empty_cells)
          srcs
          idx

  abbrev run_guides : List (GuideAction E) → GuideFetcher → GuideFetcher
  run_guides = run world.time_format world.sorter world.parse_document

  run_guides-append :
      (front back : List (GuideAction E)) (f : GuideFetcher)
      → run_guides (front ++ back) f ≡ run_guides back (run_guides front f)
  run_guides-append [] back f = refl
  run_guides-append (a ∷ front) back f = run_guides-append front back (guide_act world a f)

  refresh_each_guide-run :
      (net : GuideSource → Get E) (srcs : List GuideSource) (f : GuideFetcher)
      → refresh_each_guide world.parse_document net srcs f
        ≡ run_guides (map (λ src. refreshes src (net src)) srcs) f
  unfolding refresh_each_guide
  refresh_each_guide-run net [] f = refl
  refresh_each_guide-run net (src ∷ srcs) f =
      refresh_each_guide-run net srcs (refresh_guide world.parse_document (net src) src f)

  module _ (srcs : List GuideSource) where
    IsIndexed-later :
        (guided : List (GuideAction E)) (a : GuideAction E) (idx : Index)
        → IsIndexed srcs guided idx
        → IsIndexed srcs (guided ++ a ∷ []) idx
    IsIndexed-later guided a idx w = record {
      before = w.before;
      after = w.after ++ a ∷ [];
      split_at =
          ap (λ x. x ++ a ∷ []) w.split_at ∙ append_assoc w.before (merges ∷ w.after) (a ∷ []);
      indexes = w.indexes;
    }

    merged-IsIndexed :
        (guided : List (GuideAction E))
        → IsIndexed srcs
            (guided ++ merges ∷ [])
            (guide_act world merges (run_guides guided (new_guide_fetcher srcs))).current
    merged-IsIndexed guided = record {
      before = guided;
      after = [];
      split_at = refl;
      indexes =
          merge_guides-Indexes world.time_format world.sorter world.parse_document guided srcs;
    }

    current-guide_act :
        (guided : List (GuideAction E)) (a : GuideAction E) (f : GuideFetcher)
        → f ≡ run_guides guided (new_guide_fetcher srcs)
        → IsIndexed srcs guided f.current
        → IsIndexed srcs (guided ++ a ∷ []) (guide_act world a f).current
    unfolding refresh_guide
    current-guide_act guided (refreshes src get) f e w =
        IsIndexed-later guided (refreshes src get) _ w
    current-guide_act guided merges f e w =
        subst (λ g. IsIndexed srcs (guided ++ merges ∷ []) (guide_act world merges g).current)
          (sym e) (merged-IsIndexed guided)

  module _ (cfg : Config) (l : Lineup) where
    pub record ShowsGuides (guided : List (GuideAction E)) (p : Program) : Type 0 where
      pub ran : p.guides ≡ run_guides guided (new_guide_fetcher cfg.guides)
      pub shown : IsIndexed cfg.guides guided p.guides.current

    first_guides_ran :
        (first_program world cfg l).guides
        ≡ guide_act world merges
            (run_guides (first_guide_refreshes world cfg) (new_guide_fetcher cfg.guides))
    unfolding first_program refresh_guides_now new_guide_fetcher
    first_guides_ran =
        ap (guide_act world merges)
          (refresh_each_guide-run world.get_guide cfg.guides (new_guide_fetcher cfg.guides))

    pub Running-ShowsGuides :
        {done : List (Action E)} {guided : List (GuideAction E)} {p : Program}
        → Running world cfg l done guided p
        → ShowsGuides guided p
    Running-ShowsGuides starts = record {
      ran =
          first_guides_ran
          ∙ sym (
              run_guides-append (first_guide_refreshes world cfg) (merges ∷ [])
                (new_guide_fetcher cfg.guides));
      shown =
          subst
            (λ g. IsIndexed cfg.guides (first_guide_refreshes world cfg ++ merges ∷ []) g.current)
            (sym first_guides_ran) (merged-IsIndexed cfg.guides (first_guide_refreshes world cfg));
    }
    Running-ShowsGuides (acts a r) =
        let w = Running-ShowsGuides r in record { ran = w.ran; shown = w.shown }
    Running-ShowsGuides (reads r) =
        let w = Running-ShowsGuides r in record { ran = w.ran; shown = w.shown }
    Running-ShowsGuides (rebuilds before after es e r) =
        let w = Running-ShowsGuides r in record { ran = w.ran; shown = w.shown }
    Running-ShowsGuides (guide_acts {done} {guided} {p} a r) =
        let w = Running-ShowsGuides r in
        record {
          ran =
              ap (guide_act world a) w.ran
              ∙ sym (run_guides-append guided (a ∷ []) (new_guide_fetcher cfg.guides));
          shown = current-guide_act cfg.guides guided a p.guides w.ran w.shown;
        }
