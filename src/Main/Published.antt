-- ===== src/Main/Published.antt =====
-- The lineup of a running program is always one that some merge has published.
use iptv2hdhr.Base.{
  ◌≡◌, refl, sym, ap, ◌∙◌, subst, List, [], ◌∷◌, ◌++◌, append_assoc, All, All-removed, Unicode,
}
use iptv2hdhr.Config.Schema.{Config, PlaylistSource}
use iptv2hdhr.Fetch.Sources.Cells.{refresh_cells, empty_cells}
use iptv2hdhr.Playlist.Entry.{Entry}
use iptv2hdhr.Playlist.Fetcher.{
  Fetcher, new_fetcher, current, merge, refresh_playlist, refresh_now, parse_playlist,
}
use iptv2hdhr.Playlist.Fetcher.Merged.{
  Action, refreshes, merges, act, run, refreshes_of, cell_entries, current-run, refresh_each-run,
}
use iptv2hdhr.Guide.Fetcher.Published.{GuideAction}
use iptv2hdhr.Lineup.{Lineup}
use iptv2hdhr.Lineup.Rebuild.{rebuild}
use iptv2hdhr.Main.{
  Program, World, Running, starts, acts, reads, rebuilds, guide_acts, first_program,
  first_refreshes,
}

module _ {E : Type 0} ⦃u : Unicode⦄ where
  -- One of the merges has published the entries: those of each source's last good copy at that time.
  pub record IsPublished (srcs : List PlaylistSource) (done : List (Action E)) (es : List Entry)
      : Type 0 where
    pub before : List (Action E)
    pub after : List (Action E)
    pub split_at : done ≡ before ++ merges ∷ after
    pub entries :
        es ≡ cell_entries (refresh_cells parse_playlist (refreshes_of before) empty_cells) srcs

  run-append :
      (front back : List (Action E)) (f : Fetcher) → run (front ++ back) f ≡ run back (run front f)
  run-append [] back f = refl
  run-append (a ∷ front) back f = run-append front back (act a f)

  module _ (srcs : List PlaylistSource) where
    IsPublished-later :
        (done : List (Action E)) (a : Action E) (es : List Entry)
        → IsPublished srcs done es
        → IsPublished srcs (done ++ a ∷ []) es
    IsPublished-later done a es w = record {
      before = w.before;
      after = w.after ++ a ∷ [];
      split_at =
          ap (λ x. x ++ a ∷ []) w.split_at ∙ append_assoc w.before (merges ∷ w.after) (a ∷ []);
      entries = w.entries;
    }

    All-later :
        (done : List (Action E)) (a : Action E) (ess : List (List Entry))
        → All (IsPublished srcs done) ess
        → All (IsPublished srcs (done ++ a ∷ [])) ess
    All-later done a [] h = tt
    All-later done a (es ∷ ess) h = (IsPublished-later done a es h.0, All-later done a ess h.1)

    -- A merge publishes.
    merged-IsPublished :
        (done : List (Action E))
        → IsPublished srcs (done ++ merges ∷ []) (current (merge (run done (new_fetcher srcs))))
    merged-IsPublished done = record {
      before = done;
      after = [];
      split_at = refl;
      entries = current-run done srcs;
    }

    current-act :
        (done : List (Action E)) (a : Action E) (f : Fetcher)
        → f ≡ run done (new_fetcher srcs)
        → IsPublished srcs done (current f)
        → IsPublished srcs (done ++ a ∷ []) (current (act a f))
    unfolding current refresh_playlist
    current-act done (refreshes src get) f e w = IsPublished-later done (refreshes src get) _ w
    current-act done merges f e w =
        subst (λ g. IsPublished srcs (done ++ merges ∷ []) (current (merge g))) (sym e)
          (merged-IsPublished done)

  module _ (world : World E) (cfg : Config) (l : Lineup) where
    pub record Shows (done : List (Action E)) (p : Program) : Type 0 where
      pub ran : p.playlists ≡ run done (new_fetcher cfg.playlists)
      pub shown : IsPublished cfg.playlists done (current p.playlists)
      pub read : All (IsPublished cfg.playlists done) p.updating
      pub given : List Entry
      pub lineup : p.lineup ≡ rebuild l given
      pub published : IsPublished cfg.playlists done given

    first_fetched :
        (first_program world cfg l).playlists
        ≡ run (first_refreshes world cfg ++ merges ∷ []) (new_fetcher cfg.playlists)
    unfolding first_program refresh_now new_fetcher
    first_fetched =
        ap merge (refresh_each-run world.get_playlist cfg.playlists (new_fetcher cfg.playlists))
        ∙ sym (run-append (first_refreshes world cfg) (merges ∷ []) (new_fetcher cfg.playlists))

    first_shown :
        IsPublished cfg.playlists
          (first_refreshes world cfg ++ merges ∷ [])
          (current (first_program world cfg l).playlists)
    first_shown =
        subst
          (λ f. IsPublished cfg.playlists (first_refreshes world cfg ++ merges ∷ []) (current f))
          (sym (
            first_fetched
            ∙ run-append (first_refreshes world cfg) (merges ∷ []) (new_fetcher cfg.playlists)))
          (merged-IsPublished cfg.playlists (first_refreshes world cfg))

    pub Running-Shows :
        {done : List (Action E)} {guided : List (GuideAction E)} {p : Program}
        → Running world cfg l done guided p
        → Shows done p
    unfolding rebuild first_program
    Running-Shows starts = record {
      ran = first_fetched;
      shown = first_shown;
      read = tt;
      given = current (first_program world cfg l).playlists;
      lineup = refl;
      published = first_shown;
    }
    Running-Shows (acts {done} {p} a r) =
        let w = Running-Shows r in
        record {
          ran = ap (act a) w.ran ∙ sym (run-append done (a ∷ []) (new_fetcher cfg.playlists));
          shown = current-act cfg.playlists done a p.playlists w.ran w.shown;
          read = All-later cfg.playlists done a p.updating w.read;
          given = w.given;
          lineup = w.lineup;
          published = IsPublished-later cfg.playlists done a w.given w.published;
        }
    Running-Shows (reads r) =
        let w = Running-Shows r in
        record {
          ran = w.ran;
          shown = w.shown;
          read = (w.shown, w.read);
          given = w.given;
          lineup = w.lineup;
          published = w.published;
        }
    Running-Shows (rebuilds {done} {p} before after es e r) =
        let w = Running-Shows r in
        let (at, rest) =
          All-removed (IsPublished cfg.playlists done) before after es
            (subst (All (IsPublished cfg.playlists done)) e w.read) in
        record {
          ran = w.ran;
          shown = w.shown;
          read = rest;
          given = es;
          lineup = ap (λ x. rebuild x es) w.lineup;
          published = at;
        }
    Running-Shows (guide_acts a r) =
        let w = Running-Shows r in
        record {
          ran = w.ran;
          shown = w.shown;
          read = w.read;
          given = w.given;
          lineup = w.lineup;
          published = w.published;
        }
