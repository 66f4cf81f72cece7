-- ===== src/Playlist/Fetcher/Merged.antt =====
-- What the fetcher publishes, whatever the network does and in whatever order the goroutines run. The
-- goroutine of a source is the only one to touch the source's maps, so its refresh is one action.
use iptv2hdhr.Base.{◌≡◌, refl, ap, ◌∙◌, List, [], ◌∷◌, ◌++◌, map, Unicode}
use iptv2hdhr.Config.Schema.{PlaylistSource}
use iptv2hdhr.Fetch.Sources.{Kept, Get, no_copies}
use iptv2hdhr.Fetch.Sources.Cells.{
  Cells, Refresh, Represents, content_of, empty_cells, refresh_cells, refresh_kept,
  refresh_kept-Represents, no_copies-Represents,
}
use iptv2hdhr.Playlist.Entry.{Entry}
use iptv2hdhr.Playlist.Fetcher.{
  Fetcher, new_fetcher, current, entries_of, merged, merge, parse_playlist, refresh_playlist,
  refresh_each, refresh_now,
}

pub data Action (E : Type 0) : Type 0 where
  refreshes : PlaylistSource → Get E → Action E
  merges : Action E

-- The entries of the sources' cells, in the order of the configuration.
abbrev pub cell_entries : Cells (List Entry) → List PlaylistSource → List Entry
cell_entries cells [] = []
cell_entries cells (src ∷ srcs) =
    entries_of (content_of (cells src.name)) ++ cell_entries cells srcs

abbrev pub refresh_of : {E : Type 0} → (PlaylistSource → Get E) → PlaylistSource → Refresh E
refresh_of net src = record { name = src.name; url = src.url; get = net src }

module _ {E : Type 0} where
  abbrev pub refreshes_of : List (Action E) → List (Refresh E)
  refreshes_of [] = []
  refreshes_of (refreshes src get ∷ acts) =
      record { name = src.name; url = src.url; get = get } ∷ refreshes_of acts
  refreshes_of (merges ∷ acts) = refreshes_of acts

  abbrev pub act : ⦃u : Unicode⦄ → Action E → Fetcher → Fetcher
  act (refreshes src get) f = refresh_playlist get src f
  act merges f = merge f

  abbrev pub run : ⦃u : Unicode⦄ → List (Action E) → Fetcher → Fetcher
  run [] f = f
  run (a ∷ acts) f = run acts (act a f)

merged-cell_entries :
    (k : Kept (List Entry)) (cells : Cells (List Entry)) (srcs : List PlaylistSource)
    → Represents k cells
    → merged k srcs ≡ cell_entries cells srcs
unfolding merged
merged-cell_entries k cells [] w = refl
merged-cell_entries k cells (src ∷ srcs) w =
    rw (w.contents src.name)
      (ap (◌++◌ (entries_of (content_of (cells src.name)))) (merged-cell_entries k cells srcs w))

module _ {E : Type 0} ⦃u : Unicode⦄ where
  run-kept :
      (acts : List (Action E)) (f : Fetcher)
      → (run acts f).kept ≡ refresh_kept parse_playlist (refreshes_of acts) f.kept
  unfolding refresh_playlist merge
  run-kept [] f = refl
  run-kept (refreshes src get ∷ acts) f = run-kept acts (refresh_playlist get src f)
  run-kept (merges ∷ acts) f = run-kept acts (merge f)

  run-sources : (acts : List (Action E)) (f : Fetcher) → (run acts f).sources ≡ f.sources
  unfolding refresh_playlist merge
  run-sources [] f = refl
  run-sources (refreshes src get ∷ acts) f = run-sources acts (refresh_playlist get src f)
  run-sources (merges ∷ acts) f = run-sources acts (merge f)

  -- After any sequence of refreshes and merges, a merge publishes, in the order of the configuration,
  -- the entries that each source had when a fetch of it last brought a new playlist that parsed: a
  -- failed fetch, an unparsable answer and "not modified" keep them, and each fetch is made with the
  -- validators that came with them.
  pub current-run :
      (acts : List (Action E)) (srcs : List PlaylistSource)
      → current (merge (run acts (new_fetcher srcs)))
        ≡ cell_entries (refresh_cells parse_playlist (refreshes_of acts) empty_cells) srcs
  unfolding current merge new_fetcher
  current-run acts srcs =
      rw (run-kept acts (new_fetcher srcs), run-sources acts (new_fetcher srcs))
        (merged-cell_entries _ _ srcs (
          refresh_kept-Represents parse_playlist (refreshes_of acts) no_copies empty_cells
            no_copies-Represents))

  pub refresh_each-run :
      (net : PlaylistSource → Get E) (srcs : List PlaylistSource) (f : Fetcher)
      → refresh_each net srcs f ≡ run (map (λ src. refreshes src (net src)) srcs) f
  unfolding refresh_each
  refresh_each-run net [] f = refl
  refresh_each-run net (src ∷ srcs) f = refresh_each-run net srcs (refresh_playlist (net src) src f)

  refreshes_of-map :
      (net : PlaylistSource → Get E) (srcs : List PlaylistSource)
      → refreshes_of (map (λ src. refreshes src (net src)) srcs) ≡ map (refresh_of net) srcs
  refreshes_of-map net [] = refl
  refreshes_of-map net (src ∷ srcs) = ap (◌∷◌ (refresh_of net src)) (refreshes_of-map net srcs)

  -- The first `RefreshNow` publishes the entries of the sources whose fetch brought a playlist that
  -- parsed, in the order of the configuration, and nothing for the others.
  pub current-refresh_now :
      (net : PlaylistSource → Get E) (srcs : List PlaylistSource)
      → current (refresh_now net (new_fetcher srcs))
        ≡ cell_entries (refresh_cells parse_playlist (map (refresh_of net) srcs) empty_cells) srcs
  unfolding refresh_now current merge merged refresh_each new_fetcher
  current-refresh_now net srcs = rw (refresh_each-run net srcs (new_fetcher srcs)) (
      current-run (map (λ src. refreshes src (net src)) srcs) srcs
      ∙ rw (refreshes_of-map net srcs) refl)
