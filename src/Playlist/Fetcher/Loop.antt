-- ===== src/Playlist/Fetcher/Loop.antt =====
-- internal/playlist/fetcher.go: the goroutine that `Start` runs for a source, as if no other ran; Main
-- interleaves its actions with those of the other goroutines.
use iptv2hdhr.Base.{
  ◌≡◌, refl, sym, ◌∙◌, Bool, true, List, [], ◌∷◌, ◌++◌, append_assoc, append-nil, Unicode,
}
use iptv2hdhr.Config.Schema.{PlaylistSource}
use iptv2hdhr.Fetch.Sources.{Get}
use iptv2hdhr.Playlist.Entry.{Entry}
use iptv2hdhr.Playlist.Fetcher.{Fetcher, current, merge, refresh_playlist, tick}
use iptv2hdhr.Playlist.Fetcher.Merged.{Action, refreshes, merges, run}

-- What the select receives: a tick, with the fetch that it makes, or the end of the context.
data Received (E : Type 0) : Type 0 where
  ticked : Get E → Received E
  context_done : Received E

-- `updates` is what `onUpdate` has been called with, in order; `returned` says that the goroutine is
-- over.
record Refresher : Type 0 where
  fetcher : Fetcher
  updates : List (List Entry)
  returned : Bool

module _ {E : Type 0} where
  -- The actions of the ticks before the context ends.
  abbrev actions_of : PlaylistSource → List (Received E) → List (Action E)
  actions_of src [] = []
  actions_of src (context_done ∷ es) = []
  actions_of src (ticked get ∷ es) = refreshes src get ∷ merges ∷ actions_of src es

module _ {E : Type 0} ⦃u : Unicode⦄ where
  -- The loop.
  unfoldable refreshing : PlaylistSource → List (Received E) → Refresher → Refresher
  refreshing src [] r = r
  refreshing src (context_done ∷ es) r = record r { returned = true }
  refreshing src (ticked get ∷ es) r =
      let (next, update) = tick get src r.fetcher in
      refreshing src es (record r { fetcher = next; updates = r.updates ++ update ∷ [] })

  -- The fetcher is the one after the actions of the ticks before the context ended.
  refreshing-run :
      (src : PlaylistSource) (es : List (Received E)) (r : Refresher)
      → (refreshing src es r).fetcher ≡ run (actions_of src es) r.fetcher
  unfolding refreshing tick
  refreshing-run src [] r = refl
  refreshing-run src (context_done ∷ es) r = refl
  refreshing-run src (ticked get ∷ es) r = refreshing-run src es _

  -- What a merge at each place of the actions publishes.
  abbrev snapshots : List (Action E) → Fetcher → List (List Entry)
  snapshots [] f = []
  snapshots (refreshes src get ∷ acts) f = snapshots acts (refresh_playlist get src f)
  snapshots (merges ∷ acts) f = current (merge f) ∷ snapshots acts (merge f)

  -- Each update is the snapshot that the merge before it has published, and there is one for each tick
  -- before the context ended.
  refreshing-updates :
      (src : PlaylistSource) (es : List (Received E)) (r : Refresher)
      → (refreshing src es r).updates ≡ r.updates ++ snapshots (actions_of src es) r.fetcher
  unfolding refreshing tick
  refreshing-updates src [] r = sym (append-nil r.updates)
  refreshing-updates src (context_done ∷ es) r = sym (append-nil r.updates)
  refreshing-updates src (ticked get ∷ es) r =
      refreshing-updates src es _
      ∙ append_assoc r.updates (_ ∷ []) (snapshots (actions_of src es) _)
