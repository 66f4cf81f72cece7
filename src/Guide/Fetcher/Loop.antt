-- ===== src/Guide/Fetcher/Loop.antt =====
-- internal/guide/fetcher.go: the goroutine that `Start` runs for a source, as if no other ran; Main
-- interleaves its actions with those of the other goroutines.
use iptv2hdhr.Base.{◌≡◌, refl, Bool, true, Option, List, [], ◌∷◌, Bytes}
use iptv2hdhr.Config.Schema.{GuideSource}
use iptv2hdhr.Fetch.Sources.{Get}
use iptv2hdhr.Guide.Xmltv.{Programme, Document, TimeFormat}
use iptv2hdhr.Guide.Sorting.{Sorter}
use iptv2hdhr.Guide.Fetcher.{GuideFetcher, guide_tick}
use iptv2hdhr.Guide.Fetcher.Published.{GuideAction, refreshes, merges, run}

-- What the select receives: a tick, with the fetch that it makes, or the end of the context.
data Received (E : Type 0) : Type 0 where
  ticked : Get E → Received E
  context_done : Received E

-- `returned` says that the goroutine is over.
record GuideRefresher : Type 0 where
  fetcher : GuideFetcher
  returned : Bool

-- The actions of the ticks before the context ends.
abbrev actions_of : {E : Type 0} → GuideSource → List (Received E) → List (GuideAction E)
actions_of src [] = []
actions_of src (context_done ∷ es) = []
actions_of src (ticked get ∷ es) = refreshes src get ∷ merges ∷ actions_of src es

module _ {E : Type 0} (tf : TimeFormat) (sorter : Sorter Programme)
    (parse_document : Bytes → Option Document) where
  -- The loop.
  unfoldable refreshing_guide : GuideSource → List (Received E) → GuideRefresher → GuideRefresher
  refreshing_guide src [] r = r
  refreshing_guide src (context_done ∷ es) r = record r { returned = true }
  refreshing_guide src (ticked get ∷ es) r =
      refreshing_guide src es
        (record r { fetcher = guide_tick parse_document tf sorter get src r.fetcher })

  -- The fetcher is the one after the actions of the ticks before the context ended.
  refreshing_guide-run :
      (src : GuideSource) (es : List (Received E)) (r : GuideRefresher)
      → (refreshing_guide src es r).fetcher
        ≡ run tf sorter parse_document (actions_of src es) r.fetcher
  unfolding refreshing_guide guide_tick
  refreshing_guide-run src [] r = refl
  refreshing_guide-run src (context_done ∷ es) r = refl
  refreshing_guide-run src (ticked get ∷ es) r = refreshing_guide-run src es _
