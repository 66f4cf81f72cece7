-- ===== src/Guide/Fetcher/Published.antt =====
-- The index that the guide's fetcher publishes, whatever the network does and in whatever order the
-- goroutines run. The goroutine of a source is the only one to touch the source's maps, so its refresh
-- is one action.
use iptv2hdhr.Base.{
  All, subst, sym, ◌≡◌, ◌<◌, ◌↔◌, ◌⊎◌, inl, inr, true, Bool, none, some, text_lt, arith, refl, ap,
  ◌∙◌, Option, List, [], ◌∷◌, Bytes, lookup,
}
use iptv2hdhr.Config.Schema.{GuideSource}
use iptv2hdhr.Fetch.Sources.{Kept, Get, no_copies}
use iptv2hdhr.Fetch.Sources.Cells.{
  Cells, Refresh, Represents, empty_cells, refresh_cells, refresh_kept, refresh_kept-Represents,
  no_copies-Represents,
}
use iptv2hdhr.Guide.Xmltv.{Programme, Document, Time, TimeFormat}
use iptv2hdhr.Guide.Sorting.{Sorter}
use iptv2hdhr.Guide.Fetcher.{
  Index, GuideFetcher, new_guide_fetcher, listed_programmes, earlier, earlier_times, merge_index,
  merge_guides, refresh_guide, add_sources, empty_index,
}
use mathlib.Core.List.{Permᴰ}
use iptv2hdhr.Guide.Fetcher.Ordered.{IsTimed, InOrder, sort_slice-InOrder}
use iptv2hdhr.Guide.Fetcher.Indexed.{
  programmes_on, first_channel, source_programmes, source_channels, add_sources-Holds,
  sort_lists-listed,
}

pub data GuideAction (E : Type 0) : Type 0 where
  refreshes : GuideSource → Get E → GuideAction E
  merges : GuideAction E

-- The start of the first programme is before that of the second: by time, where both are timestamps, and
-- else by text.
pub data StartsBefore (tf : TimeFormat) (p q : Programme) : Type 0 where
  by_time :
      (s t : Time)
      → tf.parse_time p.start ≡ some s
      → tf.parse_time q.start ≡ some t
      → s < t
      → StartsBefore tf p q
  by_text :
      (tf.parse_time p.start ≡ none) ⊎ (tf.parse_time q.start ≡ none)
      → text_lt p.start q.start ≡ true
      → StartsBefore tf p q

earlier_times-StartsBefore :
    (tf : TimeFormat) (p q : Programme) (a b : Option Time)
    → tf.parse_time p.start ≡ a
    → tf.parse_time q.start ≡ b
    → earlier_times p q a b ≡ true
    → StartsBefore tf p q
earlier_times-StartsBefore tf p q none b ea eb e = by_text (inl ea) e
earlier_times-StartsBefore tf p q (some s) none ea eb e = by_text (inr eb) e
earlier_times-StartsBefore tf p q (some s) (some t) ea eb e = by_time s t ea eb (ground (arith, e))

StartsBefore-earlier :
    (tf : TimeFormat) (p q : Programme) → StartsBefore tf p q → earlier tf p q ≡ true
unfolding earlier
StartsBefore-earlier tf p q (by_time s t ea eb lt) = rw (earlier, ea, eb) (ground (arith, lt))
StartsBefore-earlier tf p q (by_text (inl ea) e) = rw (earlier, ea) e
StartsBefore-earlier tf p q (by_text (inr eb) e) =
    rw (earlier, eb) (by_none (tf.parse_time p.start))
  where
    by_none : (a : Option Time) → earlier_times p q a none ≡ true
    by_none none = e
    by_none (some s) = e

earlier_iff : (tf : TimeFormat) (p q : Programme) → (earlier tf p q ≡ true) ↔ StartsBefore tf p q
unfolding earlier
earlier_iff tf p q = (earlier_times-StartsBefore tf p q _ _ refl refl, StartsBefore-earlier tf p q)

-- An index that fits the sources' cells. `test` is what the programmes are sorted by.
pub record Indexes (tf : TimeFormat) (sorter : Sorter Programme) (cells : Cells Document)
    (srcs : List GuideSource) (idx : Index) : Type 0 where
  pub test : Programme → Programme → Bool
  pub tests : (p q : Programme) → (test p q ≡ true) ↔ StartsBefore tf p q
  pub programmes :
      (id : Bytes)
      → listed_programmes (lookup id idx.programmes_by_channel_id)
        ≡ sorter.sort_slice test (programmes_on id (source_programmes cells srcs))
  pub same_programmes :
      (id : Bytes)
      → Permᴰ
          (programmes_on id (source_programmes cells srcs))
          (listed_programmes (lookup id idx.programmes_by_channel_id))
  pub in_order :
      (id : Bytes)
      → All (IsTimed tf) (programmes_on id (source_programmes cells srcs))
      → InOrder tf (listed_programmes (lookup id idx.programmes_by_channel_id))
  pub meta :
      (id : Bytes) → lookup id idx.channel_meta ≡ first_channel id (source_channels cells srcs)

module _ (tf : TimeFormat) (sorter : Sorter Programme) where
  merge_index-Indexes :
      (k : Kept Document) (cells : Cells Document) (srcs : List GuideSource)
      → Represents k cells
      → Indexes tf sorter cells srcs (merge_index tf sorter k srcs)
  unfolding merge_index lookup
  merge_index-Indexes k cells srcs w =
      let all = add_sources k srcs empty_index in
      let listed = λ (id : Bytes).
        sort_lists-listed tf sorter id all.programmes_by_channel_id
        ∙ ap (sorter.sort_slice (earlier tf))
            (add_sources-Holds id k cells srcs empty_index w).programmes in
      record {
        test = earlier tf;
        tests = earlier_iff tf;
        programmes = listed;
        same_programmes = λ id.
            subst (Permᴰ (programmes_on id (source_programmes cells srcs))) (sym (listed id))
              (sorter.permutes (earlier tf) _);
        in_order =
            λ id timed. subst (InOrder tf) (sym (listed id)) (sort_slice-InOrder tf sorter _ timed);
        meta = λ id. (add_sources-Holds id k cells srcs empty_index w).meta;
      }

module _ {E : Type 0} where
  abbrev pub refreshes_of : List (GuideAction E) → List (Refresh E)
  refreshes_of [] = []
  refreshes_of (refreshes src get ∷ acts) =
      record { name = src.name; url = src.url; get = get } ∷ refreshes_of acts
  refreshes_of (merges ∷ acts) = refreshes_of acts

module _ {E : Type 0} (tf : TimeFormat) (sorter : Sorter Programme)
    (parse_document : Bytes → Option Document) where
  abbrev pub act : GuideAction E → GuideFetcher → GuideFetcher
  act (refreshes src get) f = refresh_guide parse_document get src f
  act merges f = merge_guides tf sorter f

  abbrev pub run : List (GuideAction E) → GuideFetcher → GuideFetcher
  run [] f = f
  run (a ∷ acts) f = run acts (act a f)

  run-kept :
      (acts : List (GuideAction E)) (f : GuideFetcher)
      → (run acts f).kept ≡ refresh_kept parse_document (refreshes_of acts) f.kept
  unfolding refresh_guide merge_guides
  run-kept [] f = refl
  run-kept (refreshes src get ∷ acts) f = run-kept acts _
  run-kept (merges ∷ acts) f = run-kept acts (merge_guides tf sorter f)

  run-sources : (acts : List (GuideAction E)) (f : GuideFetcher) → (run acts f).sources ≡ f.sources
  unfolding refresh_guide merge_guides
  run-sources [] f = refl
  run-sources (refreshes src get ∷ acts) f = run-sources acts _
  run-sources (merges ∷ acts) f = run-sources acts (merge_guides tf sorter f)

  -- After any sequence of refreshes and merges, a merge publishes under each channel id exactly the
  -- programmes of that id in the sources' last good documents, sorted with a test that is true exactly
  -- where the first start is before the second, by time or, where one is no timestamp, by text, so that
  -- none starts before one in front of it if all starts are timestamps; and the first channel with the
  -- id, in the order of the configuration. A failed fetch, an unparsable answer and "not modified" keep
  -- a source's document.
  pub merge_guides-Indexes :
      (acts : List (GuideAction E)) (srcs : List GuideSource)
      → Indexes tf sorter
          (refresh_cells parse_document (refreshes_of acts) empty_cells)
          srcs
          (merge_guides tf sorter (run acts (new_guide_fetcher srcs))).current
  unfolding merge_guides merge_index new_guide_fetcher
  merge_guides-Indexes acts srcs =
      rw (run-kept acts (new_guide_fetcher srcs), run-sources acts (new_guide_fetcher srcs))
        (merge_index-Indexes tf sorter _ _ srcs (
          refresh_kept-Represents parse_document (refreshes_of acts) no_copies empty_cells
            no_copies-Represents))
