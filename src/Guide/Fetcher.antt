-- ===== src/Guide/Fetcher.antt =====
-- internal/guide/fetcher.go. The index' atomic pointer is a field; decoding XML (`xmltv.Parse`) is a
-- parameter, and so is each fetch.
pub mod Indexed
pub mod Ordered
pub mod Published
mod Loop
use iptv2hdhr.Base.{
  Bool, true, false, Option, none, some, List, [], ◌∷◌, ◌++◌, Bytes, Dict, lookup, insert, ltb,
  text_lt,
}
use iptv2hdhr.Config.Schema.{GuideSource}
use iptv2hdhr.Fetch.Sources.{Kept, Get, no_copies, refresh_source}
use iptv2hdhr.Guide.Xmltv.{Programme, GuideChannel, Document, TimeFormat, Time}
use iptv2hdhr.Guide.Sorting.{Sorter}

pub record Index : Type 0 where
  pub programmes_by_channel_id : Dict (List Programme)
  pub channel_meta : Dict GuideChannel

-- `emptyIndex`
abbrev pub empty_index : Index
empty_index = record { programmes_by_channel_id = []; channel_meta = [] }

pub record GuideFetcher : Type 0 where
  pub sources : List GuideSource
  pub kept : Kept Document
  pub current : Index

-- `NewFetcher`
unfoldable pub new_guide_fetcher : List GuideSource → GuideFetcher
new_guide_fetcher sources = record { sources = sources; kept = no_copies; current = empty_index }

abbrev pub keep_first : Option GuideChannel → GuideChannel → Dict GuideChannel → Dict GuideChannel
keep_first (some old) ch meta = meta
keep_first none ch meta = insert ch.id ch meta

-- The loop over a document's channels.
unfoldable pub add_channels : List GuideChannel → Dict GuideChannel → Dict GuideChannel
add_channels [] meta = meta
add_channels (ch ∷ chs) meta = add_channels chs (keep_first (lookup ch.id meta) ch meta)

abbrev pub listed_programmes : Option (List Programme) → List Programme
listed_programmes none = []
listed_programmes (some ps) = ps

-- idx.ProgrammesByChannelID[p.Channel] = append(idx.ProgrammesByChannelID[p.Channel], p)
abbrev pub add_programme : Programme → Dict (List Programme) → Dict (List Programme)
add_programme p d = insert p.channel (listed_programmes (lookup p.channel d) ++ p ∷ []) d

-- The loop over a document's programmes.
unfoldable pub add_programmes : List Programme → Dict (List Programme) → Dict (List Programme)
add_programmes [] d = d
add_programmes (p ∷ ps) d = add_programmes ps (add_programme p d)

abbrev pub add_document : Option Document → Index → Index
add_document none idx = idx
add_document (some doc) idx = record {
  programmes_by_channel_id = add_programmes doc.programmes idx.programmes_by_channel_id;
  channel_meta = add_channels doc.channels idx.channel_meta;
}

-- The loop over the sources.
unfoldable pub add_sources : Kept Document → List GuideSource → Index → Index
add_sources k [] idx = idx
add_sources k (src ∷ srcs) idx = add_sources k srcs (add_document (lookup src.name k.last_good) idx)

abbrev pub earlier_times : Programme → Programme → Option Time → Option Time → Bool
earlier_times p q (some s) (some t) = ltb s t
earlier_times p q none t = text_lt p.start q.start
earlier_times p q (some s) none = text_lt p.start q.start

-- The test of the sort: by time where both starts are timestamps, else by text.
unfoldable pub earlier : TimeFormat → Programme → Programme → Bool
earlier tf p q = earlier_times p q (tf.parse_time p.start) (tf.parse_time q.start)

module _ (tf : TimeFormat) (sorter : Sorter Programme) where
  -- The loop that sorts each channel's programmes.
  unfoldable pub sort_lists : Dict (List Programme) → Dict (List Programme)
  sort_lists [] = []
  sort_lists ((id, ps) ∷ d) = (id, sorter.sort_slice (earlier tf) ps) ∷ sort_lists d

  unfoldable pub merge_index : Kept Document → List GuideSource → Index
  merge_index k srcs =
      let idx = add_sources k srcs empty_index in
      record idx { programmes_by_channel_id = sort_lists idx.programmes_by_channel_id }

  -- `merge`
  unfoldable pub merge_guides : GuideFetcher → GuideFetcher
  merge_guides f = record f { current = merge_index f.kept f.sources }

module _ {E : Type 0} (parse_document : Bytes → Option Document) where
  -- `refreshSource`
  unfoldable pub refresh_guide : Get E → GuideSource → GuideFetcher → GuideFetcher
  refresh_guide get src f = record f {
    kept = refresh_source parse_document get src.name src.url f.kept;
  }

  -- The loop of `RefreshNow`; each source has a fetch of its own.
  unfoldable pub refresh_each_guide :
      (GuideSource → Get E) → List GuideSource → GuideFetcher → GuideFetcher
  refresh_each_guide net [] f = f
  refresh_each_guide net (src ∷ srcs) f =
      refresh_each_guide net srcs (refresh_guide (net src) src f)

  -- `RefreshNow`
  unfoldable pub refresh_guides_now :
      TimeFormat → Sorter Programme → (GuideSource → Get E) → GuideFetcher → GuideFetcher
  refresh_guides_now tf sorter net f = merge_guides tf sorter (refresh_each_guide net f.sources f)

  -- A tick of the goroutine that `Start` runs for a source.
  unfoldable pub guide_tick :
      TimeFormat → Sorter Programme → Get E → GuideSource → GuideFetcher → GuideFetcher
  guide_tick tf sorter get src f = merge_guides tf sorter (refresh_guide get src f)
