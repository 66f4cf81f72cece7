-- ===== src/Guide/Tests.antt =====
-- A channel's guide on small schedules.
use iptv2hdhr.Base.{
  ℕ, ◌+◌, ◌-◌, ◌*◌, ◌%◌, ◌≡◌, refl, Option, none, some, List, [], ◌∷◌, ◌++◌, arith, All, Bytes,
  codes, text_lt, lookup, insert, equal, inl, inr, map, get_elem?, false,
}
use iptv2hdhr.Base.Int.{pos}
use iptv2hdhr.Config.Schema.{ChannelConfig, GuideSource}
use iptv2hdhr.Fetch.{fetching}
use iptv2hdhr.Fetch.Sources.{Get}
use iptv2hdhr.Fetch.Sources.Cells.{refresh_cells, empty_cells}
use iptv2hdhr.Lineup.{Channel, Lineup, built, new, build, channel_of, lineup_of}
use iptv2hdhr.Guide.Fetcher.{Index, new_guide_fetcher, merge_guides}
use iptv2hdhr.Guide.Fetcher.Indexed.{programmes_on}
use iptv2hdhr.Guide.Fetcher.Published.{
  GuideAction, refreshes, merges, run, refreshes_of, Indexes, merge_guides-Indexes,
}
use iptv2hdhr.Guide.Listing.{build_guide, channel_programmes, guide_channel}
use iptv2hdhr.Guide.Listing.Covered.{build_guide-programmes_on}
use iptv2hdhr.Guide.Xmltv.{Document}
use iptv2hdhr.Guide.Seconds.{parse_seconds, seconds_format}
use iptv2hdhr.Guide.Sorting.Insertion.{insertion}
use iptv2hdhr.Guide.Xmltv.{Programme, Time, second}
use iptv2hdhr.Guide.Filler.{
  Schedule, build_channel_programmes, real_programmes, fill, gap, time_of, guide_lookback,
  guide_lookahead, filler_block, clip_to_window, clip_all, clip, clip_times, dedup, filler_blocks,
  filler_from,
}
use iptv2hdhr.Guide.Filler.Blocks.{Covers}
use iptv2hdhr.Guide.Filler.Clip.{HasWholeTimes}
use iptv2hdhr.Guide.Filler.Coverage.{build_channel_programmes-Covers}
use iptv2hdhr.Guide.Filler.Placed.{IsPlaced, build_channel_programmes-IsPlaced}
use iptv2hdhr.Guide.Filler.Fraction.{fill_zero_length}

abbrev show : ℕ → ℕ → Programme
show from to = record {
  channel = codes "up";
  start = from ∷ [];
  stop = to ∷ [];
  title = [];
  sub_title = [];
  desc = [];
  category = [];
  icon = none;
}

-- Out of order, with an overlap, and one that runs past the window.
abbrev schedule : Schedule
schedule = (codes "x", show 40_000 900_000 ∷ show 12_000 14_000 ∷ show 13_000 15_000 ∷ []) ∷ []

abbrev now : Time
now = 10_000 * second

seconds_whole : (s : Bytes) (t : Time) → parse_seconds s ≡ some t → t % second ≡ 0
unfolding parse_seconds
seconds_whole [] t e = cc
seconds_whole (n ∷ []) t e = ground arith
seconds_whole (n ∷ m ∷ s) t e = cc

show-HasWholeTimes : (from to : ℕ) → HasWholeTimes seconds_format (show from to)
show-HasWholeTimes from to = record {
  start_whole = seconds_whole (from ∷ []);
  stop_whole = seconds_whole (to ∷ []);
}

schedule-HasWholeTimes :
    All (HasWholeTimes seconds_format) (real_programmes (some schedule) (codes "x"))
unfolding real_programmes lookup equal
schedule-HasWholeTimes =
    (show-HasWholeTimes _ _, (show-HasWholeTimes _ _, (show-HasWholeTimes _ _, tt)))

abbrev listing : List Programme
listing =
    build_channel_programmes seconds_format (insertion Programme) (some schedule) (codes "x")
      (codes "slot-1") (codes "One") now

abbrev at : ℕ → ℕ → Programme
at from to =
    filler_block seconds_format (codes "slot-1") (codes "One") (from * second) (to * second)

listing_lem :
    listing
    ≡ at 6_400 12_000
      ∷ record (show 12_000 14_000) { channel = codes "slot-1" }
      ∷ at 14_000 35_600
      ∷ at 35_600 40_000
      ∷ record (show 40_000 96_400) { channel = codes "slot-1" }
      ∷ []
unfolding build_channel_programmes clip_to_window clip_all clip clip_times dedup fill gap
    filler_blocks filler_from filler_block time_of real_programmes lookup equal parse_seconds
    insertion text_lt
listing_lem = refl

build_channel_programmes-Covers_example :
    Covers seconds_format (now - guide_lookback) (now + guide_lookahead) listing
build_channel_programmes-Covers_example =
    build_channel_programmes-Covers seconds_format (insertion Programme) (some schedule) (codes "x")
      (codes "slot-1") (codes "One") now (omega arith) (omega arith) refl schedule-HasWholeTimes

abbrev IsListed : Programme → Type 0
IsListed p = p.channel ≡ codes "up"

build_channel_programmes-IsPlaced_example :
    All (IsPlaced seconds_format (codes "slot-1") (codes "One") IsListed) listing
unfolding real_programmes lookup equal
build_channel_programmes-IsPlaced_example =
    build_channel_programmes-IsPlaced seconds_format (insertion Programme) (some schedule)
      (codes "x") (codes "slot-1") (codes "One") now IsListed (refl, (refl, (refl, tt)))

-- Half a second past the hour.
abbrev odd_end : Time
odd_end = 3_600 * second + 500_000_000

fill_zero_length_example :
    (q : Programme) × (fill seconds_format [] [] odd_end 0 (show 0 3_600 ∷ [])
      ≡ gap seconds_format [] [] 0 (time_of seconds_format (0 ∷ []))
        ++ (record (show 0 3_600) { channel = [] } ∷ q ∷ []))
    × (q.start ≡ q.stop)
fill_zero_length_example =
    fill_zero_length seconds_format [] [] odd_end 0 (show 0 3_600) (omega arith) (omega arith) refl
      (omega arith)

abbrev source : GuideSource
source = record { name = codes "g"; url = codes "http://g/"; refresh_interval = pos 60_000_000_000 }

abbrev serve : Get Bytes
serve url etag last_modified =
    inr (record {
      data' = codes "<tv/>";
      not_modified = false;
      etag = codes "v1";
      last_modified = [];
    })

abbrev down : Get Bytes
down url etag last_modified = inl (fetching (codes "refused"))

-- Any text decodes to one document.
abbrev decode : Bytes → Option Document
decode text = some (record {
  channels = record { id = codes "up"; display_name = codes "Up" ∷ []; icon = none } ∷ [];
  programmes = show 30 40 ∷ show 10 20 ∷ [];
})

abbrev history : List (GuideAction Bytes)
history = refreshes source serve ∷ merges ∷ refreshes source down ∷ []

merge_guides-Indexes_example :
    Indexes seconds_format
      (insertion Programme)
      (refresh_cells decode (refreshes_of history) empty_cells)
      (source ∷ [])
      (merge_guides seconds_format (insertion Programme) (
        run seconds_format
          (insertion Programme)
          decode
          history
          (new_guide_fetcher (source ∷ [])))).current
merge_guides-Indexes_example =
    merge_guides-Indexes seconds_format (insertion Programme) decode history (source ∷ [])

abbrev slot : Bytes → ChannelConfig
slot number = record {
  number = number;
  name = codes "A";
  logo = codes "http://l";
  tvg_id = codes "x";
  name_match = [];
}

abbrev slots : List ChannelConfig
slots = slot (codes "1") ∷ slot (codes "2") ∷ []

abbrev sample_index : Index
sample_index = record { programmes_by_channel_id = schedule; channel_meta = [] }

abbrev lineup : Lineup
lineup = lineup_of (map channel_of slots) ((codes "1", 0) ∷ (codes "2", 1) ∷ [])

lineup-built : new slots ≡ built lineup
unfolding new build lookup equal insert
lineup-built = refl

build_guide-programmes_on_example :
    ((build_guide seconds_format
        (insertion Programme)
        sample_index
        now
        (codes "http://t")
        lineup.current).channels
      ≡ map (guide_channel (codes "http://t")) (map channel_of slots))
    × ((i : ℕ) (ch : Channel)
        → get_elem? (map channel_of slots) i ≡ some ch
        → programmes_on ch.channel_id
            (build_guide seconds_format
              (insertion Programme)
              sample_index
              now
              (codes "http://t")
              lineup.current).programmes
          ≡ channel_programmes seconds_format (insertion Programme) sample_index now ch)
build_guide-programmes_on_example =
    build_guide-programmes_on seconds_format (insertion Programme) sample_index now
      (codes "http://t") slots lineup-built
