-- ===== src/Guide/Filler.antt =====
-- internal/guide/filler.go: a channel's programmes for the guide window, with filler for the gaps.
-- Timestamps and `sort.Slice` are parameters. `now` is past the first hour of year 1, so that
-- subtraction stays above zero.
pub mod Blocks
pub mod Clip
pub mod Coverage
pub mod Placed
pub mod Fraction
use iptv2hdhr.Base.{
  ℕ, zero, suc, ◌+◌, ◌-◌, ◌*◌, ◌/◌, Bool, true, false, not, ◌&&◌, ◌||◌, Option, none, some, List,
  [], ◌∷◌, ◌++◌, ltb, if◌then◌else◌, Bytes, codes, is_empty, text_lt, Dict, lookup,
}
use iptv2hdhr.Guide.Xmltv.{Programme, Tagged, TimeFormat, Time, hour}
use iptv2hdhr.Guide.Sorting.{Sorter}

abbrev pub guide_lookback : ℕ
guide_lookback = 1 * hour

abbrev pub guide_lookahead : ℕ
guide_lookahead = 24 * hour

abbrev pub max_filler_block_duration : ℕ
max_filler_block_duration = 6 * hour

abbrev pub filler_title : Bytes
filler_title = codes "No Program Information Available"

-- " — no schedule data"
abbrev no_schedule_data : Bytes
no_schedule_data = b' ' ∷ 0xe2 ∷ 0x80 ∷ 0x94 ∷ codes " no schedule data"

abbrev pub untagged : Bytes → List Tagged
untagged value = record { lang = []; value = value } ∷ []

abbrev pub block_end : Time → Time → Time
block_end cursor end =
    if ltb end (cursor + max_filler_block_duration) then end else cursor + max_filler_block_duration

module _ (tf : TimeFormat) (channel_id channel_name : Bytes) where
  unfoldable pub filler_block : Time → Time → Programme
  filler_block start stop = record {
    channel = channel_id;
    start = tf.format_time start;
    stop = tf.format_time stop;
    title = untagged filler_title;
    sub_title = [];
    desc = untagged (channel_name ++ no_schedule_data);
    category = [];
    icon = none;
  }

  -- The loop of `fillerBlocks`, on fuel: the blocks that are left.
  unfoldable pub filler_from : ℕ → Time → Time → List Programme
  filler_from zero cursor end = []
  filler_from (suc fuel) cursor end =
      let rest = filler_from fuel (block_end cursor end) end in
      if ltb cursor end then filler_block cursor (block_end cursor end) ∷ rest else []

  -- `fillerBlocks`. Each round but the last takes a whole block off the gap.
  unfoldable pub filler_blocks : Time → Time → List Programme
  filler_blocks start end =
      if ltb start end
      then filler_from (suc ((end - start) / max_filler_block_duration)) start end
      else []

-- `time, _ := xmltv.ParseTime(s)`: the zero time where the text is no timestamp.
unfoldable pub time_of : TimeFormat → Bytes → Time
time_of tf s = elim (tf.parse_time s) [ none ↦ 0 | some t ↦ t ]

abbrev pub cons_clipped : Option Programme → List Programme → List Programme
cons_clipped none rest = rest
cons_clipped (some q) rest = q ∷ rest

abbrev pub clip_start : Time → Time → Time
clip_start window_start start = if ltb start window_start then window_start else start

abbrev pub clip_stop : Time → Time → Time
clip_stop window_end stop = if ltb window_end stop then window_end else stop

module _ (tf : TimeFormat) (window_start window_end : Time) where
  -- `none` is `continue`.
  unfoldable pub clip_times : Programme → Time → Time → Option Programme
  clip_times p start stop =
      if not (ltb window_start stop) || not (ltb start window_end)
      then none
      else if not (ltb (clip_start window_start start) (clip_stop window_end stop))
      then none
      else some (record p {
        start = tf.format_time (clip_start window_start start);
        stop = tf.format_time (clip_stop window_end stop);
      })

  unfoldable pub clip : Programme → Option Programme
  clip p = elim (tf.parse_time p.start) [
    | none ↦ none
    | some start ↦ elim (tf.parse_time p.stop) [ none ↦ none | some stop ↦ clip_times p start stop ]
  ]

  -- The first loop of `clipToWindow`.
  unfoldable pub clip_all : List Programme → List Programme
  clip_all [] = []
  clip_all (p ∷ ps) = cons_clipped (clip p) (clip_all ps)

-- The last loop of `clipToWindow` behind its first round, which always keeps its programme.
unfoldable pub dedup_from : TimeFormat → Time → List Programme → List Programme
dedup_from tf prev_stop [] = []
dedup_from tf prev_stop (p ∷ ps) =
    let start = time_of tf p.start in
    let skipped = dedup_from tf prev_stop ps in
    let kept = p ∷ dedup_from tf (time_of tf p.stop) ps in
    if not (ltb prev_stop start) && ltb start prev_stop then skipped else kept

unfoldable pub dedup : TimeFormat → List Programme → List Programme
unfolding dedup_from
dedup tf [] = []
dedup tf (p ∷ ps) = p ∷ dedup_from tf (time_of tf p.stop) ps

abbrev pub starts_before : Programme → Programme → Bool
starts_before p q = text_lt p.start q.start

-- `clipToWindow`
unfoldable pub clip_to_window :
    TimeFormat → Sorter Programme → List Programme → Time → Time → List Programme
clip_to_window tf sorter programmes window_start window_end =
    dedup tf (sorter.sort_slice starts_before (clip_all tf window_start window_end programmes))

-- The view of the guides that filler.go reads: `Index.ProgrammesByChannelID`.
abbrev pub Schedule : Type 0
Schedule = Dict (List Programme)

abbrev programmes_for : Option (List Programme) → List Programme
programmes_for none = []
programmes_for (some ps) = ps

-- `none` is a nil index.
unfoldable pub real_programmes : Option Schedule → Bytes → List Programme
real_programmes none tvg_id = []
real_programmes (some schedule) tvg_id =
    if is_empty tvg_id then [] else programmes_for (lookup tvg_id schedule)

module _ (tf : TimeFormat) (channel_id channel_name : Bytes) where
  -- The gap between the cursor and the next programme, or the end of the window.
  unfoldable pub gap : Time → Time → List Programme
  gap cursor start =
      if ltb cursor start then filler_blocks tf channel_id channel_name cursor start else []

  -- The loop of `BuildChannelProgrammes`, and the gap behind it.
  unfoldable pub fill : Time → Time → List Programme → List Programme
  unfolding gap
  fill window_end cursor [] = gap cursor window_end
  fill window_end cursor (p ∷ ps) =
      let start = time_of tf p.start in
      let stop = time_of tf p.stop in
      gap cursor start
      ++ (record p { channel = channel_id }
          ∷ fill window_end (if ltb cursor stop then stop else cursor) ps)

unfoldable pub build_channel_programmes :
    TimeFormat → Sorter Programme → Option Schedule → Bytes → Bytes → Bytes → Time → List Programme
build_channel_programmes tf sorter index tvg_id channel_id channel_name now =
    let window_start = now - guide_lookback in
    let window_end = now + guide_lookahead in
    fill tf channel_id channel_name window_end window_start
      (clip_to_window tf sorter (real_programmes index tvg_id) window_start window_end)
