-- ===== src/Guide/Xmltv.antt =====
-- internal/guide/xmltv: the records of types.go, and the timestamps of parse.go.
use iptv2hdhr.Base.{ℕ, ◌*◌, ◌/◌, ◌<◌, ◌≡◌, Option, some, List, Bytes, text_lt, ltb}

-- A <title>, <sub-title>, <desc> or <category> element: `Title`, `SubTitle`, `Desc`, `Category`.
pub record Tagged : Type 0 where
  pub lang : Bytes
  pub value : Bytes

pub record Icon : Type 0 where
  pub src : Bytes

pub record Programme : Type 0 where
  pub channel : Bytes
  pub start : Bytes
  pub stop : Bytes
  pub title : List Tagged
  pub sub_title : List Tagged
  pub desc : List Tagged
  pub category : List Tagged
  pub icon : Option Icon

pub record GuideChannel : Type 0 where
  pub id : Bytes
  pub display_name : List Bytes
  pub icon : Option Icon

pub record Document : Type 0 where
  pub channels : List GuideChannel
  pub programmes : List Programme

-- A point of time in nanoseconds since the zero `time.Time`, 1 January of year 1.
abbrev pub Time : Type 0
Time = ℕ

abbrev pub second : ℕ
second = 1_000_000_000

abbrev pub hour : ℕ
hour = 3600 * second

-- `ParseTime` and `FormatTime`, which are calls of Go's `time` package: `none` is an error. A
-- timestamp has no fraction, so formatting cuts a time down to its second; formatted in UTC, and
-- with the same number of digits up to `last` (the end of year 9999), texts are ordered as times.
pub record TimeFormat : Type 0 where
  pub parse_time : Bytes → Option Time
  pub format_time : Time → Bytes
  pub last : Time
  pub parse-format : (t : Time) → t < last → parse_time (format_time t) ≡ some (t / second * second)
  pub text_lt-format :
      (s t : Time)
      → s < last
      → t < last
      → text_lt (format_time s) (format_time t) ≡ ltb (s / second) (t / second)
