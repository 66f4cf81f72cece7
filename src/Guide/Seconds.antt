-- ===== src/Guide/Seconds.antt =====
-- Timestamps that are one number each, the seconds: they keep the contract of `TimeFormat`.
use iptv2hdhr.Base.{◌*◌, ◌/◌, ◌≡◌, refl, Option, none, some, [], ◌∷◌, arith, Bytes, text_lt, ltb}
use iptv2hdhr.Guide.Xmltv.{TimeFormat, Time, second}

unfoldable pub parse_seconds : Bytes → Option Time
parse_seconds [] = none
parse_seconds (n ∷ []) = some (n * second)
parse_seconds (n ∷ m ∷ s) = none

pub seconds_lt :
    (s t : Time) → text_lt (s / second ∷ []) (t / second ∷ []) ≡ ltb (s / second) (t / second)
unfolding text_lt
seconds_lt s t = ground arith

pub parse_seconds-format : (t : Time) → parse_seconds (t / second ∷ []) ≡ some (t / second * second)
unfolding parse_seconds
parse_seconds-format t = refl

abbrev pub seconds_format : TimeFormat
seconds_format = record {
  parse_time = parse_seconds;
  format_time = λ t. t / second ∷ [];
  last = 1_000_000 * second;
  parse-format = λ t lt. parse_seconds-format t;
  text_lt-format = λ s t l m. seconds_lt s t;
}
