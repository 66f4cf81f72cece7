-- ===== src/StreamProxy/Serve.antt =====
-- internal/streamproxy/proxy.go: the first half of `ServeHTTP`, up to the session that a request joins.
use iptv2hdhr.Base.{ℕ, Option, none, some, Bytes, codes, trim_prefix}
use iptv2hdhr.Lineup.{Lineup, StreamResult, not_configured, unmatched, matched, stream}
use iptv2hdhr.StreamProxy.Handler.{Handler, get_or_create_session}

-- The status codes 404 and 503 of an early return, or the session and the subscriber.
pub data Admission : Type 0 where
  channel_not_found : Admission
  temporarily_unavailable : Admission
  joined : ℕ → ℕ → Admission

-- strings.TrimPrefix(r.URL.Path, "/stream/")
unfoldable pub number_of_path : Bytes → Bytes
number_of_path path = trim_prefix path (codes "/stream/")

abbrev pub joined_result : Handler × ℕ × Option ℕ → Handler × Admission
joined_result (h, i, none) = (h, temporarily_unavailable)
joined_result (h, i, some sub) = (h, joined i sub)

abbrev pub admit_result : Handler → Bytes → StreamResult → Handler × Admission
admit_result h number not_configured = (h, channel_not_found)
admit_result h number unmatched = (h, temporarily_unavailable)
admit_result h number (matched s) = joined_result (get_or_create_session h number s)

unfoldable pub admit : Handler → Lineup → Bytes → Handler × Admission
unfolding number_of_path
admit h l path = admit_result h (number_of_path path) (stream l (number_of_path path))
