-- ===== src/StreamProxy/Upstream.antt =====
-- internal/streamproxy: what a session asks of its upstream and of ffmpeg, in session.go, and `isHLS`
-- of proxy.go.
pub mod Arguments
mod Tests
use iptv2hdhr.Base.{
  ℕ, Bool, true, false, ◌&&◌, ◌||◌, ◌⊎◌, Option, none, some, List, [], ◌∷◌, ◌++◌, map, Bytes, codes,
  equal, contains, lower_byte, to_lower, Unicode, Dict, insert, ◌==◌, if◌then◌else◌, text_lt,
}
use mathlib.Core.List.{reverse}
use iptv2hdhr.Base.Net.{canonical_mime_header_key}
use iptv2hdhr.Guide.Sorting.{Sorter}
use iptv2hdhr.Lineup.{Stream}
use iptv2hdhr.StreamProxy.Pump.{ReadResult}

abbrev pub upstream_user_agent : Bytes
upstream_user_agent = codes "iptv2hdhr/1.0"

-- The loop over `s.stream.Headers`: `req.Header.Set(k, v)`.
unfoldable pub set_headers : Dict Bytes → Dict Bytes → Dict Bytes
set_headers [] header = header
set_headers ((k, v) ∷ headers) header =
    set_headers headers (insert (canonical_mime_header_key k) v header)

-- The headers of the upstream request.
unfoldable pub request_headers : Dict Bytes → Dict Bytes
unfolding set_headers
request_headers headers = set_headers headers ((codes "User-Agent", upstream_user_agent) ∷ [])

pub record UpstreamRequest : Type 0 where
  pub url : Bytes
  pub headers : Dict Bytes

pub record UpstreamResponse : Type 0 where
  pub status : ℕ
  pub content_type : Bytes
  pub reads : List ReadResult

-- A run of ffmpeg: the errors of its two pipes and of its start, what the first read gives (`none`
-- if the timeout comes first), and the later ones; whether its stderr comes to an end, and whether it
-- exits (`cmd.Wait` returns), where it has been killed (`true`) and where its output has ended.
pub record FfmpegRun (E : Type 0) : Type 0 where
  pub stdout_error : Option E
  pub stderr_error : Option E
  pub start_error : Option E
  pub first_read : Option ReadResult
  pub reads : List ReadResult
  pub stderr_ends : Bool → Bool
  pub exits : Bool → Bool

-- `http.NewRequestWithContext` (an error, or none), `client.Do`, `url.Parse` up to its path, and
-- `exec.CommandContext` of ffmpeg with its arguments.
pub record Network (E : Type 0) : Type 0 where
  pub request_error : Bytes → Option E
  pub do_request : UpstreamRequest → E ⊎ UpstreamResponse
  pub parse_path : Bytes → Option Bytes
  pub ffmpeg : List Bytes → FfmpegRun E

-- The text from the last dot on, read backwards up to a slash.
abbrev ext_back : Bytes → Bytes → Bytes
ext_back [] ext = []
ext_back (c ∷ s) ext =
    let rest = ext_back s (c ∷ ext) in if c == b'/' then [] else if c == b'.' then c ∷ ext else rest

-- `path.Ext`
unfoldable pub path_ext : Bytes → Bytes
path_ext path = ext_back (reverse path) []

abbrev is_playlist_path : ⦃u : Unicode⦄ → Option Bytes → Bool
is_playlist_path none = false
is_playlist_path (some path) =
    equal (to_lower (path_ext path)) (codes ".m3u8")
    || equal (to_lower (path_ext path)) (codes ".m3u")

-- `isHLS`
unfoldable pub is_hls : {E : Type 0} ⦃u : Unicode⦄ → Network E → Bytes → Bytes → Bool
is_hls net upstream_url content_type =
    if contains (to_lower content_type) (codes "mpegurl")
    then true
    else is_playlist_path (net.parse_path upstream_url)

-- A key as `strings.EqualFold` reads it beside "User-Agent": ASCII capitals and the long s (U+017F)
-- fold to small letters.
unfoldable pub fold_key : Bytes → Bytes
unfolding lower_byte
fold_key [] = []
fold_key (c ∷ []) = lower_byte c ∷ []
fold_key (c ∷ d ∷ s) =
    let long_s = b's' ∷ fold_key s in
    let plain = lower_byte c ∷ fold_key (d ∷ s) in if c == 0xc5 && d == 0xbf then long_s else plain

abbrev pub is_user_agent : Bytes → Bool
is_user_agent k = equal (fold_key k) (codes "user-agent")

abbrev pub header_line : Bytes → Bytes → Bytes
header_line k v = k ++ (codes ": " ++ (v ++ codes "\r\n"))

-- The loop of `ffmpegHeaderArgs`: the last User-Agent, and the lines of the other headers.
unfoldable pub agent_of : Dict Bytes → Bytes → Bytes
agent_of [] agent = agent
agent_of ((k, v) ∷ headers) agent = agent_of headers (if is_user_agent k then v else agent)

unfoldable pub extra_lines : Dict Bytes → List Bytes
extra_lines [] = []
extra_lines ((k, v) ∷ headers) =
    let rest = extra_lines headers in if is_user_agent k then rest else header_line k v ∷ rest

-- `strings.Join(lines, "")`
abbrev pub join : List Bytes → Bytes
join [] = []
join (line ∷ lines) = line ++ join lines

abbrev header_option : List Bytes → List Bytes
header_option [] = []
header_option (line ∷ lines) = codes "-headers" ∷ join (line ∷ lines) ∷ []

-- `ffmpegHeaderArgs`; the list of headers stands for the order in which the map is read.
unfoldable pub ffmpeg_header_args : Sorter Bytes → Dict Bytes → List Bytes
unfolding extra_lines agent_of
ffmpeg_header_args sorter headers =
    codes "-user_agent"
    ∷ agent_of headers upstream_user_agent
    ∷ header_option (sorter.sort_slice text_lt (extra_lines headers))

-- The arguments of ffmpeg in `runRemux`. `hlsLiveStartSegments` is 3.
unfoldable pub ffmpeg_args : Sorter Bytes → Stream → List Bytes
ffmpeg_args sorter stream =
    map codes (
      "-hide_banner" ∷ "-loglevel" ∷ "warning" ∷ "-reconnect" ∷ "1" ∷ "-reconnect_streamed" ∷ "1"
      ∷ "-reconnect_delay_max" ∷ "5" ∷ [])
    ++ (ffmpeg_header_args sorter stream.headers
        ++ (codes "-live_start_index"
            ∷ codes "-3"
            ∷ codes "-re"
            ∷ codes "-i"
            ∷ stream.url
            ∷ map codes
                ("-c:v" ∷ "copy" ∷ "-c:a" ∷ "ac3" ∷ "-b:a" ∷ "192k" ∷ "-f" ∷ "mpegts" ∷ "-" ∷ [])))
