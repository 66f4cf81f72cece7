-- ===== src/StreamProxy/Session.antt =====
-- internal/streamproxy/session.go: `session`, its life and the join prebuffer. A session's
-- subscribers are named by numbers; the subscribers themselves stand in the handler's state.
pub mod Recent
use iptv2hdhr.Base.{
  ℕ, ◌+◌, ◌-◌, ◌*◌, ◌%◌, Bool, true, false, Option, none, some, List, [], ◌∷◌, ◌++◌, ltb, ◌==◌,
  if◌then◌else◌, length, drop, Bytes,
}
use iptv2hdhr.Lineup.{Stream}
use iptv2hdhr.StreamProxy.Subscriber.{ts_packet_size}

abbrev pub join_prebuffer_size : ℕ
join_prebuffer_size = 4 * 1024 * 1024

-- The chunk size of reads.
abbrev pub copy_buffer_size : ℕ
copy_buffer_size = 64 * 1024

-- The output kept for joiners: `recent` and `recentStart`.
pub record Prebuffer : Type 0 where
  pub recent : Bytes
  pub recent_start : ℕ

-- Where the trimmed prebuffer is to start: `excess` bytes on, rounded up to a packet.
unfoldable pub trim_end : Prebuffer → ℕ → ℕ
trim_end p excess =
    let end = p.recent_start + excess in
    let rem = end % ts_packet_size in if rem == 0 then end else end + (ts_packet_size - rem)

-- The first half of `broadcast`. `len(s.recent) - joinPrebufferSize` is at most 0 exactly where the
-- difference of natural numbers is 0. The slice is in range by `trim-le-length`.
unfoldable pub keep_recent : Prebuffer → Bytes → Prebuffer
unfolding trim_end
keep_recent p chunk =
    let recent = p.recent ++ chunk in
    let excess = length recent - join_prebuffer_size in
    let end = trim_end p excess in
    if ltb 0 excess
    then record { recent = drop (end - p.recent_start) recent; recent_start = end }
    else record { recent = recent; recent_start = p.recent_start }

-- `err` says whether startup failed; `ready` whether the channel of that name is closed; the timer
-- whether `idleTimer` is not nil.
pub record Session : Type 0 where
  pub number : Bytes
  pub stream : Stream
  pub content_type : Bytes
  pub err : Bool
  pub ready : Bool
  pub subs : List ℕ
  pub closed : Bool
  pub idle_timer : Bool
  pub prebuffer : Prebuffer

abbrev pub new_session : Bytes → Stream → ℕ → Session
new_session number stream sub = record {
  number = number;
  stream = stream;
  content_type = [];
  err = false;
  ready = false;
  subs = sub ∷ [];
  closed = false;
  idle_timer = false;
  prebuffer = record { recent = []; recent_start = 0 };
}
