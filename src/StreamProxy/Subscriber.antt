-- ===== src/StreamProxy/Subscriber.antt =====
-- internal/streamproxy/session.go: `subscriber`, a client's queue of session output.
pub mod Backlog
use iptv2hdhr.Base.{
  ℕ, ◌+◌, ◌-◌, ◌*◌, ◌%◌, Bool, true, false, List, [], ◌∷◌, ◌++◌, ltb, if◌then◌else◌, length, drop,
  Bytes,
}

abbrev pub max_subscriber_backlog : ℕ
max_subscriber_backlog = 16 * 1024 * 1024

abbrev pub ts_packet_size : ℕ
ts_packet_size = 188

-- `notify` is the channel of capacity one: whether it holds a signal. A nil `pending` is empty.
pub record Subscriber : Type 0 where
  pub pending : Bytes
  pub closed : Bool
  pub notify : Bool

abbrev pub new_subscriber : Subscriber
new_subscriber = record { pending = []; closed = false; notify = false }

-- A send that does not block: a signal that is there already stays.
abbrev pub signal : Subscriber → Subscriber
signal sub = record sub { notify = true }

-- How many bytes a push of `n` bytes discards: whole packets.
unfoldable pub skipped_by : Subscriber → ℕ → ℕ
skipped_by sub n =
    if ltb max_subscriber_backlog (length sub.pending + n)
    then length sub.pending - length sub.pending % ts_packet_size
    else 0

-- The half of `push` under the lock: what is skipped is dropped, and the chunk is appended.
abbrev pub enqueue : Subscriber → Bytes → Subscriber
enqueue sub chunk = record sub {
  pending = drop (skipped_by sub (length chunk)) sub.pending ++ chunk;
}

unfoldable pub push_chunk : Subscriber → Bytes → Subscriber × ℕ
unfolding skipped_by
push_chunk sub chunk = (signal (enqueue sub chunk), skipped_by sub (length chunk))

-- `push`, which does nothing with an empty chunk.
unfoldable pub push : Subscriber → Bytes → Subscriber × ℕ
unfolding push_chunk
push sub [] = (sub, 0)
push sub (c ∷ chunk) = push_chunk sub (c ∷ chunk)

-- The half of `close` under the lock.
abbrev pub mark_closed : Subscriber → Subscriber
mark_closed sub = record sub { closed = true }

-- `close`
unfoldable pub close : Subscriber → Subscriber
close sub = signal (mark_closed sub)

-- `take`: the queue is emptied; its content and the closed flag are returned.
unfoldable pub take_pending : Subscriber → Subscriber × Bytes × Bool
take_pending sub = (record sub { pending = [] }, sub.pending, sub.closed)

-- The client's receive from `notify`, then `take`.
unfoldable pub receive : Subscriber → Subscriber × Bytes × Bool
unfolding take_pending
receive sub = take_pending (record sub { notify = false })
