-- ===== src/StreamProxy/Client.antt =====
-- internal/streamproxy/proxy.go: a client, from the session that it has joined on (the second half of
-- `ServeHTTP`), beside the session's goroutines, which change its queue under a lock and signal it
-- afterwards. A step is what one goroutine does at once.
pub mod Progress
mod Tests
use iptv2hdhr.Base.{
  ℕ, suc, ◌<◌, ◌-◌, ◌≡◌, ◌≢◌, Bool, true, false, List, [], ◌∷◌, ◌++◌, Bytes, if◌then◌else◌,
}
use iptv2hdhr.StreamProxy.Subscriber.{
  Subscriber, new_subscriber, enqueue, mark_closed, signal, take_pending,
}

-- How a request ends: a 503, the return behind the last data, or a client that is gone.
pub data Outcome : Type 0 where
  upstream_error : Outcome
  session_ended : Outcome
  write_failed : Outcome
  disconnected : Outcome

-- Where the request stands: before `<-s.ready`, at the loop's select, between the receive from
-- `notify` and `take`, behind `take` with what it returned, or at its end.
pub data Phase : Type 0 where
  awaiting : Phase
  selecting : Phase
  notified : Phase
  writing : Bytes → Bool → Phase
  done : Outcome → Phase

-- `signalling` counts the goroutines that have changed the queue and are about to signal.
pub record Client : Type 0 where
  pub sub : Subscriber
  pub signalling : ℕ
  pub ready : Bool
  pub err : Bool
  pub phase : Phase
  pub written : Bytes

-- `s.err` is read once `s.ready` is closed.
abbrev pub begin_phase : Bool → Phase
begin_phase err = if err then done upstream_error else selecting

abbrev pub received : Subscriber → Subscriber
received sub = record sub { notify = false }

-- The loop behind a write: the request ends if `take` has said that the queue is closed.
abbrev pub next_phase : Bool → Phase
next_phase closed = if closed then done session_ended else selecting

-- The steps of the request itself, and a signal that is due.
pub data OwnStep (c : Client) : Client → Type 0 where
  begins : c.phase ≡ awaiting → c.ready ≡ true → OwnStep c (record c { phase = begin_phase c.err })
  receives :
      c.phase ≡ selecting
      → c.sub.notify ≡ true
      → OwnStep c (record c { sub = received c.sub; phase = notified })
  takes :
      c.phase ≡ notified
      → OwnStep c (record c {
        sub = (take_pending c.sub).0;
        phase = writing (take_pending c.sub).1 (take_pending c.sub).2;
      })
  writes :
      (bytes : Bytes) (closed : Bool)
      → c.phase ≡ writing bytes closed
      → OwnStep c (record c { phase = next_phase closed; written = c.written ++ bytes })
  signals :
      (n : ℕ) → c.signalling ≡ suc n → OwnStep c (record c { sub = signal c.sub; signalling = n })

pub data ClientStep (c : Client) : Client → Type 0 where
  own : {d : Client} → OwnStep c d → ClientStep c d
  -- `fail`, or the end of a startup that went well.
  starts : (err : Bool) → c.ready ≡ false → ClientStep c (record c { ready = true; err = err })
  -- A broadcast and a stop reach the queues that are not closed.
  pushes :
      (chunk : Bytes)
      → chunk ≢ []
      → c.sub.closed ≡ false
      → ClientStep c (record c { sub = enqueue c.sub chunk; signalling = suc c.signalling })
  closes :
      c.sub.closed ≡ false
      → ClientStep c (record c { sub = mark_closed c.sub; signalling = suc c.signalling })
  write_fails :
      (b : ℕ) (bytes : Bytes) (closed : Bool)
      → c.phase ≡ writing (b ∷ bytes) closed
      → ClientStep c (record c { phase = done write_failed })
  -- `<-r.Context().Done()`, at either select.
  gives_up : c.phase ≡ awaiting → ClientStep c (record c { phase = done disconnected })
  disconnects : c.phase ≡ selecting → ClientStep c (record c { phase = done disconnected })

pub data ClientReach (b : Client) : Client → Type 0 where
  here : ClientReach b b
  next : {c d : Client} → ClientReach b c → ClientStep c d → ClientReach b d

-- A request that has just joined: of a new session, or of a running one, whose prebuffer has been
-- pushed to its queue.
pub record IsJoined (c : Client) : Type 0 where
  pub waits : c.phase ≡ awaiting
  pub signalled : c.sub.pending ≢ [] → c.sub.notify ≡ true
  pub open_queue : c.sub.closed ≡ false
  pub none_signalling : c.signalling ≡ 0
