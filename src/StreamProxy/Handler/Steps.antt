-- ===== src/StreamProxy/Handler/Steps.antt =====
-- The goroutines of internal/streamproxy as interleaved steps. A step is what one goroutine does
-- under a lock, or the call of `s.cancel()` behind it. Between its steps a goroutine stands in one of the fields of `World`: a request that
-- holds the handler's lock and has found a session to join; a timer's `endIfIdle` that is to take the
-- session out of the registry, and one that is to stop it; and the goroutine of each session. The
-- scheduler, the upstream and the clients are free: a startup may fail, an upstream end, and a client
-- leave, at any time.
pub mod Registry
pub mod Sessions
pub mod Cancels
pub mod Places
pub mod Runs
pub mod Over
pub mod Deliveries
pub mod Loud
pub mod Chunks
pub mod Delivery
pub mod Queues
pub mod Moves
pub mod Views
use iptv2hdhr.Base.{
  ℕ, ◌<◌, ◌≤◌, length, ◌≡◌, Bool, true, false, ◌||◌, Option, none, some, List, [], ◌∷◌, ◌==◌,
  if◌then◌else◌, Bytes,
}
use iptv2hdhr.Lineup.{Stream}
use iptv2hdhr.StreamProxy.Handler.{
  Handler, update, joinable, create, subscribe, unsubscribe, is_idle, deregister, stop, broadcast,
  fail, start_output, wake, take,
}
use iptv2hdhr.StreamProxy.Session.{copy_buffer_size}

-- Where `runSession` stands for a session: the session has not been made; startup; the pump; the
-- deferred function, which takes the session out of the registry, and then stops it; past that, where at most its
-- call of `s.cancel()` is left.
pub data RunPc : Type 0 where
  not_made : RunPc
  starting_up : RunPc
  pumping : RunPc
  leaving : RunPc
  taken_out : RunPc
  run_over : RunPc

-- `removing` and `stopping` are for the timers; `run` is for the goroutines of the sessions;
-- `cancelled` is the state of the sessions' contexts, which bound their upstreams.
pub record World : Type 0 where
  pub handler : Handler
  pub joining : Option ℕ
  pub removing : List ℕ
  pub stopping : List ℕ
  pub run : ℕ → RunPc
  pub cancelled : ℕ → Bool

unfoldable pub elem : ℕ → List ℕ → Bool
elem i [] = false
elem i (x ∷ xs) = x == i || elem i xs

-- One occurrence less.
unfoldable pub erase : ℕ → List ℕ → List ℕ
erase i [] = []
erase i (x ∷ xs) = let rest = erase i xs in if x == i then xs else x ∷ rest

-- The call of `s.cancel()` is made.
abbrev pub cancel_called : Handler → ℕ → Handler
cancel_called h i = record h { cancelling = erase i h.cancelling }

abbrev pub is_taken_out : RunPc → Bool
is_taken_out taken_out = true
is_taken_out _ = false

-- A timer or the session's goroutine is to call `stop` next.
abbrev pub about_to_stop : World → ℕ → Bool
about_to_stop w i = elem i w.stopping || is_taken_out (w.run i)

pub data Step (w : World) : World → Type 0 where
  -- A request takes the handler's lock, finds no session to join, and starts one.
  creates :
      (number : Bytes) (stream : Stream)
      → w.joining ≡ none
      → joinable w.handler number stream ≡ none
      → Step w (record w {
        handler = create w.handler number stream;
        run = update w.run w.handler.session_count starting_up;
        cancelled = update w.cancelled w.handler.session_count false;
      })
  -- It finds one, keeps the lock, and then subscribes, which fails if the session has ended.
  finds :
      (number : Bytes) (stream : Stream) (i : ℕ)
      → w.joining ≡ none
      → joinable w.handler number stream ≡ some i
      → Step w (record w { joining = some i })
  joins :
      (i : ℕ)
      → w.joining ≡ some i
      → Step w (record w { handler = (subscribe w.handler i).0; joining = none })
  -- A client receives a signal, and then takes what is queued.
  wakes :
      (k : ℕ)
      → k < w.handler.sub_count
      → (w.handler.sub k).notify ≡ true
      → Step w (record w { handler = wake w.handler k })
  takes : (k : ℕ) → k < w.handler.sub_count → Step w (record w { handler = take w.handler k })
  leaves : (i sub : ℕ) → Step w (record w { handler = unsubscribe w.handler i sub })
  -- The grace period is over and the session idle: `endIfIdle` goes on.
  expires : (i : ℕ) → is_idle w.handler i ≡ true → Step w (record w { removing = i ∷ w.removing })
  deregisters :
      (i : ℕ)
      → w.joining ≡ none
      → elem i w.removing ≡ true
      → Step w (record w {
        handler = deregister w.handler (w.handler.session i).number i;
        removing = erase i w.removing;
        stopping = i ∷ w.stopping;
      })
  stops :
      (i : ℕ)
      → i < w.handler.session_count
      → elem i w.stopping ≡ true
      → Step w (record w { handler = stop w.handler i; stopping = erase i w.stopping })
  -- Who has stopped a session calls `s.cancel()`, without a lock.
  cancels :
      (i : ℕ)
      → elem i w.handler.cancelling ≡ true
      → Step w
          (record w { handler = cancel_called w.handler i; cancelled = update w.cancelled i true })
  -- `runSession`: startup fails or goes well; the pump broadcasts, until the upstream ends; and then
  -- the deferred function.
  fails :
      (i : ℕ)
      → w.run i ≡ starting_up
      → Step w (record w { handler = fail w.handler i; run = update w.run i leaving })
  starts :
      (i : ℕ) (content_type : Bytes)
      → w.run i ≡ starting_up
      → Step w (record w {
        handler = start_output w.handler i content_type;
        run = update w.run i pumping;
      })
  broadcasts :
      (i : ℕ) (chunk : Bytes)
      → w.run i ≡ pumping
      → 0 < length chunk
      → length chunk ≤ copy_buffer_size
      → Step w (record w { handler = broadcast w.handler i chunk })
  finishes : (i : ℕ) → w.run i ≡ pumping → Step w (record w { run = update w.run i leaving })
  takes_out :
      (i : ℕ)
      → w.joining ≡ none
      → w.run i ≡ leaving
      → Step w (record w {
        handler = deregister w.handler (w.handler.session i).number i;
        run = update w.run i taken_out;
      })
  ends :
      (i : ℕ)
      → w.run i ≡ taken_out
      → Step w (record w { handler = stop w.handler i; run = update w.run i run_over })

-- Any number of steps from the first world on.
pub data Reach (v : World) : World → Type 0 where
  here : Reach v v
  next : {w x : World} → Reach v w → Step w x → Reach v x

-- `New`: no sessions, and no goroutine under way.
pub record IsStart (w : World) : Type 0 where
  pub no_sessions : w.handler.sessions ≡ []
  pub none_given : w.handler.session_count ≡ 0
  pub no_clients : w.handler.sub_count ≡ 0
  pub none_joining : w.joining ≡ none
  pub none_cancelled : (i : ℕ) → w.cancelled i ≡ false
  pub none_run : (i : ℕ) → w.run i ≡ not_made
