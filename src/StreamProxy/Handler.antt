-- ===== src/StreamProxy/Handler.antt =====
-- internal/streamproxy/session.go and proxy.go: the handler, its registry of sessions, and the
-- operations on a session that a lock makes atomic. Sessions and subscribers are objects that
-- several goroutines share: they stand in a store and are named by numbers.
pub mod Registered
pub mod Steps
pub mod Clients
use iptv2hdhr.Base.{
  ℕ, suc, ◌+◌, Bool, true, false, not, ◌&&◌, Option, none, some, List, [], ◌∷◌, ◌==◌, if◌then◌else◌,
  Bytes, Dict, lookup, insert, remove,
}
use iptv2hdhr.Lineup.{Stream, stream_equal}
use iptv2hdhr.StreamProxy.Subscriber.{Subscriber, new_subscriber, push, close, take_pending}
use iptv2hdhr.StreamProxy.Session.{Session, new_session, keep_recent}

-- `sessions` is the registry. `session_count` and `sub_count` are the numbers not yet given out.
-- `cancelling` is for the goroutines that have stopped a session and left its lock: the call of
-- `s.cancel()`, which ends `stop`, is their next one. The step `cancels` of Steps is that call.
pub record Handler : Type 0 where
  pub sessions : Dict ℕ
  pub session : ℕ → Session
  pub session_count : ℕ
  pub sub : ℕ → Subscriber
  pub sub_count : ℕ
  pub cancelling : List ℕ

abbrev pub update {ℓ} : {A : Type ℓ} → (ℕ → A) → ℕ → A → ℕ → A
update f i v j = if i == j then v else f j

abbrev pub with_session : Handler → ℕ → Session → Handler
with_session h i s = record h { session = update h.session i s }

-- `delete(s.subs, sub)`
unfoldable pub delete_sub : ℕ → List ℕ → List ℕ
delete_sub sub [] = []
delete_sub sub (x ∷ xs) = let rest = delete_sub sub xs in if x == sub then rest else x ∷ rest

-- The loops over `s.subs` of `stop` and `broadcast`. A map has no key twice.
unfoldable pub close_all : List ℕ → (ℕ → Subscriber) → ℕ → Subscriber
close_all [] sub = sub
close_all (i ∷ is) sub = close_all is (update sub i (close (sub i)))

unfoldable pub push_all : Bytes → List ℕ → (ℕ → Subscriber) → ℕ → Subscriber
push_all chunk [] sub = sub
push_all chunk (i ∷ is) sub = push_all chunk is (update sub i (push (sub i) chunk).0)

abbrev pub stopped : Session → Session
stopped s = record s { closed = true; idle_timer = false; subs = [] }

-- `session.stop`, up to `s.mu.Unlock()`. A session that has ended is not cancelled again.
unfoldable pub stop : Handler → ℕ → Handler
stop h i = if (h.session i).closed then h else record h {
  session = update h.session i (stopped (h.session i));
  sub = close_all (h.session i).subs h.sub;
  cancelling = i ∷ h.cancelling;
}

-- `session.subscribe`; `none` is ok=false. The new subscriber is sent the prebuffer first.
unfoldable pub subscribe : Handler → ℕ → Handler × Option ℕ
subscribe h i = if (h.session i).closed then (h, none) else (
  record h {
    session =
        update h.session i
          (record (h.session i) { idle_timer = false; subs = h.sub_count ∷ (h.session i).subs });
    sub = update h.sub h.sub_count (push new_subscriber (h.session i).prebuffer.recent).0;
    sub_count = suc h.sub_count;
  },
  some h.sub_count,
)

-- The test of `getOrCreateSession`: a registered session for this upstream that has not ended.
unfoldable pub joinable : Handler → Bytes → Stream → Option ℕ
joinable h number stream = elim (lookup number h.sessions) [
  | none ↦ none
  | some i ↦
      if stream_equal (h.session i).stream stream && not (h.session i).closed then some i else none
]

-- `s.stop()` of the session that is to be replaced.
unfoldable pub stop_old : Handler → Bytes → Handler
unfolding stop
stop_old h number = elim (lookup number h.sessions) [ none ↦ h | some i ↦ stop h i ]

-- The rest of `getOrCreateSession`: a new session, with its first subscriber.
unfoldable pub register : Handler → Bytes → Stream → Handler
register h number stream = record {
  sessions = insert number h.session_count h.sessions;
  session = update h.session h.session_count (new_session number stream h.sub_count);
  session_count = suc h.session_count;
  sub = update h.sub h.sub_count new_subscriber;
  sub_count = suc h.sub_count;
  cancelling = h.cancelling;
}

unfoldable pub create : Handler → Bytes → Stream → Handler
unfolding stop_old register
create h number stream = register (stop_old h number) number stream

-- `getOrCreateSession`, where no other goroutine gets between its two locks: the session, and the
-- subscriber or ok=false.
unfoldable pub get_or_create_session : Handler → Bytes → Stream → Handler × ℕ × Option ℕ
get_or_create_session h number stream = elim (joinable h number stream) [
  | some i ↦ ((subscribe h i).0, i, (subscribe h i).1)
  | none ↦ (create h number stream, h.session_count, some h.sub_count)
]

is_nil : List ℕ → Bool
is_nil [] = true
is_nil (_ ∷ _) = false

-- `unsubscribe`: the last subscriber to go arms the idle timer.
unfoldable pub unsubscribe : Handler → ℕ → ℕ → Handler
unfolding is_nil
unsubscribe h i sub =
    let s = h.session i in
    let left = delete_sub sub s.subs in
    if s.closed
    then h
    else with_session h i
        (record s { subs = left; idle_timer = if is_nil left then true else s.idle_timer })

-- The test of `endIfIdle`.
unfoldable pub is_idle : Handler → ℕ → Bool
unfolding is_nil
is_idle h i = not (h.session i).closed && is_nil (h.session i).subs

-- `if h.sessions[number] == s { delete(h.sessions, number) }`
unfoldable pub deregister : Handler → Bytes → ℕ → Handler
deregister h number i = elim (lookup number h.sessions) [
  | none ↦ h
  | some j ↦ if j == i then record h { sessions = remove number h.sessions } else h
]

-- `endIfIdle`, where no other goroutine gets between its locks.
unfoldable pub end_if_idle : Handler → Bytes → ℕ → Handler
unfolding is_idle deregister stop
end_if_idle h number i = if is_idle h i then stop (deregister h number i) i else h

-- A client's receive from `notify`, and its `take`.
unfoldable pub wake : Handler → ℕ → Handler
wake h k = record h { sub = update h.sub k (record (h.sub k) { notify = false }) }

unfoldable pub take : Handler → ℕ → Handler
take h k = record h { sub = update h.sub k (take_pending (h.sub k)).0 }

-- `broadcast`
unfoldable pub broadcast : Handler → ℕ → Bytes → Handler
broadcast h i chunk = record h {
  session =
      update h.session i
        (record (h.session i) { prebuffer = keep_recent (h.session i).prebuffer chunk });
  sub = push_all chunk (h.session i).subs h.sub;
}

-- `fail`, and `close(s.ready)` of a startup that went well.
unfoldable pub fail : Handler → ℕ → Handler
fail h i = with_session h i (record (h.session i) { err = true; ready = true })

unfoldable pub start_output : Handler → ℕ → Bytes → Handler
start_output h i content_type =
    with_session h i (record (h.session i) { content_type = content_type; ready = true })
