-- ===== src/StreamProxy/Handler/Steps/Cancels.antt =====
-- The contexts of the sessions: who stops a session cancels its context after it has left the lock, so
-- that other goroutines may see the session ended before its context is cancelled.
use iptv2hdhr.Base.{
  ℕ, ◌<◌, ◌≡◌, refl, ap, sym, ◌∙◌, true, false, ◌⊎◌, inl, inr, List, [], ◌∷◌, arith, ◌==◌, ==_iff,
  Bytes, lookup, Bool-cases, Option-cases,
}
use iptv2hdhr.Lineup.{Stream}
use iptv2hdhr.StreamProxy.Handler.{
  Handler, update, create, register, stop_old, subscribe, unsubscribe, deregister, stop, broadcast,
  fail, start_output, wake, take,
}
use iptv2hdhr.StreamProxy.Handler.Registered.{
  stop_old-Ages, subscribe-Ages, unsubscribe-Ages, stop-Ages, deregister-session_count,
}
use iptv2hdhr.StreamProxy.Handler.Steps.{
  World, cancel_called, starting_up, Step, creates, finds, joins, wakes, takes, cancels, leaves,
  expires, finishes, takes_out, ends, deregisters, stops, broadcasts, fails, starts, Reach, here,
  next, IsStart, elem, erase,
}
use iptv2hdhr.StreamProxy.Handler.Steps.Sessions.{IsTidy, Reach-AllTidy}

-- An operation that forgets no context that is to be cancelled, and ends a session only if its context
-- is to be cancelled.
record Settles (h k : Handler) (i : ℕ) : Type 0 where
  kept : elem i h.cancelling ≡ true → elem i k.cancelling ≡ true
  ended : (k.session i).closed ≡ true → ((h.session i).closed ≡ true) ⊎ (elem i k.cancelling ≡ true)

Settles-refl : (h : Handler) (i : ℕ) → Settles h h i
Settles-refl h i = record { kept = λ e. e; ended = inl }

-- An operation that leaves the flag and the contexts alone.
Settles-same :
    (h k : Handler) (i : ℕ)
    → k.cancelling ≡ h.cancelling
    → (k.session i).closed ≡ (h.session i).closed
    → Settles h k i
Settles-same h k i e c = record { kept = λ m. ap (elem i) e ∙ m; ended = λ d. inl (sym c ∙ d) }

module _ (h : Handler) (j i : ℕ) where
  stop-Settles : Settles h (stop h j) i
  unfolding stop elem
  stop-Settles = elim (Bool-cases (h.session j).closed) [
    | inl c ↦ rw (c, stop) (Settles-refl h i)
    | inr c ↦
        rw (c, stop)
          (record {
            kept = λ m. ground (arith, m);
            ended = λ d. elim (Bool-cases (j == i)) [
              | inl same ↦ inr (ground (arith, same))
              | inr other ↦ inl (rw other at d)
            ];
          })
  ]

  subscribe-Settles : Settles h (subscribe h j).0 i
  unfolding subscribe
  subscribe-Settles = elim (Bool-cases (h.session j).closed) [
    | inl c ↦ rw (c, subscribe) (Settles-refl h i)
    | inr c ↦ rw (c, subscribe) (Settles-same h _ i refl (ground (arith, ==_iff j i)))
  ]

  unsubscribe-Settles : (sub : ℕ) → Settles h (unsubscribe h j sub) i
  unfolding unsubscribe
  unsubscribe-Settles sub = elim (Bool-cases (h.session j).closed) [
    | inl c ↦ rw (c, unsubscribe) (Settles-refl h i)
    | inr c ↦ rw (c, unsubscribe) (Settles-same h _ i refl (ground (arith, ==_iff j i)))
  ]

  broadcast-Settles : (chunk : Bytes) → Settles h (broadcast h j chunk) i
  unfolding broadcast
  broadcast-Settles chunk = Settles-same h _ i refl (ground (arith, ==_iff j i))

  fail-Settles : Settles h (fail h j) i
  unfolding fail
  fail-Settles = Settles-same h _ i refl (ground (arith, ==_iff j i))

  start_output-Settles : (content_type : Bytes) → Settles h (start_output h j content_type) i
  unfolding start_output
  start_output-Settles content_type = Settles-same h _ i refl (ground (arith, ==_iff j i))

  deregister-Settles : (number : Bytes) → Settles h (deregister h number j) i
  unfolding deregister
  deregister-Settles number = elim (Option-cases (lookup number h.sessions)) [
    | inl e ↦ rw (e, deregister) (Settles-refl h i)
    | inr (l, e) ↦
        rw (e, deregister)
          (elim (Bool-cases (l == j)) [
            | inl same ↦ rw same (Settles-same h _ i refl refl)
            | inr other ↦ rw other (Settles-refl h i)
          ])
  ]

stop_old-Settles : (h : Handler) (number : Bytes) (i : ℕ) → Settles h (stop_old h number) i
unfolding stop_old
stop_old-Settles h number i = elim (Option-cases (lookup number h.sessions)) [
  | inl e ↦ rw (e, stop_old) (Settles-refl h i)
  | inr (j, e) ↦ rw (e, stop_old) (stop-Settles h j i)
]

-- An ended session's context is cancelled, or is to be cancelled by the goroutine that ended it.
abbrev pub IsCancelling : World → ℕ → Type 0
IsCancelling w i =
    (w.handler.session i).closed ≡ true
    → (w.cancelled i ≡ true) ⊎ (elem i w.handler.cancelling ≡ true)

abbrev AllCancelling : World → Type 0
AllCancelling w = (i : ℕ) → i < w.handler.session_count → IsCancelling w i

Settles-IsCancelling :
    (w : World) (k : Handler) (i : ℕ)
    → Settles w.handler k i
    → IsCancelling w i
    → IsCancelling (record w { handler = k }) i
Settles-IsCancelling w k i s t d = elim (s.ended d) [
  | inr m ↦ inr m
  | inl c ↦ elim (t c) [ inl done ↦ inl done | inr m ↦ inr (s.kept m) ]
]

elem-erase_other :
    (i j : ℕ) (is : List ℕ) → (j == i) ≡ false → elem i is ≡ true → elem i (erase j is) ≡ true
unfolding elem erase
elem-erase_other i j [] n m = cc
elem-erase_other i j (x ∷ is) n m =
    ground (arith, elem-erase_other i j is n, ==_iff x i, ==_iff x j, ==_iff j i)

-- A new session has not ended, and the others are as they were.
register-closed :
    (h : Handler) (number : Bytes) (stream : Stream) (i : ℕ)
    → ((register h number stream).session i).closed ≡ true
    → ((h.session_count == i) ≡ false) × ((h.session i).closed ≡ true)
unfolding register
register-closed h number stream i d = elim (Bool-cases (h.session_count == i)) [
  | inl new ↦ absurd (no (rw new at d))
  | inr old ↦ (old, rw old at d)
]
  where
    no : false ≡ true → ⊥
    no e = cc

create-AllCancelling :
    (w : World) (number : Bytes) (stream : Stream)
    → AllCancelling w
    → AllCancelling (record w {
      handler = create w.handler number stream;
      run = update w.run w.handler.session_count starting_up;
      cancelled = update w.cancelled w.handler.session_count false;
    })
unfolding create register
create-AllCancelling w number stream t i lt d =
    let h = stop_old w.handler number in
    let count : h.session_count ≡ w.handler.session_count =
      (stop_old-Ages w.handler number).count in
    let (other, ended) = register-closed h number stream i d in
    let old : (w.handler.session_count == i) ≡ false = ap (λ n. n == i) (sym count) ∙ other in
    rw old (
      Settles-IsCancelling w h i (stop_old-Settles w.handler number i)
        (t i (ground (arith, ==_iff w.handler.session_count i))) ended)

-- A step that makes no session and cancels no context.
kept-AllCancelling :
    (w : World) (k : Handler)
    → k.session_count ≡ w.handler.session_count
    → ((i : ℕ) → Settles w.handler k i)
    → AllCancelling w
    → AllCancelling (record w { handler = k })
kept-AllCancelling w k count s t i lt =
    Settles-IsCancelling w k i (s i) (t i (omega (arith, count, lt)))

cancels-AllCancelling :
    (w : World) (j : ℕ)
    → AllCancelling w
    → AllCancelling
        (record w { handler = cancel_called w.handler j; cancelled = update w.cancelled j true })
cancels-AllCancelling w j t i lt d = elim (Bool-cases (j == i)) [
  | inl same ↦ inl (rw same refl)
  | inr other ↦ elim (t i lt d) [
    | inl done ↦ inl (rw other done)
    | inr m ↦ inr (elem-erase_other i j w.handler.cancelling other m)
  ]
]

Step-AllCancelling : {w x : World} → Step w x → AllCancelling w → AllCancelling x
unfolding fail start_output broadcast wake take
Step-AllCancelling {w} (creates number stream _ _) t = create-AllCancelling w number stream t
Step-AllCancelling (finds number stream i _ _) t = t
Step-AllCancelling {w} (joins j _) t =
    kept-AllCancelling w _ (subscribe-Ages w.handler j).count (subscribe-Settles w.handler j) t
Step-AllCancelling (wakes k _ _) t = t
Step-AllCancelling (takes k _) t = t
Step-AllCancelling {w} (cancels j _) t = cancels-AllCancelling w j t
Step-AllCancelling {w} (leaves j sub) t =
    kept-AllCancelling w _ (unsubscribe-Ages w.handler j sub).count
      (λ i. unsubscribe-Settles w.handler j i sub) t
Step-AllCancelling (expires i _) t = t
Step-AllCancelling {w} (deregisters j _ _) t =
    kept-AllCancelling w _ (deregister-session_count w.handler _ j)
      (λ i. deregister-Settles w.handler j i _) t
Step-AllCancelling {w} (stops j _ _) t =
    kept-AllCancelling w _ (stop-Ages w.handler j).count (stop-Settles w.handler j) t
Step-AllCancelling {w} (fails j _) t = kept-AllCancelling w _ refl (fail-Settles w.handler j) t
Step-AllCancelling {w} (starts j content_type _) t =
    kept-AllCancelling w _ refl (λ i. start_output-Settles w.handler j i content_type) t
Step-AllCancelling {w} (broadcasts j chunk _ _ _) t =
    kept-AllCancelling w _ refl (λ i. broadcast-Settles w.handler j i chunk) t
Step-AllCancelling (finishes j _) t = t
Step-AllCancelling {w} (takes_out j _ _) t =
    kept-AllCancelling w _ (deregister-session_count w.handler _ j)
      (λ i. deregister-Settles w.handler j i _) t
Step-AllCancelling {w} (ends j _) t =
    kept-AllCancelling w _ (stop-Ages w.handler j).count (stop-Settles w.handler j) t

Reach-AllCancelling : {v w : World} → IsStart v → Reach v w → AllCancelling w
Reach-AllCancelling s here = λ i lt. absurd (omega (arith, s.none_given))
Reach-AllCancelling s (next r st) = Step-AllCancelling st (Reach-AllCancelling s r)

-- In every state that the goroutines can reach: a session that has ended has no subscribers and no
-- timer left, and its context is cancelled, or the goroutine that ended it is about to cancel it; and a
-- session that has not ended and has no subscribers has its idle timer set.
pub Reach-IsSettled :
    {v w : World} (i : ℕ)
    → IsStart v
    → Reach v w
    → i < w.handler.session_count
    → IsTidy (w.handler.session i) × IsCancelling w i
Reach-IsSettled i s r lt = (Reach-AllTidy s r i lt, Reach-AllCancelling s r i lt)
