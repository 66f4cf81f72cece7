-- ===== src/StreamProxy/Handler/Steps/Over.antt =====
-- The ends of sessions among their goroutines: what a goroutine leaves behind.
use iptv2hdhr.Base.{
  ℕ, ◌<◌, ◌≡◌, ◌≢◌, refl, ap, subst, ◌∙◌, true, false, ◌⊎◌, inl, inr, some, [], arith, ◌==◌, ==_iff,
  Bytes, lookup, Bool-cases,
}
use iptv2hdhr.StreamProxy.Handler.{
  update, create, register, fail, start_output, broadcast, wake, take,
}
use iptv2hdhr.StreamProxy.Handler.Registered.{
  stop_old-Ages, subscribe-Ages, unsubscribe-Ages, stop-Ages, deregister-session_count,
}
use iptv2hdhr.StreamProxy.Handler.Steps.{
  World, elem, RunPc, not_made, starting_up, pumping, leaving, taken_out, run_over, Step, creates,
  finds, joins, wakes, takes, cancels, leaves, expires, deregisters, stops, fails, starts,
  broadcasts, finishes, takes_out, ends, Reach, here, next, IsStart,
}
use iptv2hdhr.StreamProxy.Handler.Steps.Registry.{Reach-IsRegistered}
use iptv2hdhr.StreamProxy.Handler.Steps.Places.{IsAt, is_serving, is_out}
use iptv2hdhr.StreamProxy.Handler.Steps.Runs.{Reach-AllAt}
use iptv2hdhr.StreamProxy.Handler.Steps.Sessions.{IsTidy}
use iptv2hdhr.StreamProxy.Handler.Steps.Cancels.{IsCancelling, Reach-IsSettled}

-- Another goroutine moves on.
others_over :
    (run : ℕ → RunPc) (j i : ℕ) (pc : RunPc)
    → run j ≢ run_over
    → run i ≡ run_over
    → update run j pc i ≡ run_over
others_over run j i pc n o = elim (Bool-cases (j == i)) [
  | inl same ↦ absurd (n (ap run ((==_iff j i).0 same) ∙ o))
  | inr other ↦ rw other o
]

-- A goroutine that is past its `stop` stays so, and its session stays made.
Step-over :
    {w x : World} (i : ℕ)
    → Step w x
    → i < w.handler.session_count
    → w.run i ≡ run_over
    → (i < x.handler.session_count) × (x.run i ≡ run_over)
unfolding create register fail start_output broadcast wake take
Step-over {w} i (creates number stream _ _) lt o = (
  ground (arith, (stop_old-Ages w.handler number).count),
  ground (arith, ==_iff w.handler.session_count i),
)
Step-over i (finds number stream j _ _) lt o = (lt, o)
Step-over {w} i (joins j _) lt o = (omega (arith, (subscribe-Ages w.handler j).count, lt), o)
Step-over i (wakes k _ _) lt o = (lt, o)
Step-over i (takes k _) lt o = (lt, o)
Step-over {w} i (leaves j sub) lt o =
    (omega (arith, (unsubscribe-Ages w.handler j sub).count, lt), o)
Step-over i (cancels k _) lt o = (lt, o)
Step-over i (expires j _) lt o = (lt, o)
Step-over {w} i (deregisters j _ _) lt o =
    (omega (arith, deregister-session_count w.handler (w.handler.session j).number j, lt), o)
Step-over {w} i (stops j _ _) lt o = (omega (arith, (stop-Ages w.handler j).count, lt), o)
Step-over {w} i (fails j at) lt o = (lt, others_over w.run j i leaving (λ e. cc) o)
Step-over {w} i (starts j content_type at) lt o = (lt, others_over w.run j i pumping (λ e. cc) o)
Step-over i (broadcasts j chunk _ _ _) lt o = (lt, o)
Step-over {w} i (finishes j at) lt o = (lt, others_over w.run j i leaving (λ e. cc) o)
Step-over {w} i (takes_out j _ at) lt o = (
  omega (arith, deregister-session_count w.handler (w.handler.session j).number j, lt),
  others_over w.run j i taken_out (λ e. cc) o,
)
Step-over {w} i (ends j at) lt o =
    (omega (arith, (stop-Ages w.handler j).count, lt), others_over w.run j i run_over (λ e. cc) o)

-- What is left of a session, whose goroutine is past its `stop`.
pub record IsOver (w : World) (i : ℕ) : Type 0 where
  pub ready : (w.handler.session i).ready ≡ true
  pub closed : (w.handler.session i).closed ≡ true
  pub cancelled : (w.cancelled i ≡ true) ⊎ (elem i w.handler.cancelling ≡ true)
  pub no_timer : (w.handler.session i).idle_timer ≡ false
  pub no_subs : (w.handler.session i).subs ≡ []
  pub unregistered : lookup (w.handler.session i).number w.handler.sessions ≢ some i

IsAt-IsOver :
    (w : World) (i : ℕ)
    → IsTidy (w.handler.session i) × IsCancelling w i
    → IsAt w.handler i run_over
    → IsOver w i
IsAt-IsOver w i (t, c) a =
    let closed = a.closed refl in
    let (no_subs, no_timer) = t.ended closed in
    record {
      ready = a.ready;
      closed = closed;
      cancelled = c closed;
      no_timer = no_timer;
      no_subs = no_subs;
      unregistered = a.unregistered refl;
    }

Reach-trans : {u v w : World} → Reach u v → Reach v w → Reach u w
Reach-trans r here = r
Reach-trans r (next q st) = next (Reach-trans r q) st

Reach-over :
    {w x : World} (i : ℕ)
    → Reach w x
    → i < w.handler.session_count
    → w.run i ≡ run_over
    → (i < x.handler.session_count) × (x.run i ≡ run_over)
Reach-over i here lt o = (lt, o)
Reach-over i (next r st) lt o = let (lt', o') = Reach-over i r lt o in Step-over i st lt' o'

-- However the goroutines are interleaved: once the goroutine of a session is past its `stop`, `ready` is
-- closed, the session has ended, without a timer and without subscribers, its context is cancelled or
-- the goroutine that ended it is about to cancel it, and it is not registered; and all this stays so for
-- good, whatever steps are taken from then on.
pub Reach-IsOver :
    {v w x : World} (i : ℕ)
    → IsStart v
    → Reach v w
    → i < w.handler.session_count
    → w.run i ≡ run_over
    → Reach w x
    → IsOver x i
Reach-IsOver {v} {w} {x} i s r lt o q =
    let (lt', o') = Reach-over i q lt o in
    let all = Reach-trans r q in
    IsAt-IsOver x i (Reach-IsSettled i s all lt')
      (subst (IsAt x.handler i) o' (Reach-AllAt s all i lt'))

at_work :
    (pc : RunPc) → pc ≢ not_made → (is_out pc ≡ true → ⊥) → (is_serving pc ≡ true) ⊎ (pc ≡ leaving)
at_work not_made m n = absurd (m refl)
at_work starting_up m n = inl refl
at_work pumping m n = inl refl
at_work leaving m n = inr refl
at_work taken_out m n = absurd (n refl)
at_work run_over m n = absurd (n refl)

-- However the goroutines are interleaved, a session that is found in the registry has a goroutine that
-- starts it up, pumps it, or is about to take it out: none is left there without one.
pub registered-runs :
    {v w : World} (number : Bytes) (i : ℕ)
    → IsStart v
    → Reach v w
    → lookup number w.handler.sessions ≡ some i
    → (is_serving (w.run i) ≡ true) ⊎ (w.run i ≡ leaving)
registered-runs {v} {w} number i s r e =
    let (lt, same) = (Reach-IsRegistered s r).points number i e in
    let a = Reach-AllAt s r i lt in
    at_work (w.run i) a.made
      (λ out. a.unregistered out (ap (λ n. lookup n w.handler.sessions) same ∙ e))
