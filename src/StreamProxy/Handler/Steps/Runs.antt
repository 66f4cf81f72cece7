-- ===== src/StreamProxy/Handler/Steps/Runs.antt =====
-- The goroutine of each session runs from its start to its end, whatever the others do.
use iptv2hdhr.Base.{
  ℕ, ◌<◌, ◌≡◌, refl, ap, subst, ◌∙◌, false, inl, inr, arith, ◌==◌, ==_iff, Bytes, Bool-cases,
}
use iptv2hdhr.Lineup.{Stream}
use iptv2hdhr.StreamProxy.Handler.{Handler, update, create, register, stop_old, fail, start_output}
use iptv2hdhr.StreamProxy.Handler.Steps.{
  World, RunPc, starting_up, pumping, leaving, taken_out, run_over, Step, creates, finds, joins,
  wakes, takes, cancels, leaves, expires, deregisters, stops, fails, starts, broadcasts, finishes,
  takes_out, ends, Reach, here, next, IsStart,
}
use iptv2hdhr.StreamProxy.Handler.Registered.{
  stop_old-Ages, wake-Ages, take-Ages, subscribe-Ages, unsubscribe-Ages, stop-Ages, broadcast-Ages,
  deregister-session_count,
}
use iptv2hdhr.StreamProxy.Handler.Steps.Places.{
  IsAt, Respects, Respects-IsAt, own_step-IsAt, others-Respects, new-IsAt, stop_old-Respects,
  register-Respects, wake-Respects, take-Respects, cancelling-Respects, subscribe-Respects,
  unsubscribe-Respects, stop-Respects, broadcast-Respects, deregister-Respects, fail-IsAt,
  start_output-IsAt, finish-IsAt, take_out-IsAt, end-IsAt, Respects-refl,
}

abbrev pub AllAt : World → Type 0
AllAt w = (i : ℕ) → i < w.handler.session_count → IsAt w.handler i (w.run i)

-- A step that no goroutine of a session takes.
kept-AllAt :
    (w : World) (k : Handler)
    → k.session_count ≡ w.handler.session_count
    → ((i : ℕ) → Respects w.handler k i)
    → AllAt w
    → AllAt (record w { handler = k })
kept-AllAt w k count r all i lt = Respects-IsAt (r i) (all i (omega (arith, count, lt)))

-- A step of the goroutine of `j`.
own-AllAt :
    (w : World) (k : Handler) (j : ℕ) (pc : RunPc)
    → k.session_count ≡ w.handler.session_count
    → ((i : ℕ) → (j == i) ≡ false → Respects w.handler k i)
    → (IsAt w.handler j (w.run j) → IsAt k j pc)
    → AllAt w
    → AllAt (record w { handler = k; run = update w.run j pc })
own-AllAt w k j pc count others own all i lt =
    own_step-IsAt w.handler k j i w.run pc (others i) own (all i (omega (arith, count, lt)))

-- The new session starts up, and the others go on.
create-AllAt :
    (w : World) (number : Bytes) (stream : Stream)
    → AllAt w
    → AllAt (record w {
      handler = create w.handler number stream;
      run = update w.run w.handler.session_count starting_up;
    })
unfolding create register
create-AllAt w number stream all i lt =
    let h = stop_old w.handler number in
    let count : h.session_count ≡ w.handler.session_count =
      (stop_old-Ages w.handler number).count in
    elim (Bool-cases (w.handler.session_count == i)) [
      | inl new ↦
          let e : h.session_count ≡ i = count ∙ (==_iff _ i).0 new in
          rw new (
            subst (λ n. IsAt (register h number stream) n starting_up) e (new-IsAt h number stream))
      | inr old ↦ rw old (
          Respects-IsAt (register-Respects h number stream i (ap (λ n. n == i) count ∙ old)) (
            Respects-IsAt (stop_old-Respects w.handler number i)
              (all i (ground (arith, ==_iff w.handler.session_count i)))))
    ]

Step-AllAt : {w x : World} → Step w x → AllAt w → AllAt x
unfolding fail start_output
Step-AllAt {w} (creates number stream _ _) all = create-AllAt w number stream all
Step-AllAt (finds number stream j _ _) all = all
Step-AllAt {w} (joins j _) all =
    kept-AllAt w _ (subscribe-Ages w.handler j).count (subscribe-Respects w.handler j) all
Step-AllAt {w} (wakes k _ _) all =
    kept-AllAt w _ (wake-Ages w.handler k).count (wake-Respects w.handler k) all
Step-AllAt {w} (takes k _) all =
    kept-AllAt w _ (take-Ages w.handler k).count (take-Respects w.handler k) all
Step-AllAt {w} (leaves j sub) all =
    kept-AllAt w _ (unsubscribe-Ages w.handler j sub).count
      (λ i. unsubscribe-Respects w.handler j i sub) all
Step-AllAt {w} (cancels j _) all =
    kept-AllAt w _ refl (λ i. cancelling-Respects w.handler j i _) all
Step-AllAt (expires j _) all = all
Step-AllAt {w} (deregisters j _ _) all =
    kept-AllAt w _ (deregister-session_count w.handler _ j)
      (λ i. deregister-Respects w.handler j i _) all
Step-AllAt {w} (stops j _ _) all =
    kept-AllAt w _ (stop-Ages w.handler j).count (stop-Respects w.handler j) all
Step-AllAt {w} (fails j at) all =
    own-AllAt w (fail w.handler j) j leaving refl (λ i. others-Respects w.handler _ j _ i refl refl)
      (λ a. fail-IsAt w.handler j (w.run j) a at) all
Step-AllAt {w} (starts j content_type at) all =
    own-AllAt w (start_output w.handler j content_type) j pumping refl
      (λ i. others-Respects w.handler _ j _ i refl refl)
      (λ a. start_output-IsAt w.handler j (w.run j) a content_type at) all
Step-AllAt {w} (broadcasts j chunk _ _ _) all =
    kept-AllAt w _ (broadcast-Ages w.handler j chunk).count
      (λ i. broadcast-Respects w.handler j i chunk) all
Step-AllAt {w} (finishes j at) all =
    own-AllAt w w.handler j leaving refl (λ i _. Respects-refl w.handler i)
      (λ a. finish-IsAt w.handler j (w.run j) a at) all
Step-AllAt {w} (takes_out j _ at) all =
    own-AllAt w _ j taken_out (deregister-session_count w.handler _ j)
      (λ i _. deregister-Respects w.handler j i _) (λ a. take_out-IsAt w.handler j (w.run j) a at)
      all
Step-AllAt {w} (ends j at) all =
    own-AllAt w _ j run_over (stop-Ages w.handler j).count (λ i _. stop-Respects w.handler j i)
      (λ a. end-IsAt w.handler j (w.run j) a at) all

-- In every state that the goroutines can reach, and for each session that was made: `ready` is closed
-- exactly if the goroutine of the session is past its startup, which closes it, so that it is never
-- closed twice; a session that starts up or is pumped has no error; one that its goroutine has
-- taken out of the registry is not registered again; and one whose goroutine has returned has ended.
pub Reach-AllAt : {v w : World} → IsStart v → Reach v w → AllAt w
Reach-AllAt s here = λ i lt. absurd (omega (arith, s.none_given))
Reach-AllAt s (next r st) = Step-AllAt st (Reach-AllAt s r)
