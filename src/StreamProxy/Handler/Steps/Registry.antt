-- ===== src/StreamProxy/Handler/Steps/Registry.antt =====
-- The registry and the live sessions: at most one live session for each channel.
use iptv2hdhr.Base.{
  ℕ, ◌<◌, ◌≡◌, sym, ap, ◌∙◌, true, false, inl, inr, some, List, [], ◌∷◌, arith, ◌==◌, ==_iff, Bytes,
  lookup,
}
use iptv2hdhr.StreamProxy.Handler.{update}
use iptv2hdhr.StreamProxy.Handler.Registered.{
  IsRegistered, Ages-IsRegistered, weaken-IsRegistered, create-IsRegistered, stop-IsRegistered,
  deregister-IsRegistered, wake-Ages, cancelling-Ages, take-Ages, subscribe-Ages, unsubscribe-Ages,
  broadcast-Ages, fail-Ages, start_output-Ages,
}
use iptv2hdhr.StreamProxy.Handler.Steps.{
  World, RunPc, leaving, pumping, taken_out, is_taken_out, about_to_stop, elem, erase, Step,
  creates, finds, joins, wakes, takes, cancels, leaves, expires, finishes, deregisters, stops,
  takes_out, ends, broadcasts, fails, starts, Reach, here, next, IsStart,
}

elem-erase :
    (i j : ℕ) (xs : List ℕ) → (i == j) ≡ false → elem j xs ≡ true → elem j (erase i xs) ≡ true
unfolding elem erase
elem-erase i j [] h e = e
elem-erase i j (x ∷ xs) h e = ground (arith, elem-erase i j xs h)

-- The goroutine of `i` moves on from a place where it is not about to stop the session.
moves_on :
    (w : World) (i : ℕ) (pc : RunPc)
    → is_taken_out (w.run i) ≡ false
    → (j : ℕ) → about_to_stop w j ≡ true
    → about_to_stop (record w { run = update w.run i pc }) j ≡ true
moves_on w i pc n j e = ground arith

more_stopping :
    (w : World) (i j : ℕ)
    → about_to_stop w j ≡ true
    → about_to_stop (record w { stopping = i ∷ w.stopping }) j ≡ true
unfolding elem
more_stopping w i j e = ground arith

elem_or_taken :
    (w : World) (i j : ℕ)
    → (i == j) ≡ false
    → about_to_stop w j ≡ true
    → about_to_stop (record w { stopping = erase i w.stopping }) j ≡ true
elem_or_taken w i j n e = ground (arith, elem-erase i j w.stopping)

-- Every step of every goroutine keeps the registry in order.
pub Step-IsRegistered :
    {w x : World}
    → Step w x
    → IsRegistered w.handler (about_to_stop w)
    → IsRegistered x.handler (about_to_stop x)
Step-IsRegistered {w} (creates number stream _ _) r =
    create-IsRegistered w.handler number stream (λ j n e. ground arith) r
Step-IsRegistered (finds number stream i _ _) r = r
Step-IsRegistered {w} (joins i _) r = Ages-IsRegistered (subscribe-Ages w.handler i) r
Step-IsRegistered {w} (wakes k _ _) r = Ages-IsRegistered (wake-Ages w.handler k) r
Step-IsRegistered {w} (takes k _) r = Ages-IsRegistered (take-Ages w.handler k) r
Step-IsRegistered {w} (leaves i sub) r = Ages-IsRegistered (unsubscribe-Ages w.handler i sub) r
Step-IsRegistered {w} (cancels i _) r = Ages-IsRegistered (cancelling-Ages w.handler i _) r
Step-IsRegistered (expires i _) r = r
Step-IsRegistered {w} (deregisters i _ _) r =
    deregister-IsRegistered w.handler i (unfold elem in ground (arith, ==_iff i i))
      (weaken-IsRegistered (λ j o e. more_stopping w i j e) r)
Step-IsRegistered {w} (stops i _ _) r =
    stop-IsRegistered w.handler i (λ j n e. elem_or_taken w i j n e) r
Step-IsRegistered {w} (fails i at) r =
    Ages-IsRegistered (fail-Ages w.handler i)
      (weaken-IsRegistered (λ j o e. moves_on w i leaving (ap is_taken_out at) j e) r)
Step-IsRegistered {w} (starts i content_type at) r =
    Ages-IsRegistered (start_output-Ages w.handler i content_type)
      (weaken-IsRegistered (λ j o e. moves_on w i pumping (ap is_taken_out at) j e) r)
Step-IsRegistered {w} (broadcasts i chunk _ _ _) r =
    Ages-IsRegistered (broadcast-Ages w.handler i chunk) r
Step-IsRegistered {w} (finishes i at) r =
    weaken-IsRegistered (λ j o e. moves_on w i leaving (ap is_taken_out at) j e) r
Step-IsRegistered {w} (takes_out i _ at) r =
    deregister-IsRegistered w.handler i (ground (arith, ==_iff i i))
      (weaken-IsRegistered (λ j o e. moves_on w i taken_out (ap is_taken_out at) j e) r)
Step-IsRegistered {w} (ends i at) r = stop-IsRegistered w.handler i (λ j n e. ground arith) r

start-IsRegistered : (w : World) → IsStart w → IsRegistered w.handler (about_to_stop w)
start-IsRegistered w s = record {
  points = λ n i e. absurd (none_registered n i (rw s.no_sessions at e));
  live = λ i lt o. absurd (omega (arith, s.none_given));
}
  where
    none_registered : (n : Bytes) (i : ℕ) → lookup n [] ≡ some i → ⊥
    none_registered n i e = unfold lookup in cc

pub Reach-IsRegistered :
    {v w : World} → IsStart v → Reach v w → IsRegistered w.handler (about_to_stop w)
Reach-IsRegistered {v} s here = start-IsRegistered v s
Reach-IsRegistered s (next r st) = Step-IsRegistered st (Reach-IsRegistered s r)

-- Whatever the scheduler, the clients and the upstreams do, two sessions of one channel that have
-- both not ended are the same session, unless a goroutine is about to stop one of them: an upstream
-- sees at most one lasting connection for a channel.
pub one_live_session :
    {v w : World} (i j : ℕ)
    → IsStart v
    → Reach v w
    → i < w.handler.session_count
    → j < w.handler.session_count
    → (w.handler.session i).number ≡ (w.handler.session j).number
    → (w.handler.session i).closed ≡ false
    → (w.handler.session j).closed ≡ false
    → about_to_stop w i ≡ false
    → about_to_stop w j ≡ false
    → i ≡ j
one_live_session {v} {w} i j s r li lj same oi oj ni nj = some_eq i j (
    sym (registered i li oi ni)
    ∙ ap (λ n. lookup n w.handler.sessions) same
    ∙ registered j lj oj nj)
  where
    registered :
        (k : ℕ)
        → k < w.handler.session_count
        → (w.handler.session k).closed ≡ false
        → about_to_stop w k ≡ false
        → lookup (w.handler.session k).number w.handler.sessions ≡ some k
    registered k lt o n = elim ((Reach-IsRegistered s r).live k lt o) [
      | inl e ↦ e
      | inr e ↦ ground arith
    ]

    some_eq : (a b : ℕ) → some a ≡ some b → a ≡ b
    some_eq a b e = cc
