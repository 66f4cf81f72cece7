-- ===== src/StreamProxy/Handler/Steps/Delivery.antt =====
-- What a session has put out and what a client has got, over any interleaving of the goroutines.
use iptv2hdhr.Base.{
  ℕ, suc, ◌<◌, ◌≡◌, ◌≢◌, refl, sym, ap, ◌∙◌, inl, inr, Option, none, some, [], ◌++◌, arith, ◌==◌,
  ==_iff, Bytes, Bool-cases, lookup,
}
use iptv2hdhr.Lineup.{Stream}
use iptv2hdhr.StreamProxy.Handler.{
  Handler, update, create, joinable, register, stop_old, take, fail, start_output, broadcast, wake,
}
use iptv2hdhr.StreamProxy.Handler.Registered.{
  IsRegistered, stop_old-Ages, subscribe-Ages, unsubscribe-Ages, stop-Ages,
  deregister-session_count,
}
use iptv2hdhr.StreamProxy.Handler.Steps.{
  World, RunPc, not_made, starting_up, pumping, leaving, taken_out, run_over, about_to_stop, Step,
  creates, finds, joins, wakes, takes, cancels, leaves, expires, deregisters, stops, fails, starts,
  broadcasts, finishes, takes_out, ends, Reach, here, next, IsStart,
}
use iptv2hdhr.StreamProxy.Subscriber.{take_pending}
use iptv2hdhr.StreamProxy.Handler.Steps.Registry.{Reach-IsRegistered}
use iptv2hdhr.StreamProxy.Handler.Steps.Deliveries.{
  Delivered, AllDelivered, Quiet-AllDelivered, stop_old-Quiet, stop-Quiet, unsubscribe-Quiet,
  fail-Quiet, cancelling-Quiet, start_output-Quiet, wake-Quiet, deregister-Quiet,
}
use iptv2hdhr.StreamProxy.Handler.Steps.Loud.{register-AllDelivered, subscribe-AllDelivered}
use iptv2hdhr.StreamProxy.Handler.Steps.Chunks.{broadcast-AllDelivered, take-AllDelivered}

-- What each session has put out with one more step, and what each client has got.
abbrev pub step_output : {w x : World} → Step w x → (ℕ → Bytes) → ℕ → Bytes
step_output (broadcasts i chunk _ _ _) output = update output i (output i ++ chunk)
step_output _ output = output

abbrev pub step_got : {w x : World} → Step w x → (ℕ → Bytes) → ℕ → Bytes
step_got {w} (takes k _) got = update got k (got k ++ (take_pending (w.handler.sub k)).1)
step_got _ got = got

unfoldable pub session_output : {v w : World} → Reach v w → ℕ → Bytes
session_output here = λ i. []
session_output (next r st) = step_output st (session_output r)

unfoldable pub client_got : {v w : World} → Reach v w → ℕ → Bytes
client_got here = λ k. []
client_got (next r st) = step_got st (client_got r)

-- A session that is joined or whose goroutine runs has been made.
pub record IsMadeBelow (count : ℕ) (joining : Option ℕ) (run : ℕ → RunPc) : Type 0 where
  pub joined : (i : ℕ) → joining ≡ some i → i < count
  pub running : (i : ℕ) → run i ≢ not_made → i < count

abbrev pub IsMade : World → Type 0
IsMade w = IsMadeBelow w.handler.session_count w.joining w.run

joinable-lookup :
    (h : Handler) (number : Bytes) (stream : Stream) (i : ℕ)
    → joinable h number stream ≡ some i
    → lookup number h.sessions ≡ some i
unfolding joinable
joinable-lookup h number stream i e = ground arith

same-IsMade :
    {count count' : ℕ} {joining : Option ℕ} {run : ℕ → RunPc}
    → count' ≡ count
    → IsMadeBelow count joining run
    → IsMadeBelow count' joining run
same-IsMade e m = record {
  joined = λ i at. omega (arith, e, m.joined i at);
  running = λ i at. omega (arith, e, m.running i at);
}

-- A goroutine that has run goes on.
own-IsMade :
    {count count' : ℕ} {joining : Option ℕ} (run : ℕ → RunPc) (j : ℕ) (pc : RunPc)
    → count' ≡ count
    → run j ≢ not_made
    → IsMadeBelow count joining run
    → IsMadeBelow count' joining (update run j pc)
own-IsMade run j pc e made m = record {
  joined = λ i at. omega (arith, e, m.joined i at);
  running = λ i at. elim (Bool-cases (j == i)) [
    | inl same ↦ omega (arith, e, m.running j made, (==_iff j i).0 same)
    | inr other ↦ omega (arith, e, m.running i (rw other at at))
  ];
}

new-IsMade :
    {count count' : ℕ} {joining : Option ℕ} (run : ℕ → RunPc) (pc : RunPc)
    → count' ≡ suc count
    → IsMadeBelow count joining run
    → IsMadeBelow count' joining (update run count pc)
new-IsMade {count} run pc e m = record {
  joined = λ i at. omega (arith, e, m.joined i at);
  running = λ i at. elim (Bool-cases (count == i)) [
    | inl same ↦ omega (arith, e, (==_iff count i).0 same)
    | inr other ↦ omega (arith, e, m.running i (rw other at at))
  ];
}

Step-IsMade :
    {w x : World} → Step w x → IsRegistered w.handler (about_to_stop w) → IsMade w → IsMade x
unfolding create register fail start_output broadcast wake take
Step-IsMade {w} (creates number stream _ _) r m =
    new-IsMade w.run starting_up (ap suc (stop_old-Ages w.handler number).count) m
Step-IsMade {w} (finds number stream j _ e) r m = record {
  joined = λ i at.
      omega (
        arith,
        some_eq j i at,
        (r.points number j (joinable-lookup w.handler number stream j e)).0,
      );
  running = m.running;
}
  where
    some_eq : (a b : ℕ) → some a ≡ some b → a ≡ b
    some_eq a b e = cc
Step-IsMade {w} (joins j _) r m =
    let n = same-IsMade (subscribe-Ages w.handler j).count m in
    record { joined = λ i at. cc; running = n.running }
Step-IsMade (wakes k _ _) r m = m
Step-IsMade (takes k _) r m = m
Step-IsMade {w} (leaves j sub) r m = same-IsMade (unsubscribe-Ages w.handler j sub).count m
Step-IsMade (cancels i _) r m = m
Step-IsMade (expires j _) r m = m
Step-IsMade {w} (deregisters j _ _) r m =
    same-IsMade (deregister-session_count w.handler (w.handler.session j).number j) m
Step-IsMade {w} (stops j _ _) r m = same-IsMade (stop-Ages w.handler j).count m
Step-IsMade {w} (fails j at) r m = own-IsMade w.run j leaving refl (λ e. cc) m
Step-IsMade {w} (starts j _ at) r m = own-IsMade w.run j pumping refl (λ e. cc) m
Step-IsMade (broadcasts j chunk _ _ _) r m = m
Step-IsMade {w} (finishes j at) r m = own-IsMade w.run j leaving refl (λ e. cc) m
Step-IsMade {w} (takes_out j _ at) r m =
    own-IsMade w.run j taken_out (deregister-session_count w.handler (w.handler.session j).number j)
      (λ e. cc) m
Step-IsMade {w} (ends j at) r m =
    own-IsMade w.run j run_over (stop-Ages w.handler j).count (λ e. cc) m

pub Reach-IsMade : {v w : World} → IsStart v → Reach v w → IsMade w
Reach-IsMade {v} s here = record {
  joined = λ i at. absurd (cc_none i (sym s.none_joining ∙ at));
  running = λ i at. absurd (at (s.none_run i));
}
  where
    cc_none : (i : ℕ) → none ≡ some i → ⊥
    cc_none i e = cc
Reach-IsMade s (next r st) = Step-IsMade st (Reach-IsRegistered s r) (Reach-IsMade s r)

Step-AllDelivered :
    {w x : World} {output got : ℕ → Bytes} (st : Step w x)
    → IsMade w
    → AllDelivered w.handler output got
    → AllDelivered x.handler (step_output st output) (step_got st got)
unfolding create take_pending
Step-AllDelivered {w} (creates number stream _ _) m a =
    register-AllDelivered (stop_old w.handler number) number stream
      (Quiet-AllDelivered (stop_old-Quiet w.handler number) a)
Step-AllDelivered (finds number stream j _ _) m a = a
Step-AllDelivered {w} (joins j at) m a = subscribe-AllDelivered w.handler j (m.joined j at) a
Step-AllDelivered {w} (wakes k _ _) m a = Quiet-AllDelivered (wake-Quiet w.handler k) a
Step-AllDelivered {w} (takes k lt) m a = take-AllDelivered w.handler k lt a
Step-AllDelivered {w} (leaves j sub) m a = Quiet-AllDelivered (unsubscribe-Quiet w.handler j sub) a
Step-AllDelivered {w} (cancels i _) m a = Quiet-AllDelivered (cancelling-Quiet w.handler _) a
Step-AllDelivered (expires j _) m a = a
Step-AllDelivered {w} (deregisters j _ _) m a =
    Quiet-AllDelivered (deregister-Quiet w.handler j _) a
Step-AllDelivered {w} (stops j _ _) m a = Quiet-AllDelivered (stop-Quiet w.handler j) a
Step-AllDelivered {w} (fails j _) m a = Quiet-AllDelivered (fail-Quiet w.handler j) a
Step-AllDelivered {w} (starts j content_type _) m a =
    Quiet-AllDelivered (start_output-Quiet w.handler j content_type) a
Step-AllDelivered {w} (broadcasts j chunk at _ fits) m a =
    broadcast-AllDelivered w.handler j chunk (m.running j (λ e. cc)) (omega (arith, fits)) a
Step-AllDelivered (finishes j _) m a = a
Step-AllDelivered {w} (takes_out j _ _) m a = Quiet-AllDelivered (deregister-Quiet w.handler j _) a
Step-AllDelivered {w} (ends j _) m a = Quiet-AllDelivered (stop-Quiet w.handler j) a

pub Reach-AllDelivered :
    {v w : World}
    → IsStart v
    → (r : Reach v w) → AllDelivered w.handler (session_output r) (client_got r)
unfolding session_output client_got
Reach-AllDelivered s here = record {
  clients = λ k lt. absurd (omega (arith, s.no_clients, lt));
  known = λ j k lt. absurd (omega (arith, s.none_given));
  distinct = λ j lt. absurd (omega (arith, s.none_given));
  prebuffers = λ j lt. absurd (omega (arith, s.none_given));
  no_output = λ j le. refl;
  none_got = λ k le. refl;
}
Reach-AllDelivered s (next r st) = Step-AllDelivered st (Reach-IsMade s r) (Reach-AllDelivered s r)

-- Whatever the scheduler, the upstreams and the clients do: a client is one of a session, and has seen
-- a part of that session's output that starts on a packet boundary, without a gap and, as long as it
-- is subscribed, to the end. Each byte of it has been taken by the client, in order, or was skipped, in
-- whole packets, or is still queued; what is queued is the end of what it has seen, and is bounded.
pub Reach-Delivered :
    {v w : World} (k : ℕ)
    → IsStart v
    → (r : Reach v w) → k < w.handler.sub_count
    → Delivered w.handler (session_output r) (client_got r) k
Reach-Delivered k s r lt = (Reach-AllDelivered s r).clients k lt
