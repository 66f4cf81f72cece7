-- ===== src/StreamProxy/Handler/Steps/Queues.antt =====
-- The queue of a client is open as long as the client is subscribed.
use iptv2hdhr.Base.{
  ℕ, ◌<◌, ◌≡◌, refl, sym, ap, subst, ◌∙◌, false, inl, inr, some, List, [], ◌∷◌, arith, ◌==◌, ==_iff,
  Bytes, Bool-cases, Option-cases, lookup,
}
use iptv2hdhr.Lineup.{Stream}
use iptv2hdhr.StreamProxy.Subscriber.{Subscriber, new_subscriber, close, take_pending}
use iptv2hdhr.StreamProxy.Subscriber.Backlog.{push_lem}
use iptv2hdhr.StreamProxy.Session.{Session}
use iptv2hdhr.StreamProxy.Handler.{
  Handler, update, create, register, stop_old, subscribe, unsubscribe, deregister, stop, broadcast,
  close_all, fail, start_output, wake, take,
}
use iptv2hdhr.StreamProxy.Handler.Clients.{IsIn, Distinct, broadcast-push}
use iptv2hdhr.StreamProxy.Handler.Steps.{
  World, Step, creates, finds, joins, wakes, takes, cancels, leaves, expires, deregisters, stops,
  fails, starts, broadcasts, finishes, takes_out, ends, Reach, here, next, IsStart,
}
use iptv2hdhr.StreamProxy.Handler.Steps.Deliveries.{
  AllDelivered, Quiet, Quiet-AllDelivered, stop_old-Quiet, unsubscribe-Quiet, deregister-Quiet,
  fail-Quiet, start_output-Quiet,
}
use iptv2hdhr.StreamProxy.Handler.Steps.Chunks.{IsIn-cases, broadcast-subs}
use iptv2hdhr.StreamProxy.Handler.Steps.Registry.{Reach-IsRegistered}
use iptv2hdhr.StreamProxy.Handler.Registered.{deregister-kept}
use iptv2hdhr.StreamProxy.Handler.Steps.Delivery.{IsMade, Reach-IsMade, Reach-AllDelivered}

-- The queues of subscribed clients are not closed.
abbrev pub AllOpen : Handler → Type 0
AllOpen h = (j k : ℕ) → j < h.session_count → IsIn k (h.session j).subs → (h.sub k).closed ≡ false

-- A client is subscribed to one session.
abbrev pub OneSession : Handler → Type 0
OneSession h =
    (i j k : ℕ)
    → i < h.session_count
    → j < h.session_count
    → IsIn k (h.session i).subs
    → IsIn k (h.session j).subs
    → i ≡ j

pub AllDelivered-OneSession :
    {h : Handler} {output got : ℕ → Bytes} → AllDelivered h output got → OneSession h
AllDelivered-OneSession a i j k li lj mi mj =
    let d = a.clients k (a.known i k li mi) in (d.current i li mi).0 ∙ sym (d.current j lj mj).0

pub close_all_ne :
    (is : List ℕ) (f : ℕ → Subscriber) (k : ℕ) → (IsIn k is → ⊥) → close_all is f k ≡ f k
unfolding close_all
close_all_ne [] f k n = refl
close_all_ne (i ∷ is) f k n =
    close_all_ne is (update f i (close (f i))) k (λ m. n (inr m))
    ∙ ground (arith, λ (e : k ≡ i). n (inl e))

-- An operation that closes no queue, and may end subscriptions.
Quiet-AllOpen :
    {h k : Handler}
    → Quiet h k
    → ((n : ℕ) → (k.sub n).closed ≡ (h.sub n).closed)
    → AllOpen h
    → AllOpen k
Quiet-AllOpen q c o j n lt m = c n ∙ o j n (omega (arith, q.same_count, lt)) (q.subs j n m)

stop-AllOpen :
    (h : Handler) (i : ℕ) → i < h.session_count → OneSession h → AllOpen h → AllOpen (stop h i)
unfolding stop
stop-AllOpen h i li one o j k lt m = elim (Bool-cases (h.session i).closed) [
  | inl c ↦ rw (c, stop) (o j k (rw (c, stop) at lt) (rw (c, stop) at m))
  | inr c ↦
      rw (c, stop)
        (still (rw (c, stop) at lt) (elim (Bool-cases (i == j)) [
          | inl same ↦ absurd (rw (c, stop, same) at m)
          | inr other ↦ (other, rw (c, stop, other) at m)
        ]))
]
  where
    still :
        j < h.session_count
        → ((i == j) ≡ false) × IsIn k (h.session j).subs
        → (close_all (h.session i).subs h.sub k).closed ≡ false
    still lj (other, mj) =
        ap (λ s. s.closed)
          (close_all_ne (h.session i).subs h.sub k
            (λ mi. ground (arith, ==_iff i j, one i j k li lj mi mj)))
        ∙ o j k lj mj

stop_old-AllOpen :
    (h : Handler) (number : Bytes)
    → ((i : ℕ) → lookup number h.sessions ≡ some i → i < h.session_count)
    → OneSession h
    → AllOpen h
    → AllOpen (stop_old h number)
unfolding stop_old
stop_old-AllOpen h number made one o = elim (Option-cases (lookup number h.sessions)) [
  | inl e ↦ rw (e, stop_old) o
  | inr (i, e) ↦ rw (e, stop_old) (stop-AllOpen h i (made i e) one o)
]

-- A new client's queue is open.
register-AllOpen :
    (h : Handler) (number : Bytes) (stream : Stream)
    → ((j k : ℕ) → j < h.session_count → IsIn k (h.session j).subs → k < h.sub_count)
    → AllOpen h
    → AllOpen (register h number stream)
unfolding register
register-AllOpen h number stream known o j k lt m = elim (Bool-cases (h.session_count == j)) [
  | inl same ↦ elim (rw same at m) [
    | inl e ↦ rw ((==_iff h.sub_count k).1 (sym e)) refl
    | inr none_there ↦ absurd none_there
  ]
  | inr other ↦
      let m' : IsIn k (h.session j).subs = rw other at m in
      let lj : j < h.session_count = ground (arith, ==_iff h.session_count j) in
      ground (arith, ==_iff h.sub_count k, known j k lj m', o j k lj m')
]

subscribe-AllOpen :
    (h : Handler) (i : ℕ)
    → ((j k : ℕ) → j < h.session_count → IsIn k (h.session j).subs → k < h.sub_count)
    → AllOpen h
    → AllOpen (subscribe h i).0
unfolding subscribe
subscribe-AllOpen h i known o = elim (Bool-cases (h.session i).closed) [
  | inl c ↦ rw (c, subscribe) o
  | inr c ↦
      rw (c, subscribe)
        (λ j k lt m. elim (Bool-cases (h.sub_count == k)) [
          | inl new ↦ rw new (push_lem new_subscriber (h.session i).prebuffer.recent).1
          | inr old ↦ rw old (o j k lt (before _ j k refl old m))
        ])
]
  where
    before :
        (s : Session) (j k : ℕ)
        → s.subs ≡ h.sub_count ∷ (h.session i).subs
        → (h.sub_count == k) ≡ false
        → IsIn k (update h.session i s j).subs
        → IsIn k (h.session j).subs
    before s j k e old m = elim (Bool-cases (i == j)) [
      | inl same ↦ elim (subst (IsIn k) e (rw same at m)) [
        | inl new ↦ absurd (ground (arith, ==_iff h.sub_count k))
        | inr r ↦ subst (λ l. IsIn k (h.session l).subs) ((==_iff i j).0 same) r
      ]
      | inr other ↦ rw other at m
    ]

-- A queue that is pushed to stays as open as it was.
broadcast-closed :
    (h : Handler) (i k : ℕ) (chunk : Bytes)
    → Distinct (h.session i).subs
    → ((broadcast h i chunk).sub k).closed ≡ (h.sub k).closed
broadcast-closed h i k chunk d = elim (IsIn-cases k (h.session i).subs) [
  | inl m ↦ ap (λ s. s.closed) ((broadcast-push h i k chunk d).0 m) ∙ (push_lem (h.sub k) chunk).1
  | inr out ↦ ap (λ s. s.closed) ((broadcast-push h i k chunk d).1 out)
]

broadcast-AllOpen :
    (h : Handler) (i : ℕ) (chunk : Bytes)
    → Distinct (h.session i).subs
    → AllOpen h
    → AllOpen (broadcast h i chunk)
unfolding broadcast
broadcast-AllOpen h i chunk d o j k lt m =
    broadcast-closed h i k chunk d ∙ o j k lt (subst (IsIn k) (broadcast-subs h i chunk j) m)

one_queue-AllOpen :
    (h : Handler) (k : ℕ) (s : Subscriber)
    → s.closed ≡ (h.sub k).closed
    → AllOpen h
    → AllOpen (record h { sub = update h.sub k s })
one_queue-AllOpen h k s e o j n lt m = elim (Bool-cases (k == n)) [
  | inl same ↦ rw same (e ∙ ap (λ l. (h.sub l).closed) ((==_iff k n).0 same) ∙ o j n lt m)
  | inr other ↦ rw other (o j n lt m)
]

pub deregister-sub : (h : Handler) (number : Bytes) (i : ℕ) → (deregister h number i).sub ≡ h.sub
deregister-sub h number i = (deregister-kept h number i).1

pub unsubscribe-sub : (h : Handler) (i sub : ℕ) → (unsubscribe h i sub).sub ≡ h.sub
unfolding unsubscribe
unsubscribe-sub h i sub = elim (Bool-cases (h.session i).closed) [
  | inl c ↦ rw (c, unsubscribe) refl
  | inr c ↦ rw (c, unsubscribe) refl
]

Step-AllOpen :
    {w x : World} {output got : ℕ → Bytes}
    → Step w x
    → ((n : Bytes) (i : ℕ) → lookup n w.handler.sessions ≡ some i → i < w.handler.session_count)
    → IsMade w
    → AllDelivered w.handler output got
    → AllOpen w.handler
    → AllOpen x.handler
unfolding create fail start_output wake take take_pending
Step-AllOpen {w} (creates number stream _ _) p m a o =
    register-AllOpen (stop_old w.handler number) number stream
      (Quiet-AllDelivered (stop_old-Quiet w.handler number) a).known
      (stop_old-AllOpen w.handler number (p number) (AllDelivered-OneSession a) o)
Step-AllOpen (finds number stream i _ _) p m a o = o
Step-AllOpen {w} (joins i _) p m a o = subscribe-AllOpen w.handler i a.known o
Step-AllOpen {w} (wakes k _ _) p m a o =
    one_queue-AllOpen w.handler k (record (w.handler.sub k) { notify = false }) refl o
Step-AllOpen {w} (takes k _) p m a o =
    one_queue-AllOpen w.handler k (record (w.handler.sub k) { pending = [] }) refl o
Step-AllOpen {w} (leaves i sub) p m a o =
    Quiet-AllOpen (unsubscribe-Quiet w.handler i sub)
      (λ n. ap (λ f. (f n).closed) (unsubscribe-sub w.handler i sub)) o
Step-AllOpen (cancels i _) p m a o = o
Step-AllOpen (expires i _) p m a o = o
Step-AllOpen {w} (deregisters i _ _) p m a o =
    Quiet-AllOpen (deregister-Quiet w.handler i _)
      (λ n. ap (λ f. (f n).closed) (deregister-sub w.handler _ i)) o
Step-AllOpen {w} (stops i made _) p m a o =
    stop-AllOpen w.handler i made (AllDelivered-OneSession a) o
Step-AllOpen {w} (fails i _) p m a o = Quiet-AllOpen (fail-Quiet w.handler i) (λ n. refl) o
Step-AllOpen {w} (starts i content_type _) p m a o =
    Quiet-AllOpen (start_output-Quiet w.handler i content_type) (λ n. refl) o
Step-AllOpen {w} (broadcasts i chunk at _ _) p m a o =
    broadcast-AllOpen w.handler i chunk (a.distinct i (m.running i (λ e. cc))) o
Step-AllOpen (finishes i _) p m a o = o
Step-AllOpen {w} (takes_out i _ _) p m a o =
    Quiet-AllOpen (deregister-Quiet w.handler i _)
      (λ n. ap (λ f. (f n).closed) (deregister-sub w.handler _ i)) o
Step-AllOpen {w} (ends i at) p m a o =
    stop-AllOpen w.handler i (m.running i (λ e. cc)) (AllDelivered-OneSession a) o

pub Reach-AllOpen : {v w : World} → IsStart v → Reach v w → AllOpen w.handler
Reach-AllOpen s here = λ j k lt m. absurd (omega (arith, s.none_given))
Reach-AllOpen s (next r st) =
    Step-AllOpen st (λ n i e. ((Reach-IsRegistered s r).points n i e).0) (Reach-IsMade s r)
      (Reach-AllDelivered s r) (Reach-AllOpen s r)
