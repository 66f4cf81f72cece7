-- ===== src/StreamProxy/Subscriber/Backlog.antt =====
-- What a client gets of the session's output: bounds on its queue, and the alignment of gaps.
use iptv2hdhr.Base.{
  ℕ, ◌+◌, ◌-◌, ◌%◌, ◌≤◌, ◌≡◌, refl, sym, ap, ◌∙◌, List, [], ◌∷◌, ◌++◌, arith, length, All,
  length-append, length-drop, drop-append_short, drop-drop, drop-length, drop, Bytes, append-nil,
  append_assoc, subst, take, length-take, take-drop,
}
use iptv2hdhr.StreamProxy.Subscriber.{
  Subscriber, new_subscriber, max_subscriber_backlog, ts_packet_size, push, receive,
}

-- A chunk that leaves room for a part of a packet. Reads are at most 64 KiB, and the join
-- prebuffer 4 MiB.
abbrev pub FitsBacklog : Bytes → Type 0
FitsBacklog chunk = length chunk + ts_packet_size ≤ max_subscriber_backlog

-- What a push does to the queue and the flags: it drops the bytes that it reports, and appends.
pub push_lem :
    (sub : Subscriber) (chunk : Bytes)
    → ((push sub chunk).0.pending ≡ drop (push sub chunk).1 sub.pending ++ chunk)
      × ((push sub chunk).0.closed ≡ sub.closed)
unfolding push
push_lem sub [] = (sym (append-nil sub.pending), refl)
push_lem sub (c ∷ chunk) = (refl, refl)

push_skips :
    (sub : Subscriber) (chunk : Bytes)
    → ((push sub chunk).1 % ts_packet_size ≡ 0)
      × ((push sub chunk).1 ≤ length sub.pending)
      × (length sub.pending ≤ max_subscriber_backlog
          → FitsBacklog chunk
          → length sub.pending - (push sub chunk).1 + length chunk ≤ max_subscriber_backlog)
unfolding push
push_skips sub [] = omega arith
push_skips sub (c ∷ chunk) = ground arith

-- A push keeps the queue within its bound.
pub push-bounded :
    (sub : Subscriber) (chunk : Bytes)
    → FitsBacklog chunk
    → length sub.pending ≤ max_subscriber_backlog
    → length (push sub chunk).0.pending ≤ max_subscriber_backlog
push-bounded sub chunk h k = omega (
  arith,
  ap length (push_lem sub chunk).0,
  length-append (drop (push sub chunk).1 sub.pending) chunk,
  length-drop (push sub chunk).1 sub.pending,
  (push_skips sub chunk).2 k h,
)

-- What happens to a client's queue over time.
pub data Event : Type 0 where
  pushed : Bytes → Event
  taken : Event

-- A queue with its history: all that was pushed, all that was taken, and how much was skipped.
pub record Client : Type 0 where
  pub sub : Subscriber
  pub output : Bytes
  pub got : Bytes
  pub skipped : ℕ

abbrev pub client_start : Client
client_start = record { sub = new_subscriber; output = []; got = []; skipped = 0 }

unfoldable pub after_event : Client → Event → Client
after_event c (pushed chunk) = record {
  sub = (push c.sub chunk).0;
  output = c.output ++ chunk;
  got = c.got;
  skipped = c.skipped + (push c.sub chunk).1;
}
after_event c taken = record {
  sub = (receive c.sub).0;
  output = c.output;
  got = c.got ++ (receive c.sub).1;
  skipped = c.skipped;
}

unfoldable pub after_events : Client → List Event → Client
after_events c [] = c
after_events c (e ∷ es) = after_events (after_event c e) es

abbrev pub EventFits : Event → Type 0
EventFits (pushed chunk) = FitsBacklog chunk
EventFits taken = Unit

-- `got` is `passed` without some runs of whole packets: its bytes, in their order.
pub data Thinned : Bytes → Bytes → Type 0 where
  nothing : Thinned [] []
  keeps : {passed got : Bytes} (c : ℕ) → Thinned passed got → Thinned (c ∷ passed) (c ∷ got)
  skips :
      {passed got : Bytes} (gap : Bytes)
      → length gap % ts_packet_size ≡ 0
      → Thinned passed got
      → Thinned (gap ++ passed) got

Thinned-append : {a b c d : Bytes} → Thinned a b → Thinned c d → Thinned (a ++ c) (b ++ d)
Thinned-append nothing u = u
Thinned-append (keeps x t) u = keeps x (Thinned-append t u)
Thinned-append {a} {b} {c} {d} (skips {passed = p} gap whole t) u =
    subst (λ q. Thinned q (b ++ d)) (sym (append_assoc gap p c))
      (skips gap whole (Thinned-append t u))

Thinned-refl : (s : Bytes) → Thinned s s
Thinned-refl [] = nothing
Thinned-refl (c ∷ s) = keeps c (Thinned-refl s)

-- A gap at the end.
Thinned-skip :
    {passed got : Bytes} (gap : Bytes)
    → length gap % ts_packet_size ≡ 0
    → Thinned passed got
    → Thinned (passed ++ gap) got
Thinned-skip {passed} {got} gap whole t =
    subst (λ g. Thinned (passed ++ gap) g) (append-nil got)
      (Thinned-append t (subst (λ q. Thinned q []) (append-nil gap) (skips gap whole nothing)))

-- What was taken is the output before the queue, without whole packets that were skipped; the queue is
-- the rest of the output behind what was taken or skipped.
pub record InStep (c : Client) : Type 0 where
  pub whole_packets : c.skipped % ts_packet_size ≡ 0
  pub accounted : length c.got + c.skipped + length c.sub.pending ≡ length c.output
  pub passed : Bytes
  pub in_order : Thinned passed c.got
  pub all_output : c.output ≡ passed ++ c.sub.pending
  pub rest_of_output : c.sub.pending ≡ drop (length c.got + c.skipped) c.output
  pub bounded : length c.sub.pending ≤ max_subscriber_backlog

pub after_event-InStep :
    (c : Client) (e : Event) → EventFits e → InStep c → InStep (after_event c e)
unfolding after_event receive
after_event-InStep c (pushed chunk) fits w = record {
  whole_packets = omega (arith, push_skips c.sub chunk, w.whole_packets);
  accounted = omega (
    arith,
    w.accounted,
    length-append c.output chunk,
    ap length (push_lem c.sub chunk).0,
    length-append (drop k c.sub.pending) chunk,
    length-drop k c.sub.pending,
    (push_skips c.sub chunk).1,
  );
  passed = w.passed ++ take k c.sub.pending;
  in_order =
      Thinned-skip (take k c.sub.pending)
        (omega
          (arith, push_skips c.sub chunk, length-take k c.sub.pending (push_skips c.sub chunk).1))
        w.in_order;
  all_output =
      ap (λ q. q ++ chunk) (w.all_output ∙ ap (◌++◌ w.passed) (sym (take-drop k c.sub.pending)))
      ∙ regroup w.passed (take k c.sub.pending) (drop k c.sub.pending)
      ∙ ap (◌++◌ (w.passed ++ take k c.sub.pending)) (sym (push_lem c.sub chunk).0);
  rest_of_output =
      (push_lem c.sub chunk).0
      ∙ ap (λ q. drop k q ++ chunk) w.rest_of_output
      ∙ ap (λ q. q ++ chunk) (drop-drop k (length c.got + c.skipped) c.output)
      ∙ sym (
          drop-append_short (length c.got + c.skipped + k) c.output chunk
            (omega (arith, w.accounted, (push_skips c.sub chunk).1)))
      ∙ ap (λ n. drop n (c.output ++ chunk)) (omega arith);
  bounded = push-bounded c.sub chunk fits w.bounded;
}
  where
    k : ℕ
    k = (push c.sub chunk).1

    regroup : (a b d : Bytes) → (a ++ (b ++ d)) ++ chunk ≡ (a ++ b) ++ (d ++ chunk)
    regroup a b d = ap (λ q. q ++ chunk) (sym (append_assoc a b d)) ∙ append_assoc (a ++ b) d chunk
after_event-InStep c taken fits w = record {
  whole_packets = w.whole_packets;
  accounted = omega (arith, w.accounted, length-append c.got c.sub.pending);
  passed = c.output;
  in_order =
      subst (λ q. Thinned q (c.got ++ c.sub.pending)) (sym w.all_output)
        (Thinned-append w.in_order (Thinned-refl c.sub.pending));
  all_output = sym (append-nil c.output);
  rest_of_output = sym (
      drop-length c.output (length (c.got ++ c.sub.pending) + c.skipped)
        (omega (arith, w.accounted, length-append c.got c.sub.pending)));
  bounded = omega arith;
}

-- Over any sequence of pushes (each small enough) and takes: what was taken is the output before the
-- queue, byte for byte and in its order, but for runs of whole packets that were skipped; the queue is
-- exactly the end of the output; and its length stays bounded.
pub after_events-InStep :
    (c : Client) (es : List Event) → All EventFits es → InStep c → InStep (after_events c es)
unfolding after_events
after_events-InStep c [] h w = w
after_events-InStep c (e ∷ es) h w =
    after_events-InStep (after_event c e) es h.1 (after_event-InStep c e h.0 w)

pub client_start-InStep : InStep client_start
client_start-InStep = record {
  whole_packets = refl;
  accounted = omega arith;
  passed = [];
  in_order = nothing;
  all_output = refl;
  rest_of_output = refl;
  bounded = omega arith;
}
