-- ===== src/StreamProxy/Handler/Steps/Deliveries.antt =====
-- What each client has got of its session's output, by the steps so far.
use iptv2hdhr.Base.{
  ℕ, ◌≤◌, ◌<◌, ◌%◌, ◌≡◌, refl, sym, ap, subst, ◌∙◌, inl, inr, List, [], ◌∷◌, ◌++◌, arith, ◌==◌,
  ==_iff, Bytes, Bool-cases, Option-cases, length, drop, Dict, lookup, remove,
}
use iptv2hdhr.StreamProxy.Subscriber.{Subscriber, ts_packet_size}
use iptv2hdhr.StreamProxy.Subscriber.Backlog.{InStep}
use iptv2hdhr.StreamProxy.Session.{Session}
use iptv2hdhr.StreamProxy.Session.Recent.{KeepsEnd}
use iptv2hdhr.StreamProxy.Handler.{
  Handler, update, stop_old, unsubscribe, delete_sub, deregister, stop, fail, start_output, wake,
}
use iptv2hdhr.StreamProxy.Handler.Clients.{IsIn, Distinct, close_all-pending}

-- The client `k`, of a session whose output is given: `seen` is the part of the output that it was
-- subscribed for, which starts on a packet boundary, and all of it is got, skipped or still queued.
-- A client that is still subscribed has seen the output to its end.
pub record Delivered (h : Handler) (output got : ℕ → Bytes) (k : ℕ) : Type 0 where
  pub owner : ℕ
  pub start : ℕ
  pub seen : Bytes
  pub later : Bytes
  pub skipped : ℕ
  pub owner_made : owner < h.session_count
  pub within : start ≤ length (output owner)
  pub aligned : start % ts_packet_size ≡ 0
  pub split : drop start (output owner) ≡ seen ++ later
  pub in_step : InStep (record { sub = h.sub k; output = seen; got = got k; skipped = skipped })
  pub current :
      (j : ℕ) → j < h.session_count → IsIn k (h.session j).subs → (j ≡ owner) × (later ≡ [])

pub record AllDelivered (h : Handler) (output got : ℕ → Bytes) : Type 0 where
  pub clients : (k : ℕ) → k < h.sub_count → Delivered h output got k
  pub known : (j k : ℕ) → j < h.session_count → IsIn k (h.session j).subs → k < h.sub_count
  pub distinct : (j : ℕ) → j < h.session_count → Distinct (h.session j).subs
  pub prebuffers : (j : ℕ) → j < h.session_count → KeepsEnd (h.session j).prebuffer (output j)
  pub no_output : (j : ℕ) → h.session_count ≤ j → output j ≡ []
  pub none_got : (k : ℕ) → h.sub_count ≤ k → got k ≡ []

pub InStep-of_pending :
    {s t : Subscriber} {output got : Bytes} {skipped : ℕ}
    → t.pending ≡ s.pending
    → InStep (record { sub = s; output = output; got = got; skipped = skipped })
    → InStep (record { sub = t; output = output; got = got; skipped = skipped })
InStep-of_pending e i = record {
  whole_packets = i.whole_packets;
  accounted = omega (arith, ap (λ q. length q) e, i.accounted);
  passed = i.passed;
  in_order = i.in_order;
  all_output = i.all_output ∙ ap (◌++◌ i.passed) (sym e);
  rest_of_output = e ∙ i.rest_of_output;
  bounded = omega (arith, ap (λ q. length q) e, i.bounded);
}

-- An operation that gives nobody anything, and may end subscriptions.
pub record Quiet (h k : Handler) : Type 0 where
  pub same_count : k.session_count ≡ h.session_count
  pub same_sub_count : k.sub_count ≡ h.sub_count
  pub pending : (n : ℕ) → (k.sub n).pending ≡ (h.sub n).pending
  pub prebuffer : (j : ℕ) → (k.session j).prebuffer ≡ (h.session j).prebuffer
  pub subs : (j n : ℕ) → IsIn n (k.session j).subs → IsIn n (h.session j).subs
  pub distinct : (j : ℕ) → Distinct (h.session j).subs → Distinct (k.session j).subs

pub Quiet-AllDelivered :
    {h k : Handler} {output got : ℕ → Bytes}
    → Quiet h k
    → AllDelivered h output got
    → AllDelivered k output got
Quiet-AllDelivered {h} {k} {output} {got} q a = record {
  clients = λ n lt.
      let d = a.clients n (omega (arith, q.same_sub_count, lt)) in
      record {
        owner = d.owner;
        start = d.start;
        seen = d.seen;
        later = d.later;
        skipped = d.skipped;
        owner_made = omega (arith, q.same_count, d.owner_made);
        within = d.within;
        aligned = d.aligned;
        split = d.split;
        in_step = InStep-of_pending (q.pending n) d.in_step;
        current = λ j lj m. d.current j (omega (arith, q.same_count, lj)) (q.subs j n m);
      };
  known = λ j n lj m.
      omega (arith, q.same_sub_count, a.known j n (omega (arith, q.same_count, lj)) (q.subs j n m));
  distinct = λ j lj. q.distinct j (a.distinct j (omega (arith, q.same_count, lj)));
  prebuffers = λ j lj.
      subst (λ p. KeepsEnd p (output j)) (sym (q.prebuffer j))
        (a.prebuffers j (omega (arith, q.same_count, lj)));
  no_output = λ j le. a.no_output j (omega (arith, q.same_count, le));
  none_got = λ n le. a.none_got n (omega (arith, q.same_sub_count, le));
}

pub cancelling-Quiet : (h : Handler) (is : List ℕ) → Quiet h (record h { cancelling = is })
cancelling-Quiet h is = record {
  same_count = refl;
  same_sub_count = refl;
  pending = λ n. refl;
  prebuffer = λ j. refl;
  subs = λ j n m. m;
  distinct = λ j d. d;
}

pub Quiet-refl : (h : Handler) → Quiet h h
Quiet-refl h = record {
  same_count = refl;
  same_sub_count = refl;
  pending = λ n. refl;
  prebuffer = λ j. refl;
  subs = λ j n m. m;
  distinct = λ j d. d;
}

-- An operation that writes one session.
Quiet-of_update :
    (h k : Handler) (i : ℕ) (s : Session)
    → k.session_count ≡ h.session_count
    → k.sub_count ≡ h.sub_count
    → ((n : ℕ) → (k.sub n).pending ≡ (h.sub n).pending)
    → k.session ≡ update h.session i s
    → s.prebuffer ≡ (h.session i).prebuffer
    → ((n : ℕ) → IsIn n s.subs → IsIn n (h.session i).subs)
    → (Distinct (h.session i).subs → Distinct s.subs)
    → Quiet h k
Quiet-of_update h k i s c b q w p f d = record {
  same_count = c;
  same_sub_count = b;
  pending = q;
  prebuffer = λ j. ap (λ g. (g j).prebuffer) w ∙ same_prebuffer j;
  subs = λ j n m. fewer j n (subst (λ g. IsIn n (g j).subs) w m);
  distinct = λ j e. subst (λ g. Distinct (g j).subs) (sym w) (still j e);
}
  where
    same_prebuffer : (j : ℕ) → (update h.session i s j).prebuffer ≡ (h.session j).prebuffer
    same_prebuffer j = elim (Bool-cases (i == j)) [
      | inl same ↦ rw same (p ∙ ap (λ n. (h.session n).prebuffer) ((==_iff i j).0 same))
      | inr other ↦ rw other refl
    ]

    fewer : (j n : ℕ) → IsIn n (update h.session i s j).subs → IsIn n (h.session j).subs
    fewer j n m = elim (Bool-cases (i == j)) [
      | inl same ↦ subst (λ l. IsIn n (h.session l).subs) ((==_iff i j).0 same) (f n (rw same at m))
      | inr other ↦ (rw other at m)
    ]

    still : (j : ℕ) → Distinct (h.session j).subs → Distinct (update h.session i s j).subs
    still j e = elim (Bool-cases (i == j)) [
      | inl same ↦
          rw same (d (subst (λ l. Distinct (h.session l).subs) (sym ((==_iff i j).0 same)) e))
      | inr other ↦ rw other e
    ]

delete_sub-IsIn : (x n : ℕ) (xs : List ℕ) → IsIn n (delete_sub x xs) → IsIn n xs
unfolding delete_sub
delete_sub-IsIn x n [] m = m
delete_sub-IsIn x n (y ∷ ys) m = elim (Bool-cases (y == x)) [
  | inl same ↦ inr (delete_sub-IsIn x n ys (rw same at m))
  | inr other ↦ elim (rw other at m) [ inl e ↦ inl e | inr r ↦ inr (delete_sub-IsIn x n ys r) ]
]

delete_sub-Distinct : (x : ℕ) (xs : List ℕ) → Distinct xs → Distinct (delete_sub x xs)
unfolding delete_sub
delete_sub-Distinct x [] d = d
delete_sub-Distinct x (y ∷ ys) d = elim (Bool-cases (y == x)) [
  | inl same ↦ rw same (delete_sub-Distinct x ys d.1)
  | inr other ↦ rw other (λ m. d.0 (delete_sub-IsIn x y ys m), delete_sub-Distinct x ys d.1)
]

module _ (h : Handler) (i : ℕ) where
  pub stop-Quiet : Quiet h (stop h i)
  unfolding stop
  stop-Quiet = elim (Bool-cases (h.session i).closed) [
    | inl c ↦ rw (c, stop) (Quiet-refl h)
    | inr c ↦
        rw (c, stop)
          (Quiet-of_update h _ i _ refl refl (close_all-pending (h.session i).subs h.sub) refl refl
            (λ n m. absurd m) (λ d. tt))
  ]

  pub unsubscribe-Quiet : (sub : ℕ) → Quiet h (unsubscribe h i sub)
  unfolding unsubscribe
  unsubscribe-Quiet sub = elim (Bool-cases (h.session i).closed) [
    | inl c ↦ rw (c, unsubscribe) (Quiet-refl h)
    | inr c ↦
        rw (c, unsubscribe)
          (Quiet-of_update h _ i _ refl refl (λ n. refl) refl refl
            (λ n m. delete_sub-IsIn sub n (h.session i).subs m)
            (λ d. delete_sub-Distinct sub (h.session i).subs d))
  ]

  pub fail-Quiet : Quiet h (fail h i)
  unfolding fail
  fail-Quiet = Quiet-of_update h _ i _ refl refl (λ n. refl) refl refl (λ n m. m) (λ d. d)

  pub start_output-Quiet : (content_type : Bytes) → Quiet h (start_output h i content_type)
  unfolding start_output
  start_output-Quiet content_type =
      Quiet-of_update h _ i _ refl refl (λ n. refl) refl refl (λ n m. m) (λ d. d)

  -- A signal leaves the queue alone.
  pub wake-Quiet : Quiet h (wake h i)
  unfolding wake
  wake-Quiet = record {
    same_count = refl;
    same_sub_count = refl;
    pending = λ n. elim (Bool-cases (i == n)) [
      | inl same ↦ rw same (ap (λ l. (h.sub l).pending) ((==_iff i n).0 same))
      | inr other ↦ rw other refl
    ];
    prebuffer = λ j. refl;
    subs = λ j n m. m;
    distinct = λ j d. d;
  }

  sessions-Quiet : (sessions : Dict ℕ) → Quiet h (record h { sessions = sessions })
  sessions-Quiet sessions = record {
    same_count = refl;
    same_sub_count = refl;
    pending = λ n. refl;
    prebuffer = λ j. refl;
    subs = λ j n m. m;
    distinct = λ j d. d;
  }

  pub deregister-Quiet : (number : Bytes) → Quiet h (deregister h number i)
  unfolding deregister
  deregister-Quiet number = elim (Option-cases (lookup number h.sessions)) [
    | inl e ↦ rw (e, deregister) (Quiet-refl h)
    | inr (j, e) ↦
        rw (e, deregister)
          (elim (Bool-cases (j == i)) [
            | inl same ↦ rw same (sessions-Quiet (remove number h.sessions))
            | inr other ↦ rw other (Quiet-refl h)
          ])
  ]

pub stop_old-Quiet : (h : Handler) (number : Bytes) → Quiet h (stop_old h number)
unfolding stop_old
stop_old-Quiet h number = elim (Option-cases (lookup number h.sessions)) [
  | inl e ↦ rw (e, stop_old) (Quiet-refl h)
  | inr (i, e) ↦ rw (e, stop_old) (stop-Quiet h i)
]
