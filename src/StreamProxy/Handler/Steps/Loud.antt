-- ===== src/StreamProxy/Handler/Steps/Loud.antt =====
-- The operations that give clients something: a client joins, a chunk is broadcast, a queue is taken.
use iptv2hdhr.Base.{
  ℕ, suc, ◌+◌, ◌≤◌, ◌<◌, ◌%◌, ◌≡◌, refl, sym, ap, subst, ◌∙◌, false, ◌⊎◌, inl, inr, List, [], ◌∷◌,
  arith, ◌==◌, ==_iff, Bytes, Bool-cases, length, drop, append-nil,
}
use iptv2hdhr.Lineup.{Stream}
use iptv2hdhr.StreamProxy.Subscriber.{Subscriber, ts_packet_size, push, new_subscriber}
use iptv2hdhr.StreamProxy.Subscriber.Backlog.{
  InStep, pushed, client_start, client_start-InStep, after_event, after_event-InStep,
}
use iptv2hdhr.StreamProxy.Session.{Session}
use iptv2hdhr.StreamProxy.Session.Recent.{KeepsEnd}
use iptv2hdhr.StreamProxy.Handler.{Handler, update, register, subscribe}
use iptv2hdhr.StreamProxy.Handler.Clients.{IsIn, Distinct}
use iptv2hdhr.StreamProxy.Handler.Steps.Deliveries.{Delivered, AllDelivered, InStep-of_pending}

-- The next subscriber is given to the session `i`, which may be new, and sees the output from `start`
-- on.
record Joins (h k : Handler) (output : ℕ → Bytes) (i : ℕ) (s : Session) (sub : Subscriber)
    (rest : List ℕ) : Type 0 where
  subs_written : k.sub ≡ update h.sub h.sub_count sub
  session_written : k.session ≡ update h.session i s
  sub_given : k.sub_count ≡ suc h.sub_count
  made : i < k.session_count
  count : h.session_count ≤ k.session_count
  none_else : (j : ℕ) → j < k.session_count → (i == j) ≡ false → j < h.session_count
  subscribed : s.subs ≡ h.sub_count ∷ rest
  before : (n : ℕ) → IsIn n rest → (i < h.session_count) × IsIn n (h.session i).subs
  rest_distinct : Distinct rest
  prebuffer : KeepsEnd s.prebuffer (output i)
  start : ℕ
  skipped : ℕ
  within : start ≤ length (output i)
  aligned : start % ts_packet_size ≡ 0
  in_step :
      InStep (record { sub = sub; output = drop start (output i); got = []; skipped = skipped })

module _ {h k : Handler} {output got : ℕ → Bytes} {i : ℕ} {s : Session} {sub : Subscriber}
    {rest : List ℕ} (n : Joins h k output i s sub rest) (a : AllDelivered h output got) where
  is_before : (m : ℕ) → IsIn m rest → m < h.sub_count
  is_before m r = let (lt, old) = n.before m r in a.known i m lt old

  -- The subscriptions are the old ones, and the new one.
  joins-IsIn :
      (j m : ℕ)
      → j < k.session_count
      → IsIn m (k.session j).subs
      → ((m ≡ h.sub_count) × (j ≡ i)) ⊎ ((j < h.session_count) × IsIn m (h.session j).subs)
  joins-IsIn j m lt r = elim (Bool-cases (i == j)) [
    | inl same ↦
        let e : i ≡ j = (==_iff i j).0 same in
        let r' : IsIn m s.subs = rw same at (subst (λ g. IsIn m (g j).subs) n.session_written r) in
        elim (subst (IsIn m) n.subscribed r') [
          | inl new ↦ inl (new, sym e)
          | inr old ↦
              inr
                (subst (λ l. (l < h.session_count) × IsIn m (h.session l).subs) e (n.before m old))
        ]
    | inr other ↦
        inr
          (n.none_else j lt other, rw other at (subst (λ g. IsIn m (g j).subs) n.session_written r))
  ]

  joins-new : Delivered k output got h.sub_count
  joins-new = record {
    owner = i;
    start = n.start;
    seen = drop n.start (output i);
    later = [];
    skipped = n.skipped;
    owner_made = n.made;
    within = n.within;
    aligned = n.aligned;
    split = sym (append-nil (drop n.start (output i)));
    in_step =
        subst
          (λ g. InStep (record {
            sub = k.sub h.sub_count;
            output = drop n.start (output i);
            got = g;
            skipped = n.skipped;
          }))
          (sym (a.none_got h.sub_count (omega arith)))
          (InStep-of_pending
            (ap (λ f. (f h.sub_count).pending) n.subs_written
              ∙ rw ((==_iff h.sub_count h.sub_count).1 refl) refl)
            n.in_step);
    current = λ j lt m. elim (joins-IsIn j h.sub_count lt m) [
      | inl new ↦ (new.1, refl)
      | inr old ↦ absurd (omega (arith, a.known j h.sub_count old.0 old.1))
    ];
  }

  joins-old : (m : ℕ) → m < h.sub_count → Delivered k output got m
  joins-old m lt =
      let d = a.clients m lt in
      record {
        owner = d.owner;
        start = d.start;
        seen = d.seen;
        later = d.later;
        skipped = d.skipped;
        owner_made = omega (arith, n.count, d.owner_made);
        within = d.within;
        aligned = d.aligned;
        split = d.split;
        in_step =
            InStep-of_pending
              (ap (λ f. (f m).pending) n.subs_written ∙ ground (arith, ==_iff h.sub_count m))
              d.in_step;
        current = λ j lj r. elim (joins-IsIn j m lj r) [
          | inl new ↦ absurd (omega (arith, new.0, lt))
          | inr old ↦ d.current j old.0 old.1
        ];
      }

  joins-AllDelivered : AllDelivered k output got
  joins-AllDelivered = record {
    clients = λ m lt. elim (Bool-cases (h.sub_count == m)) [
      | inl same ↦ subst (Delivered k output got) ((==_iff h.sub_count m).0 same) joins-new
      | inr other ↦ joins-old m (ground (arith, n.sub_given, ==_iff h.sub_count m))
    ];
    known = λ j m lj r. elim (joins-IsIn j m lj r) [
      | inl new ↦ omega (arith, new.0, n.sub_given)
      | inr old ↦ omega (arith, a.known j m old.0 old.1, n.sub_given)
    ];
    distinct = λ j lj.
        subst (λ g. Distinct (g j).subs) (sym n.session_written)
          (elim (Bool-cases (i == j)) [
            | inl same ↦ rw same (
                subst Distinct (sym n.subscribed)
                  (λ r. omega (arith, is_before h.sub_count r), n.rest_distinct))
            | inr other ↦ rw other (a.distinct j (n.none_else j lj other))
          ]);
    prebuffers = λ j lj.
        subst (λ g. KeepsEnd (g j).prebuffer (output j)) (sym n.session_written)
          (elim (Bool-cases (i == j)) [
            | inl same ↦
                rw same
                  (subst (λ l. KeepsEnd s.prebuffer (output l)) ((==_iff i j).0 same) n.prebuffer)
            | inr other ↦ rw other (a.prebuffers j (n.none_else j lj other))
          ]);
    no_output = λ j le. a.no_output j (omega (arith, n.count, le));
    none_got = λ m le. a.none_got m (omega (arith, n.sub_given, le));
  }

-- A new session has no output yet.
pub register-AllDelivered :
    (h : Handler) (number : Bytes) (stream : Stream) {output got : ℕ → Bytes}
    → AllDelivered h output got
    → AllDelivered (register h number stream) output got
unfolding register
register-AllDelivered h number stream {output} {got} a =
    joins-AllDelivered {i = h.session_count} {rest = []}
      (record {
        subs_written = refl;
        session_written = refl;
        sub_given = refl;
        made = omega arith;
        count = omega arith;
        none_else = λ j lt other. ground (arith, ==_iff h.session_count j);
        subscribed = refl;
        before = λ n m. absurd m;
        rest_distinct = tt;
        prebuffer = subst (KeepsEnd _) (sym none_yet) (record {
          aligned = refl;
          position = refl;
          end_of_output = refl;
          bounded = omega arith;
        });
        start = 0;
        skipped = 0;
        within = omega arith;
        aligned = refl;
        in_step =
            subst (λ o. InStep (record { sub = new_subscriber; output = o; got = []; skipped = 0 }))
              (sym none_yet) client_start-InStep;
      })
      a
  where
    none_yet : output h.session_count ≡ []
    none_yet = a.no_output h.session_count (omega arith)

-- A running one sends its prebuffer first.
pub subscribe-AllDelivered :
    (h : Handler) (i : ℕ) {output got : ℕ → Bytes}
    → i < h.session_count
    → AllDelivered h output got
    → AllDelivered (subscribe h i).0 output got
unfolding subscribe after_event
subscribe-AllDelivered h i {output} {got} lt a = elim (Bool-cases (h.session i).closed) [
  | inl c ↦ rw (c, subscribe) a
  | inr c ↦
      let p = a.prebuffers i lt in
      rw (c, subscribe)
        (joins-AllDelivered {i = i} {rest = (h.session i).subs}
          (record {
            subs_written = refl;
            session_written = refl;
            sub_given = refl;
            made = lt;
            count = omega arith;
            none_else = λ j lj other. lj;
            subscribed = refl;
            before = λ n m. (lt, m);
            rest_distinct = a.distinct i lt;
            prebuffer = p;
            start = (h.session i).prebuffer.recent_start;
            skipped = 0 + (push new_subscriber (h.session i).prebuffer.recent).1;
            within = omega (arith, p.position);
            aligned = p.aligned;
            in_step =
                subst
                  (λ o. InStep (record {
                    sub = (push new_subscriber (h.session i).prebuffer.recent).0;
                    output = o;
                    got = [];
                    skipped = 0 + (push new_subscriber (h.session i).prebuffer.recent).1;
                  }))
                  p.end_of_output
                  (after_event-InStep client_start (pushed (h.session i).prebuffer.recent)
                    (omega (arith, p.bounded)) client_start-InStep);
          })
          a)
]
