-- ===== src/StreamProxy/Handler/Steps/Chunks.antt =====
-- A chunk that is broadcast to the clients of a session, and a queue that a client takes.
use iptv2hdhr.Base.{
  ℕ, ◌+◌, ◌≤◌, ◌<◌, ◌≡◌, refl, sym, ap, subst, ◌∙◌, ◌⊎◌, inl, inr, List, [], ◌∷◌, ◌++◌, arith, ◌==◌,
  ==_iff, Bytes, Bool-cases, length, length-append, drop, append-nil, append_assoc,
  drop-append_short,
}
use iptv2hdhr.StreamProxy.Subscriber.{Subscriber, take_pending, push, receive}
use iptv2hdhr.StreamProxy.Subscriber.Backlog.{
  InStep, FitsBacklog, pushed, taken, after_event, after_event-InStep,
}
use iptv2hdhr.StreamProxy.Session.Recent.{KeepsEnd, keep_recent-KeepsEnd}
use iptv2hdhr.StreamProxy.Handler.{Handler, update, broadcast, take}
use iptv2hdhr.StreamProxy.Handler.Clients.{IsIn, Distinct, broadcast-push}
use iptv2hdhr.StreamProxy.Handler.Steps.Deliveries.{Delivered, AllDelivered, InStep-of_pending}

pub IsIn-cases : (n : ℕ) (xs : List ℕ) → IsIn n xs ⊎ (IsIn n xs → ⊥)
IsIn-cases n [] = inr (λ m. m)
IsIn-cases n (x ∷ xs) = elim (Bool-cases (n == x)) [
  | inl same ↦ inl (inl ((==_iff n x).0 same))
  | inr other ↦ elim (IsIn-cases n xs) [
    | inl m ↦ inl (inr m)
    | inr out ↦ inr (λ m. elim m [ inl e ↦ ground (arith, ==_iff n x) | inr r ↦ out r ])
  ]
]

-- `update` where it writes, and elsewhere.
update-same : (f : ℕ → Bytes) (i j : ℕ) (v : Bytes) → i ≡ j → update f i v j ≡ v
update-same f i j v e = rw ((==_iff i j).1 e) refl

module _ (h : Handler) (i : ℕ) (chunk : Bytes) where
  pub broadcast-subs : (j : ℕ) → ((broadcast h i chunk).session j).subs ≡ (h.session j).subs
  unfolding broadcast
  broadcast-subs j = elim (Bool-cases (i == j)) [
    | inl same ↦ rw same (ap (λ l. (h.session l).subs) ((==_iff i j).0 same))
    | inr other ↦ rw other refl
  ]

  module _ {output got : ℕ → Bytes} (lt : i < h.session_count) (fits : FitsBacklog chunk)
      (a : AllDelivered h output got) where
    abbrev pub more : ℕ → Bytes
    more = update output i (output i ++ chunk)

    -- A subscriber sees the chunk.
    broadcast-in :
        (n : ℕ)
        → n < h.sub_count
        → IsIn n (h.session i).subs
        → Delivered (broadcast h i chunk) more got n
    unfolding after_event broadcast
    broadcast-in n ln m =
        let d = a.clients n ln in
        let (same, nothing_later) = d.current i lt m in
        let here_start : d.start ≤ length (output i) =
          subst (λ l. d.start ≤ length (output l)) (sym same) d.within in
        record {
          owner = i;
          start = d.start;
          seen = d.seen ++ chunk;
          later = [];
          skipped = d.skipped + (push (h.sub n) chunk).1;
          owner_made = lt;
          within = omega (
            arith,
            here_start,
            ap (λ q. length q) (update-same output i i (output i ++ chunk) refl),
            length-append (output i) chunk,
          );
          aligned = d.aligned;
          split =
              ap (drop d.start) (update-same output i i (output i ++ chunk) refl)
              ∙ drop-append_short d.start (output i) chunk here_start
              ∙ ap (λ l. drop d.start (output l) ++ chunk) same
              ∙ ap (λ q. q ++ chunk) d.split
              ∙ ap (λ q. (d.seen ++ q) ++ chunk) nothing_later
              ∙ ap (λ q. q ++ chunk) (append-nil d.seen)
              ∙ sym (append-nil (d.seen ++ chunk));
          in_step =
              subst
                (λ s. InStep (record {
                  sub = s;
                  output = d.seen ++ chunk;
                  got = got n;
                  skipped = d.skipped + (push (h.sub n) chunk).1;
                }))
                (sym ((broadcast-push h i n chunk (a.distinct i lt)).0 m))
                (after_event-InStep _ (pushed chunk) fits d.in_step);
          current = λ j lj r.
              let (at, rest) = d.current j lj (subst (IsIn n) (broadcast-subs j) r) in
              (at ∙ sym same, refl);
        }

    -- Another client sees nothing of it.
    broadcast-out :
        (n : ℕ)
        → n < h.sub_count
        → (IsIn n (h.session i).subs → ⊥)
        → Delivered (broadcast h i chunk) more got n
    unfolding broadcast
    broadcast-out n ln out =
        let d = a.clients n ln in
        let still =
          InStep-of_pending
            (ap (λ s. s.pending) ((broadcast-push h i n chunk (a.distinct i lt)).1 out))
            d.in_step in
        elim (Bool-cases (i == d.owner)) [
          | inl same ↦
              let e : i ≡ d.owner = (==_iff i d.owner).0 same in
              let longer : more d.owner ≡ output d.owner ++ chunk =
                update-same output i d.owner (output i ++ chunk) e
                ∙ ap (λ l. output l ++ chunk) e in
              record {
                owner = d.owner;
                start = d.start;
                seen = d.seen;
                later = d.later ++ chunk;
                skipped = d.skipped;
                owner_made = d.owner_made;
                within = omega (
                  arith,
                  d.within,
                  ap (λ q. length q) longer,
                  length-append (output d.owner) chunk,
                );
                aligned = d.aligned;
                split =
                    ap (drop d.start) longer
                    ∙ drop-append_short d.start (output d.owner) chunk d.within
                    ∙ ap (λ q. q ++ chunk) d.split
                    ∙ append_assoc d.seen d.later chunk;
                in_step = still;
                current = λ j lj r.
                    let r' : IsIn n (h.session j).subs = subst (IsIn n) (broadcast-subs j) r in
                    let at : j ≡ i = (d.current j lj r').0 ∙ sym e in
                    absurd (out (subst (λ l. IsIn n (h.session l).subs) at r'));
              }
          | inr other ↦
              let same : more d.owner ≡ output d.owner = rw other refl in
              record {
                owner = d.owner;
                start = d.start;
                seen = d.seen;
                later = d.later;
                skipped = d.skipped;
                owner_made = d.owner_made;
                within = omega (arith, d.within, ap (λ q. length q) same);
                aligned = d.aligned;
                split = ap (drop d.start) same ∙ d.split;
                in_step = still;
                current = λ j lj r. d.current j lj (subst (IsIn n) (broadcast-subs j) r);
              }
        ]

    pub broadcast-AllDelivered : AllDelivered (broadcast h i chunk) more got
    unfolding broadcast
    broadcast-AllDelivered = record {
      clients = λ n ln. elim (IsIn-cases n (h.session i).subs) [
        | inl m ↦ broadcast-in n ln m
        | inr out ↦ broadcast-out n ln out
      ];
      known = λ j n lj m. a.known j n lj (subst (IsIn n) (broadcast-subs j) m);
      distinct = λ j lj. subst Distinct (sym (broadcast-subs j)) (a.distinct j lj);
      prebuffers = λ j lj. elim (Bool-cases (i == j)) [
        | inl same ↦
            subst (λ l. KeepsEnd ((broadcast h i chunk).session l).prebuffer (more l))
              ((==_iff i j).0 same)
              (rw ((==_iff i i).1 refl)
                (keep_recent-KeepsEnd (h.session i).prebuffer (output i) chunk (a.prebuffers i lt)))
        | inr other ↦ rw other (a.prebuffers j lj)
      ];
      no_output = λ j le. ground (arith, ==_iff i j, a.no_output j le);
      none_got = a.none_got;
    }

taken_step :
    (sub : Subscriber) (seen got : Bytes) (skipped : ℕ)
    → InStep (record { sub = sub; output = seen; got = got; skipped = skipped })
    → InStep (record {
      sub = record sub { pending = [] };
      output = seen;
      got = got ++ sub.pending;
      skipped = skipped;
    })
unfolding after_event receive
taken_step sub seen got skipped i = InStep-of_pending refl (after_event-InStep _ taken tt i)

-- The queue is emptied, and the client has got it.
pub take-AllDelivered :
    (h : Handler) (k : ℕ) {output got : ℕ → Bytes}
    → k < h.sub_count
    → AllDelivered h output got
    → AllDelivered (take h k) output (update got k (got k ++ (take_pending (h.sub k)).1))
unfolding take take_pending
take-AllDelivered h k {output} {got} lt a = record {
  clients = λ n ln.
      let d = a.clients n ln in
      record {
        owner = d.owner;
        start = d.start;
        seen = d.seen;
        later = d.later;
        skipped = d.skipped;
        owner_made = d.owner_made;
        within = d.within;
        aligned = d.aligned;
        split = d.split;
        in_step = elim (Bool-cases (k == n)) [
          | inl same ↦ rw same (
              taken_step (h.sub k) d.seen (got k) d.skipped (
                subst
                  (λ l.
                    InStep
                      (record { sub = h.sub l; output = d.seen; got = got l; skipped = d.skipped }))
                  (sym ((==_iff k n).0 same)) d.in_step))
          | inr other ↦ rw other d.in_step
        ];
        current = d.current;
      };
  known = a.known;
  distinct = a.distinct;
  prebuffers = a.prebuffers;
  no_output = a.no_output;
  none_got = λ n le. ground (arith, ==_iff k n, a.none_got n le);
}
