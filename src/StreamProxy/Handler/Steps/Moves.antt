-- ===== src/StreamProxy/Handler/Steps/Moves.antt =====
-- What the operations of the handler do to what a client of a session sees.
use iptv2hdhr.Base.{
  ℕ, suc, ◌<◌, ◌≡◌, refl, sym, ap, subst, ◌∙◌, true, false, ◌⊎◌, inl, inr, some, List, [], ◌∷◌,
  arith, ◌==◌, ==_iff, Bytes, Bool-cases, Option-cases, lookup,
}
use iptv2hdhr.Lineup.{Stream}
use iptv2hdhr.StreamProxy.Subscriber.{Subscriber, push, close}
use iptv2hdhr.StreamProxy.Client as Clients
use iptv2hdhr.StreamProxy.Client.{Client, Phase, ClientReach, own, signals, pushes, closes}
use iptv2hdhr.StreamProxy.Handler.{
  Handler, update, register, stop_old, subscribe, deregister, stop, broadcast, close_all, fail,
  start_output,
}
use iptv2hdhr.StreamProxy.Handler.Clients.{IsIn, Distinct, broadcast-push}
use iptv2hdhr.StreamProxy.Handler.Steps.Places.{
  Respects, subscribe-Respects, stop-Respects, broadcast-Respects, deregister-Respects,
  register-Respects,
}
use iptv2hdhr.StreamProxy.Handler.Steps.Deliveries.{AllDelivered}
use iptv2hdhr.StreamProxy.Handler.Steps.Chunks.{IsIn-cases}
use iptv2hdhr.StreamProxy.Handler.Steps.Queues.{AllOpen, close_all_ne, deregister-sub}

-- The client `k` of the session `i`, whose request stands at a phase and has written something, and
-- no signal to it is due.
abbrev pub client_of : Handler → ℕ → ℕ → Phase → Bytes → Client
client_of h i k phase written = record {
  sub = h.sub k;
  signalling = 0;
  ready = (h.session i).ready;
  err = (h.session i).err;
  phase = phase;
  written = written;
}

push-moves :
    (c : Client) (chunk : Bytes)
    → c.signalling ≡ 0
    → c.sub.closed ≡ false
    → ClientReach c (record c { sub = (push c.sub chunk).0; signalling = 0 })
unfolding push
push-moves c [] z o = subst (λ n. ClientReach c (record c { signalling = n })) z Clients.here
push-moves c (b ∷ chunk) z o =
    Clients.next (Clients.next Clients.here (pushes (b ∷ chunk) (λ e. cc) o))
      (own (signals 0 (ap suc z)))

close-moves :
    (c : Client)
    → c.signalling ≡ 0
    → c.sub.closed ≡ false
    → ClientReach c (record c { sub = close c.sub; signalling = 0 })
unfolding close
close-moves c z o = Clients.next (Clients.next Clients.here (closes o)) (own (signals 0 (ap suc z)))

close_all_in :
    (is : List ℕ) (f : ℕ → Subscriber) (k : ℕ)
    → Distinct is
    → IsIn k is
    → close_all is f k ≡ close (f k)
unfolding close_all
close_all_in [] f k d m = absurd m
close_all_in (i ∷ is) f k d (inl e) =
    rw e (close_all_ne is (update f i (close (f i))) i d.0 ∙ rw ((==_iff i i).1 refl) refl)
close_all_in (i ∷ is) f k d (inr m) =
    close_all_in is (update f i (close (f i))) k d.1 m
    ∙ ap close (elim (Bool-cases (i == k)) [
      | inl same ↦ absurd (d.0 (subst (λ j. IsIn j is) (sym ((==_iff i k).0 same)) m))
      | inr other ↦ rw other refl
    ])

-- A stop closes a queue of the session, or leaves it alone.
stop-sub :
    (h : Handler) (j k : ℕ)
    → Distinct (h.session j).subs
    → ((stop h j).sub k ≡ h.sub k)
      ⊎ (IsIn k (h.session j).subs × ((stop h j).sub k ≡ close (h.sub k)))
unfolding stop
stop-sub h j k d = elim (Bool-cases (h.session j).closed) [
  | inl c ↦ rw (c, stop) (inl refl)
  | inr c ↦
      rw (c, stop)
        (elim (IsIn-cases k (h.session j).subs) [
          | inl m ↦ inr (m, close_all_in (h.session j).subs h.sub k d m)
          | inr out ↦ inl (close_all_ne (h.session j).subs h.sub k out)
        ])
]

module _ (i k : ℕ) (phase : Phase) (written : Bytes) where
  abbrev Moves : Handler → Handler → Type 0
  Moves h h' = ClientReach (client_of h i k phase written) (client_of h' i k phase written)

  module _ (h h' : Handler) where
    -- Only the queue may be changed.
    queue-Moves :
        (s : Subscriber)
        → ClientReach
            (client_of h i k phase written)
            (record (client_of h i k phase written) { sub = s; signalling = 0 })
        → h'.sub k ≡ s
        → Respects h h' i
        → Moves h h'
    queue-Moves s reach e r =
        subst (λ (c : Client). ClientReach (client_of h i k phase written) c)
          (ground (arith, e, r.ready, r.err)) reach

    pub same-Moves : h'.sub k ≡ h.sub k → Respects h h' i → Moves h h'
    same-Moves e r = queue-Moves (h.sub k) Clients.here e r

  pub stop-Moves :
      (h : Handler) (j : ℕ)
      → j < h.session_count
      → Distinct (h.session j).subs
      → AllOpen h
      → Moves h (stop h j)
  stop-Moves h j lj d o = elim (stop-sub h j k d) [
    | inl e ↦ same-Moves h (stop h j) e (stop-Respects h j i)
    | inr (m, e) ↦
        queue-Moves h (stop h j) (close (h.sub k))
          (close-moves (client_of h i k phase written) refl (o j k lj m)) e (stop-Respects h j i)
  ]

  pub stop_old-Moves :
      (h : Handler) (number : Bytes) {output got : ℕ → Bytes}
      → ((j : ℕ) → lookup number h.sessions ≡ some j → j < h.session_count)
      → AllDelivered h output got
      → AllOpen h
      → Moves h (stop_old h number)
  unfolding stop_old
  stop_old-Moves h number made a o = elim (Option-cases (lookup number h.sessions)) [
    | inl e ↦ rw (e, stop_old) Clients.here
    | inr (j, e) ↦ rw (e, stop_old) (stop-Moves h j (made j e) (a.distinct j (made j e)) o)
  ]

  pub register-Moves :
      (h : Handler) (number : Bytes) (stream : Stream)
      → i < h.session_count
      → k < h.sub_count
      → Moves h (register h number stream)
  unfolding register
  register-Moves h number stream li lk =
      let old : (h.session_count == i) ≡ false = ground (arith, ==_iff h.session_count i) in
      let other : (h.sub_count == k) ≡ false = ground (arith, ==_iff h.sub_count k) in
      same-Moves h (register h number stream) (rw other refl)
        (register-Respects h number stream i old)

  pub subscribe-Moves : (h : Handler) (j : ℕ) → k < h.sub_count → Moves h (subscribe h j).0
  unfolding subscribe
  subscribe-Moves h j lk =
      same-Moves h (subscribe h j).0
        (elim (Bool-cases (h.session j).closed) [
          | inl c ↦ rw (c, subscribe) refl
          | inr c ↦ rw (c, subscribe) (ground (arith, ==_iff h.sub_count k))
        ])
        (subscribe-Respects h j i)

  pub broadcast-Moves :
      (h : Handler) (j : ℕ) (chunk : Bytes)
      → j < h.session_count
      → Distinct (h.session j).subs
      → AllOpen h
      → Moves h (broadcast h j chunk)
  broadcast-Moves h j chunk lj d o = elim (IsIn-cases k (h.session j).subs) [
    | inl m ↦
        queue-Moves h (broadcast h j chunk) (push (h.sub k) chunk).0
          (push-moves (client_of h i k phase written) chunk refl (o j k lj m))
          ((broadcast-push h j k chunk d).0 m) (broadcast-Respects h j i chunk)
    | inr out ↦
        same-Moves h (broadcast h j chunk) ((broadcast-push h j k chunk d).1 out)
          (broadcast-Respects h j i chunk)
  ]

  pub deregister-Moves : (h : Handler) (j : ℕ) (number : Bytes) → Moves h (deregister h number j)
  deregister-Moves h j number =
      same-Moves h (deregister h number j) (ap (λ f. f k) (deregister-sub h number j))
        (deregister-Respects h j i number)

  -- `ready` is closed, for a client that waits for it.
  pub fail-Moves : (h : Handler) (j : ℕ) → (h.session j).ready ≡ false → Moves h (fail h j)
  unfolding fail
  fail-Moves h j waits = elim (Bool-cases (j == i)) [
    | inl same ↦ rw same (
        Clients.next Clients.here (
          Clients.starts true
            (subst (λ n. (h.session n).ready ≡ false) ((==_iff j i).0 same) waits)))
    | inr other ↦ rw other Clients.here
  ]

  pub start_output-Moves :
      (h : Handler) (j : ℕ) (content_type : Bytes)
      → (h.session j).ready ≡ false
      → Moves h (start_output h j content_type)
  unfolding start_output
  start_output-Moves h j content_type waits = elim (Bool-cases (j == i)) [
    | inl same ↦ rw same (
        Clients.next Clients.here (
          Clients.starts (h.session j).err
            (subst (λ n. (h.session n).ready ≡ false) ((==_iff j i).0 same) waits)))
    | inr other ↦ rw other Clients.here
  ]

  pub other-Moves :
      (h : Handler) (n : ℕ) (s : Subscriber)
      → (n == k) ≡ false
      → Moves h (record h { sub = update h.sub n s })
  other-Moves h n s other = rw other Clients.here
