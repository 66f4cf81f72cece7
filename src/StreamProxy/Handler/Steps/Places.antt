-- ===== src/StreamProxy/Handler/Steps/Places.antt =====
-- What holds of a session by where its goroutine stands, and what the operations of the handler do
-- to that.
use iptv2hdhr.Base.{
  List, ℕ, ◌≡◌, ◌≢◌, refl, sym, ap, subst, ◌∙◌, Bool, true, false, inl, inr, some, arith, ◌==◌,
  ==_iff, Bytes, lookup, insert, lookup-insert, remove, lookup-remove, Bool-cases, Option-cases,
}
use iptv2hdhr.Lineup.{Stream}
use iptv2hdhr.StreamProxy.Session.{Session}
use iptv2hdhr.StreamProxy.Handler.{
  Handler, update, register, stop_old, subscribe, unsubscribe, deregister, stop, broadcast, fail,
  start_output, wake, take,
}
use iptv2hdhr.StreamProxy.Handler.Registered.{deregister-kept}
use iptv2hdhr.StreamProxy.Handler.Steps.{
  RunPc, not_made, starting_up, pumping, leaving, taken_out, run_over,
}

-- Startup is over.
abbrev pub is_past_startup : RunPc → Bool
is_past_startup not_made = false
is_past_startup starting_up = false
is_past_startup _ = true

abbrev pub is_serving : RunPc → Bool
is_serving starting_up = true
is_serving pumping = true
is_serving _ = false

abbrev pub is_out : RunPc → Bool
is_out taken_out = true
is_out run_over = true
is_out _ = false

-- The session `i`, whose goroutine stands at `pc`: `ready` is closed exactly if startup is over; a
-- session that starts or serves has not failed; one that its goroutine has taken out is not
-- registered; and one whose goroutine has returned has ended.
pub record IsAt (h : Handler) (i : ℕ) (pc : RunPc) : Type 0 where
  pub made : pc ≢ not_made
  pub ready : (h.session i).ready ≡ is_past_startup pc
  pub no_failure : is_serving pc ≡ true → (h.session i).err ≡ false
  pub unregistered : is_out pc ≡ true → lookup (h.session i).number h.sessions ≢ some i
  pub closed : pc ≡ run_over → (h.session i).closed ≡ true

-- What the goroutine of the session relies on, whatever the other goroutines do.
pub record Respects (h k : Handler) (i : ℕ) : Type 0 where
  pub ready : (k.session i).ready ≡ (h.session i).ready
  pub err : (k.session i).err ≡ (h.session i).err
  closed : (h.session i).closed ≡ true → (k.session i).closed ≡ true
  unregistered :
      lookup (h.session i).number h.sessions ≢ some i
      → lookup (k.session i).number k.sessions ≢ some i

pub Respects-IsAt :
    {h k : Handler} {i : ℕ} {pc : RunPc} → Respects h k i → IsAt h i pc → IsAt k i pc
Respects-IsAt r a = record {
  made = a.made;
  ready = r.ready ∙ a.ready;
  no_failure = λ e. r.err ∙ a.no_failure e;
  unregistered = λ e. r.unregistered (a.unregistered e);
  closed = λ e. r.closed (a.closed e);
}

pub Respects-refl : (h : Handler) (i : ℕ) → Respects h h i
Respects-refl h i = record { ready = refl; err = refl; closed = λ c. c; unregistered = λ u. u }

-- An operation that writes one session.
Respects-of_update :
    (h k : Handler) (j : ℕ) (s : Session) (i : ℕ)
    → k.sessions ≡ h.sessions
    → k.session ≡ update h.session j s
    → s.ready ≡ (h.session j).ready
    → s.err ≡ (h.session j).err
    → s.number ≡ (h.session j).number
    → ((h.session j).closed ≡ true → s.closed ≡ true)
    → Respects h k i
Respects-of_update h k j s i same w r e n c = record {
  ready = ground (arith, ==_iff j i);
  err = ground (arith, ==_iff j i);
  closed = λ u. ground (arith, ==_iff j i);
  unregistered = λ u at. u (ground (arith, ==_iff j i));
}

module _ (h : Handler) (j i : ℕ) where
  pub wake-Respects : Respects h (wake h j) i
  unfolding wake
  wake-Respects = record { ready = refl; err = refl; closed = λ c. c; unregistered = λ u. u }

  pub cancelling-Respects : (is : List ℕ) → Respects h (record h { cancelling = is }) i
  cancelling-Respects is = record {
    ready = refl;
    err = refl;
    closed = λ c. c;
    unregistered = λ u. u;
  }

  pub take-Respects : Respects h (take h j) i
  unfolding take
  take-Respects = record { ready = refl; err = refl; closed = λ c. c; unregistered = λ u. u }

  pub subscribe-Respects : Respects h (subscribe h j).0 i
  unfolding subscribe
  subscribe-Respects = elim (Bool-cases (h.session j).closed) [
    | inl c ↦ rw (c, subscribe) (Respects-refl h i)
    | inr c ↦
        rw (c, subscribe) (Respects-of_update h _ j _ i refl refl refl refl refl (λ u. sym c ∙ u))
  ]

  pub unsubscribe-Respects : (sub : ℕ) → Respects h (unsubscribe h j sub) i
  unfolding unsubscribe
  unsubscribe-Respects sub = elim (Bool-cases (h.session j).closed) [
    | inl c ↦ rw (c, unsubscribe) (Respects-refl h i)
    | inr c ↦
        rw (c, unsubscribe) (Respects-of_update h _ j _ i refl refl refl refl refl (λ u. sym c ∙ u))
  ]

  pub stop-Respects : Respects h (stop h j) i
  unfolding stop
  stop-Respects = elim (Bool-cases (h.session j).closed) [
    | inl c ↦ rw (c, stop) (Respects-refl h i)
    | inr c ↦ rw (c, stop) (Respects-of_update h _ j _ i refl refl refl refl refl (λ u. refl))
  ]

  pub broadcast-Respects : (chunk : Bytes) → Respects h (broadcast h j chunk) i
  unfolding broadcast
  broadcast-Respects chunk = Respects-of_update h _ j _ i refl refl refl refl refl (λ u. u)

  remove-Respects :
      (number : Bytes) → Respects h (record h { sessions = remove number h.sessions }) i
  remove-Respects number = record {
    ready = refl;
    err = refl;
    closed = λ c. c;
    unregistered = λ u at. u (ground (arith, lookup-remove number (h.session i).number h.sessions));
  }

  pub deregister-Respects : (number : Bytes) → Respects h (deregister h number j) i
  unfolding deregister
  deregister-Respects number = elim (Option-cases (lookup number h.sessions)) [
    | inl e ↦ rw (e, deregister) (Respects-refl h i)
    | inr (k, e) ↦
        rw (e, deregister)
          (elim (Bool-cases (k == j)) [
            | inl same ↦ rw same (remove-Respects number)
            | inr other ↦ rw other (Respects-refl h i)
          ])
  ]

pub stop_old-Respects : (h : Handler) (number : Bytes) (i : ℕ) → Respects h (stop_old h number) i
unfolding stop_old
stop_old-Respects h number i = elim (Option-cases (lookup number h.sessions)) [
  | inl e ↦ rw (e, stop_old) (Respects-refl h i)
  | inr (j, e) ↦ rw (e, stop_old) (stop-Respects h j i)
]

-- A new session takes no other one's place but in the registry.
pub register-Respects :
    (h : Handler) (number : Bytes) (stream : Stream) (i : ℕ)
    → (h.session_count == i) ≡ false
    → Respects h (register h number stream) i
unfolding register
register-Respects h number stream i old = record {
  ready = rw old refl;
  err = rw old refl;
  closed = λ u. rw old u;
  unregistered = λ u at.
      let at' : lookup (h.session i).number (insert number h.session_count h.sessions) ≡ some i =
        rw old at at in
      ground (arith, lookup-insert number (h.session i).number h.session_count h.sessions, old, u);
}

-- The goroutine of `j` takes a step: what it does to its own session, and what it leaves to others.
pub own_step-IsAt :
    (h k : Handler) (j i : ℕ) (run : ℕ → RunPc) (pc : RunPc)
    → ((j == i) ≡ false → Respects h k i)
    → (IsAt h j (run j) → IsAt k j pc)
    → IsAt h i (run i)
    → IsAt k i (update run j pc i)
own_step-IsAt h k j i run pc others own a = elim (Bool-cases (j == i)) [
  | inl same ↦
      let e : j ≡ i = (==_iff j i).0 same in
      rw same (subst (λ n. IsAt k n pc) e (own (subst (λ n. IsAt h n (run n)) (sym e) a)))
  | inr other ↦ rw other (Respects-IsAt (others other) a)
]

pub others-Respects :
    (h k : Handler) (j : ℕ) (s : Session) (i : ℕ)
    → k.sessions ≡ h.sessions
    → k.session ≡ update h.session j s
    → (j == i) ≡ false
    → Respects h k i
others-Respects h k j s i same w other = record {
  ready = ground arith;
  err = ground arith;
  closed = λ u. ground arith;
  unregistered = λ u at. u (ground arith);
}

pub stop_closes : (h : Handler) (i : ℕ) → ((stop h i).session i).closed ≡ true
unfolding stop
stop_closes h i = ground (arith, ==_iff i i)

module _ (h : Handler) (i : ℕ) (pc : RunPc) (a : IsAt h i pc) where
  pub fail-IsAt : pc ≡ starting_up → IsAt (fail h i) i leaving
  unfolding fail
  fail-IsAt at = record {
    made = λ e. cc;
    ready = rw ((==_iff i i).1 refl) refl;
    no_failure = λ e. cc;
    unregistered = λ e. cc;
    closed = λ e. cc;
  }

  pub start_output-IsAt :
      (content_type : Bytes) → pc ≡ starting_up → IsAt (start_output h i content_type) i pumping
  unfolding start_output
  start_output-IsAt content_type at = record {
    made = λ e. cc;
    ready = rw ((==_iff i i).1 refl) refl;
    no_failure = λ e. rw ((==_iff i i).1 refl) (a.no_failure (ap is_serving at));
    unregistered = λ e. cc;
    closed = λ e. cc;
  }

  pub finish-IsAt : pc ≡ pumping → IsAt h i leaving
  finish-IsAt at = record {
    made = λ e. cc;
    ready = a.ready ∙ ap is_past_startup at;
    no_failure = λ e. cc;
    unregistered = λ e. cc;
    closed = λ e. cc;
  }

  pub take_out-IsAt : pc ≡ leaving → IsAt (deregister h (h.session i).number i) i taken_out
  take_out-IsAt at =
      let (same, _, gone) = deregister-kept h (h.session i).number i in
      let at_i = ap (λ f. f i) same in
      record {
        made = λ e. cc;
        ready = ap (λ s. s.ready) at_i ∙ a.ready ∙ ap is_past_startup at;
        no_failure = λ e. cc;
        unregistered = λ e l. gone (
            ap (λ s. lookup s.number (deregister h (h.session i).number i).sessions) (sym at_i)
            ∙ l);
        closed = λ e. cc;
      }

  pub end-IsAt : pc ≡ taken_out → IsAt (stop h i) i run_over
  end-IsAt at =
      let r = stop-Respects h i i in
      record {
        made = λ e. cc;
        ready = r.ready ∙ a.ready ∙ ap is_past_startup at;
        no_failure = λ e. cc;
        unregistered = λ e. r.unregistered (a.unregistered (ap is_out at));
        closed = λ e. stop_closes h i;
      }

pub new-IsAt :
    (h : Handler) (number : Bytes) (stream : Stream)
    → IsAt (register h number stream) h.session_count starting_up
unfolding register
new-IsAt h number stream = record {
  made = λ e. cc;
  ready = rw ((==_iff h.session_count h.session_count).1 refl) refl;
  no_failure = λ e. rw ((==_iff h.session_count h.session_count).1 refl) refl;
  unregistered = λ e. cc;
  closed = λ e. cc;
}
