-- ===== src/StreamProxy/Handler/Registered.antt =====
-- The registry of sessions, and what each operation of the handler does to it.
use iptv2hdhr.Base.{
  List, ℕ, ◌<◌, ◌≡◌, ◌≢◌, refl, sym, ap, subst, ◌∙◌, Bool, true, false, ◌⊎◌, inl, inr, some, arith,
  ◌==◌, ==_iff, Bytes, lookup, lookup-insert, remove, lookup-remove, equal, equal_iff, equal_refl,
  Bool-cases, Option-cases,
}
use iptv2hdhr.Lineup.{Stream}
use iptv2hdhr.StreamProxy.Session.{Session}
use iptv2hdhr.StreamProxy.Handler.{
  Handler, update, create, register, stop_old, subscribe, unsubscribe, deregister, stop, broadcast,
  fail, start_output, wake, take,
}

abbrev pub IsOpen : Handler → ℕ → Type 0
IsOpen h i = (h.session i).closed ≡ false

-- A number leads to a session of that number; a session that has not ended is registered, or a
-- goroutine is about to stop it.
pub record IsRegistered (h : Handler) (stopping : ℕ → Bool) : Type 0 where
  pub points :
      (n : Bytes) (i : ℕ)
      → lookup n h.sessions ≡ some i
      → (i < h.session_count) × ((h.session i).number ≡ n)
  pub live :
      (i : ℕ)
      → i < h.session_count
      → IsOpen h i
      → (lookup (h.session i).number h.sessions ≡ some i) ⊎ (stopping i ≡ true)

-- What most operations do to the sessions: none is renumbered, and none that has ended reopens.
pub record Ages (h k : Handler) : Type 0 where
  registry : k.sessions ≡ h.sessions
  pub count : k.session_count ≡ h.session_count
  numbers : (i : ℕ) → (k.session i).number ≡ (h.session i).number
  closing : (i : ℕ) → IsOpen k i → IsOpen h i

update-Ages :
    (h : Handler) (i : ℕ) (s : Session) (j : ℕ)
    → s.number ≡ (h.session i).number
    → (s.closed ≡ false → IsOpen h i)
    → ((update h.session i s j).number ≡ (h.session j).number)
      × ((update h.session i s j).closed ≡ false → IsOpen h j)
update-Ages h i s j e c = elim (Bool-cases (i == j)) [
  | inl same ↦ let e' : i ≡ j = (==_iff i j).0 same in rw same (rw (← e') (e, c))
  | inr other ↦ rw other (refl, λ o. o)
]

-- An operation that writes one session.
Ages-of_update :
    (h k : Handler) (i : ℕ) (s : Session)
    → k.sessions ≡ h.sessions
    → k.session_count ≡ h.session_count
    → k.session ≡ update h.session i s
    → s.number ≡ (h.session i).number
    → (s.closed ≡ false → IsOpen h i)
    → Ages h k
Ages-of_update h k i s r n w e c = record {
  registry = r;
  count = n;
  numbers = λ j. rw w (update-Ages h i s j e c).0;
  closing = λ j. rw w (update-Ages h i s j e c).1;
}

Ages-refl : (h : Handler) → Ages h h
Ages-refl h = record { registry = refl; count = refl; numbers = λ j. refl; closing = λ j o. o }

module _ (h : Handler) (i : ℕ) where
  pub stop-Ages : Ages h (stop h i)
  unfolding stop
  stop-Ages = elim (Bool-cases (h.session i).closed) [
    | inl c ↦ rw (c, stop) (Ages-refl h)
    | inr c ↦ rw (c, stop) (Ages-of_update h _ i _ refl refl refl refl (λ o. c))
  ]

  pub wake-Ages : Ages h (wake h i)
  unfolding wake
  wake-Ages = record { registry = refl; count = refl; numbers = λ j. refl; closing = λ j o. o }

  pub cancelling-Ages : (is : List ℕ) → Ages h (record h { cancelling = is })
  cancelling-Ages is = record {
    registry = refl;
    count = refl;
    numbers = λ j. refl;
    closing = λ j o. o;
  }

  pub take-Ages : Ages h (take h i)
  unfolding take
  take-Ages = record { registry = refl; count = refl; numbers = λ j. refl; closing = λ j o. o }

  pub subscribe-Ages : Ages h (subscribe h i).0
  unfolding subscribe
  subscribe-Ages = elim (Bool-cases (h.session i).closed) [
    | inl c ↦ rw (c, subscribe) (Ages-refl h)
    | inr c ↦ rw (c, subscribe) (Ages-of_update h _ i _ refl refl refl refl (λ o. c))
  ]

  pub unsubscribe-Ages : (sub : ℕ) → Ages h (unsubscribe h i sub)
  unfolding unsubscribe
  unsubscribe-Ages sub = elim (Bool-cases (h.session i).closed) [
    | inl c ↦ rw (c, unsubscribe) (Ages-refl h)
    | inr c ↦ rw (c, unsubscribe) (Ages-of_update h _ i _ refl refl refl refl (λ o. c))
  ]

  pub broadcast-Ages : (chunk : Bytes) → Ages h (broadcast h i chunk)
  unfolding broadcast
  broadcast-Ages chunk = Ages-of_update h _ i _ refl refl refl refl (λ o. o)

  pub fail-Ages : Ages h (fail h i)
  unfolding fail
  fail-Ages = Ages-of_update h _ i _ refl refl refl refl (λ o. o)

  pub start_output-Ages : (content_type : Bytes) → Ages h (start_output h i content_type)
  unfolding start_output
  start_output-Ages content_type = Ages-of_update h _ i _ refl refl refl refl (λ o. o)

pub Ages-IsRegistered :
    {h k : Handler} {stopping : ℕ → Bool}
    → Ages h k
    → IsRegistered h stopping
    → IsRegistered k stopping
Ages-IsRegistered {h} {k} {stopping} a w = record {
  points = λ n i e.
      let (lt, num) = w.points n i (subst (λ m. lookup n m ≡ some i) a.registry e) in
      (omega (arith, a.count), a.numbers i ∙ num);
  live = λ i lt o.
      subst (λ m. (lookup m k.sessions ≡ some i) ⊎ (stopping i ≡ true)) (sym (a.numbers i))
        (subst (λ m. (lookup (h.session i).number m ≡ some i) ⊎ (stopping i ≡ true))
          (sym a.registry) (w.live i (omega (arith, a.count)) (a.closing i o)));
}

-- What is said of the sessions that are about to be stopped, said of others.
pub weaken-IsRegistered :
    {h : Handler} {stopping other : ℕ → Bool}
    → ((i : ℕ) → IsOpen h i → stopping i ≡ true → other i ≡ true)
    → IsRegistered h stopping
    → IsRegistered h other
weaken-IsRegistered f w = record {
  points = w.points;
  live = λ i lt o. elim (w.live i lt o) [ inl r ↦ inl r | inr e ↦ inr (f i o e) ];
}

-- The stop that a goroutine was about to make is made.
pub stop-IsRegistered :
    (h : Handler) (i : ℕ) {stopping other : ℕ → Bool}
    → ((j : ℕ) → (i == j) ≡ false → stopping j ≡ true → other j ≡ true)
    → IsRegistered h stopping
    → IsRegistered (stop h i) other
stop-IsRegistered h i f w =
    weaken-IsRegistered
      (λ j o s. elim (Bool-cases (i == j)) [
        | inl same ↦ absurd (stop_closes i j ((==_iff i j).0 same) o)
        | inr apart ↦ f j apart s
      ])
      (Ages-IsRegistered (stop-Ages h i) w)
  where
    stop_closes : (i j : ℕ) → i ≡ j → IsOpen (stop h i) j → ⊥
    stop_closes i j e o = unfold stop in ground arith

removed-IsRegistered :
    (h : Handler) (i : ℕ) (stopping : ℕ → Bool)
    → lookup (h.session i).number h.sessions ≡ some i
    → stopping i ≡ true
    → IsRegistered h stopping
    → IsRegistered (record h { sessions = remove (h.session i).number h.sessions }) stopping
removed-IsRegistered h i stopping e about w = record {
  points = λ m k at. w.points m k (ground (arith, lookup-remove (h.session i).number m h.sessions));
  live = λ k lt o. elim (w.live k lt o) [ inl r ↦ still k r | inr s ↦ inr s ];
}
  where
    still :
        (k : ℕ)
        → lookup (h.session k).number h.sessions ≡ some k
        → (lookup (h.session k).number (remove (h.session i).number h.sessions) ≡ some k)
          ⊎ (stopping k ≡ true)
    still k r = elim (Bool-cases (equal (h.session i).number (h.session k).number)) [
      | inl same ↦ inr (
          ground (arith, ap (λ n. lookup n h.sessions) ((equal_iff (h.session i).number _).0 same)))
      | inr other ↦
          inl (ground (arith, lookup-remove (h.session i).number (h.session k).number h.sessions))
    ]

-- A session that is taken out is not registered, and no session is changed.
pub deregister-kept :
    (h : Handler) (number : Bytes) (i : ℕ)
    → ((deregister h number i).session ≡ h.session)
      × ((deregister h number i).sub ≡ h.sub)
      × (lookup number (deregister h number i).sessions ≢ some i)
unfolding deregister
deregister-kept h number i = elim (Option-cases (lookup number h.sessions)) [
  | inl absent ↦ rw (absent, deregister) (refl, refl, λ e. cc)
  | inr (j, there) ↦ elim (Bool-cases (j == i)) [
    | inl same ↦
        rw (there, same, deregister)
          (
            refl,
            refl,
            λ e. ground (arith, lookup-remove number number h.sessions, equal_refl number),
          )
    | inr other ↦ rw (there, other, deregister) (refl, refl, λ e. ground (arith, ==_iff j i))
  ]
]

pub deregister-session_count :
    (h : Handler) (number : Bytes) (i : ℕ) → (deregister h number i).session_count ≡ h.session_count
unfolding deregister
deregister-session_count h number i = ground arith

-- A goroutine that is now about to stop the session takes it out.
pub deregister-IsRegistered :
    (h : Handler) (i : ℕ) {stopping : ℕ → Bool}
    → stopping i ≡ true
    → IsRegistered h stopping
    → IsRegistered (deregister h (h.session i).number i) stopping
unfolding deregister
deregister-IsRegistered h i {stopping} about w =
    elim (Option-cases (lookup (h.session i).number h.sessions)) [
      | inl e ↦ rw (e, deregister) w
      | inr (j, e) ↦
          rw (e, deregister)
            (elim (Bool-cases (j == i)) [
              | inl same ↦ rw same (removed-IsRegistered h i stopping (ground arith) about w)
              | inr other ↦ rw other w
            ])
    ]

-- The session that is to be replaced is stopped first.
pub stop_old-Ages : (h : Handler) (number : Bytes) → Ages h (stop_old h number)
unfolding stop_old
stop_old-Ages h number = elim (Option-cases (lookup number h.sessions)) [
  | inl e ↦ rw (e, stop_old) (Ages-refl h)
  | inr (i, e) ↦ rw (e, stop_old) (stop-Ages h i)
]

stop_old_closes :
    (h : Handler) (number : Bytes) (i : ℕ)
    → lookup number (stop_old h number).sessions ≡ some i
    → ((stop_old h number).session i).closed ≡ true
unfolding stop_old stop
stop_old_closes h number i e = ground arith

register-IsRegistered :
    (h : Handler) (number : Bytes) (stream : Stream) {stopping other : ℕ → Bool}
    → ((i : ℕ) → (h.session_count == i) ≡ false → stopping i ≡ true → other i ≡ true)
    → ((i : ℕ) → lookup number h.sessions ≡ some i → (h.session i).closed ≡ true)
    → IsRegistered h stopping
    → IsRegistered (register h number stream) other
unfolding register
register-IsRegistered h number stream f over w = record {
  points = λ m k at. elim (Bool-cases (equal number m)) [
    | inl same ↦
        ground (arith, lookup-insert number m h.session_count h.sessions, equal_iff number m)
    | inr other ↦
        let old : lookup m h.sessions ≡ some k =
          ground (arith, lookup-insert number m h.session_count h.sessions) in
        ground (arith, w.points m k old)
  ];
  live = λ k lt o. elim (Bool-cases (h.session_count == k)) [
    | inl new ↦ inl (
        rw new (
          rw (lookup-insert number number h.session_count h.sessions, equal_refl number)
            (ground arith)))
    | inr old ↦ rw old (elim (w.live k (ground arith) (rw old at o)) [
      | inr s ↦ inr (f k old s)
      | inl r ↦ inl (
          ground (
            arith,
            lookup-insert number (h.session k).number h.session_count h.sessions,
            equal_iff number (h.session k).number,
            over k,
          ))
    ])
  ];
}

pub create-IsRegistered :
    (h : Handler) (number : Bytes) (stream : Stream) {stopping other : ℕ → Bool}
    → ((i : ℕ) → (h.session_count == i) ≡ false → stopping i ≡ true → other i ≡ true)
    → IsRegistered h stopping
    → IsRegistered (create h number stream) other
unfolding create
create-IsRegistered h number stream f w =
    let aged = stop_old-Ages h number in
    register-IsRegistered (stop_old h number) number stream
      (λ i n e. f i (ap (λ m. m == i) (sym aged.count) ∙ n) e) (stop_old_closes h number)
      (Ages-IsRegistered aged w)
