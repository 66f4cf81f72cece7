-- ===== src/StreamProxy/Handler/Steps/Sessions.antt =====
-- What holds of each session: an ended one has let go of everything, and one without clients is
-- scheduled to end.
use iptv2hdhr.Base.{
  ℕ, ◌<◌, ◌≡◌, refl, true, false, inl, inr, [], arith, ◌==◌, Bytes, lookup, Bool-cases,
  Option-cases,
}
use iptv2hdhr.Lineup.{Stream}
use iptv2hdhr.StreamProxy.Session.{Session}
use iptv2hdhr.StreamProxy.Handler.{
  Handler, update, create, register, stop_old, subscribe, unsubscribe, deregister, stop, broadcast,
  fail, start_output, wake, take,
}
use iptv2hdhr.StreamProxy.Handler.Steps.{
  World, Step, creates, finds, joins, wakes, takes, cancels, leaves, expires, finishes, takes_out,
  ends, deregisters, stops, broadcasts, fails, starts, Reach, here, next, IsStart,
}

-- An ended session has no subscribers and no timer; a session that has not ended and has no subscribers
-- has its idle timer set.
pub record IsTidy (s : Session) : Type 0 where
  pub ended : s.closed ≡ true → (s.subs ≡ []) × (s.idle_timer ≡ false)
  pub scheduled : s.closed ≡ false → s.subs ≡ [] → s.idle_timer ≡ true

abbrev pub AllTidy : Handler → Type 0
AllTidy h = (i : ℕ) → i < h.session_count → IsTidy (h.session i)

update-IsTidy :
    (h : Handler) (i : ℕ) (s : Session) (j : ℕ)
    → IsTidy s
    → IsTidy (h.session j)
    → IsTidy (update h.session i s j)
update-IsTidy h i s j t u = elim (Bool-cases (i == j)) [ inl e ↦ rw e t | inr e ↦ rw e u ]

module _ (h : Handler) (i : ℕ) (t : AllTidy h) where
  -- A step on a session that was never made changes nothing that is made.
  IsTidy-at :
      (s : Session)
      → (IsTidy (h.session i) → IsTidy s)
      → (j : ℕ) → j < h.session_count
      → IsTidy (update h.session i s j)
  IsTidy-at s f j lt = elim (Bool-cases (i == j)) [
    | inl e ↦ rw e (f (t i (ground arith)))
    | inr e ↦ rw e (t j lt)
  ]

  stop-AllTidy : AllTidy (stop h i)
  unfolding stop
  stop-AllTidy = elim (Bool-cases (h.session i).closed) [
    | inl c ↦ rw (c, stop) t
    | inr c ↦
        rw (c, stop) (IsTidy-at _ λ _. record { ended = λ _. (refl, refl); scheduled = λ e. cc })
  ]

  subscribe-AllTidy : AllTidy (subscribe h i).0
  unfolding subscribe
  subscribe-AllTidy = elim (Bool-cases (h.session i).closed) [
    | inl c ↦ rw (c, subscribe) t
    | inr c ↦
        rw (c, subscribe)
          (IsTidy-at _ λ _. record { ended = λ e. ground arith; scheduled = λ e n. cc })
  ]

  unsubscribe-AllTidy : (sub : ℕ) → AllTidy (unsubscribe h i sub)
  unfolding unsubscribe
  unsubscribe-AllTidy sub = elim (Bool-cases (h.session i).closed) [
    | inl c ↦ rw (c, unsubscribe) t
    | inr c ↦
        rw (c, unsubscribe)
          (IsTidy-at _
            λ _. record { ended = λ e. ground arith; scheduled = λ e n. rw (n, unsubscribe) refl })
  ]

  broadcast-AllTidy : (chunk : Bytes) → AllTidy (broadcast h i chunk)
  unfolding broadcast
  broadcast-AllTidy chunk = IsTidy-at _ λ u. record { ended = u.ended; scheduled = u.scheduled }

  fail-AllTidy : AllTidy (fail h i)
  unfolding fail
  fail-AllTidy = IsTidy-at _ λ u. record { ended = u.ended; scheduled = u.scheduled }

  start_output-AllTidy : (content_type : Bytes) → AllTidy (start_output h i content_type)
  unfolding start_output
  start_output-AllTidy content_type =
      IsTidy-at _ λ u. record { ended = u.ended; scheduled = u.scheduled }

register-AllTidy :
    (h : Handler) (number : Bytes) (stream : Stream)
    → AllTidy h
    → AllTidy (register h number stream)
unfolding register
register-AllTidy h number stream t i lt = elim (Bool-cases (h.session_count == i)) [
  | inl e ↦ rw e (record { ended = λ c. cc; scheduled = λ c n. cc })
  | inr e ↦ rw e (t i (ground arith))
]

create-AllTidy :
    (h : Handler) (number : Bytes) (stream : Stream) → AllTidy h → AllTidy (create h number stream)
unfolding create stop_old
create-AllTidy h number stream t = elim (Option-cases (lookup number h.sessions)) [
  | inl e ↦ rw (e, stop_old) (register-AllTidy h number stream t)
  | inr (i, e) ↦ rw (e, stop_old) (register-AllTidy (stop h i) number stream (stop-AllTidy h i t))
]

deregister-AllTidy :
    (h : Handler) (number : Bytes) (i : ℕ) → AllTidy h → AllTidy (deregister h number i)
unfolding deregister
deregister-AllTidy h number i t = elim (Option-cases (lookup number h.sessions)) [
  | inl e ↦ rw (e, deregister) t
  | inr (j, e) ↦
      rw (e, deregister)
        (elim (Bool-cases (j == i)) [ inl same ↦ rw same t | inr other ↦ rw other t ])
]

Step-AllTidy : {w x : World} → Step w x → AllTidy w.handler → AllTidy x.handler
unfolding wake take
Step-AllTidy {w} (creates number stream _ _) t = create-AllTidy w.handler number stream t
Step-AllTidy (finds number stream i _ _) t = t
Step-AllTidy {w} (joins i _) t = subscribe-AllTidy w.handler i t
Step-AllTidy (wakes k _ _) t = t
Step-AllTidy (takes k _) t = t
Step-AllTidy {w} (leaves i sub) t = unsubscribe-AllTidy w.handler i t sub
Step-AllTidy (cancels i _) t = t
Step-AllTidy (expires i _) t = t
Step-AllTidy {w} (deregisters i _ _) t = deregister-AllTidy w.handler _ i t
Step-AllTidy {w} (stops i _ _) t = stop-AllTidy w.handler i t
Step-AllTidy {w} (broadcasts i chunk _ _ _) t = broadcast-AllTidy w.handler i t chunk
Step-AllTidy {w} (fails i _) t = fail-AllTidy w.handler i t
Step-AllTidy {w} (starts i content_type _) t = start_output-AllTidy w.handler i t content_type
Step-AllTidy (finishes i _) t = t
Step-AllTidy {w} (takes_out i _ _) t = deregister-AllTidy w.handler _ i t
Step-AllTidy {w} (ends i _) t = stop-AllTidy w.handler i t

pub Reach-AllTidy : {v w : World} → IsStart v → Reach v w → AllTidy w.handler
Reach-AllTidy s here = λ i lt. absurd (omega (arith, s.none_given))
Reach-AllTidy s (next r st) = Step-AllTidy st (Reach-AllTidy s r)
