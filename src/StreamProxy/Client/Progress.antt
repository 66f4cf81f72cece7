-- ===== src/StreamProxy/Client/Progress.antt =====
-- A client is never left waiting.
use iptv2hdhr.Base.{
  ℕ, zero, suc, ◌+◌, ◌<◌, ◌≤◌, ◌≡◌, ◌∙◌, ◌≢◌, ◌↔◌, ◌-◌, ◌⊎◌, inl, inr, refl, Bool, true, false, [],
  ◌∷◌, ◌||◌, not, Bytes, arith, if◌then◌else◌,
}
use iptv2hdhr.StreamProxy.Subscriber.{Subscriber, take_pending}
use iptv2hdhr.StreamProxy.Client.{
  Client, Phase, awaiting, selecting, notified, writing, done, OwnStep, begins, receives, takes,
  writes, signals, ClientStep, own, starts, pushes, closes, write_fails, gives_up, disconnects,
  ClientReach, here, next, IsJoined,
}

abbrev pub is_nil : Bytes → Bool
is_nil [] = true
is_nil (_ ∷ _) = false

-- There is something to tell the client.
abbrev pub has_news : Subscriber → Bool
has_news sub = not (is_nil sub.pending) || sub.closed

-- The client has yet to look at its queue.
abbrev pub will_wait : Phase → Bool
will_wait awaiting = true
will_wait selecting = true
will_wait notified = false
will_wait (writing bytes closed) = not closed
will_wait (done outcome) = false

abbrev pub is_done : Phase → Bool
is_done (done outcome) = true
is_done _ = false

pub record Wakes (c : Client) : Type 0 where
  pub wakes :
      has_news c.sub ≡ true → will_wait c.phase ≡ true → (c.sub.notify ≡ true) ⊎ (0 < c.signalling)

OwnStep-Wakes : {c d : Client} → OwnStep c d → Wakes c → Wakes d
unfolding take_pending
OwnStep-Wakes {c} (begins p r) w = record { wakes = λ a b. ground (arith, w.wakes a) }
OwnStep-Wakes {c} (receives p n) w = record { wakes = λ a b. cc }
OwnStep-Wakes {c} (takes p) w = record { wakes = λ a b. ground arith }
OwnStep-Wakes {c} (writes bytes closed p) w = record { wakes = λ a b. ground (arith, w.wakes a) }
OwnStep-Wakes {c} (signals n e) w = record { wakes = λ a b. inl refl }

ClientStep-Wakes : {c d : Client} → ClientStep c d → Wakes c → Wakes d
ClientStep-Wakes (own s) w = OwnStep-Wakes s w
ClientStep-Wakes (starts err r) w = record { wakes = w.wakes }
ClientStep-Wakes (pushes chunk h o) w = record { wakes = λ a b. inr (omega arith) }
ClientStep-Wakes (closes o) w = record { wakes = λ a b. inr (omega arith) }
ClientStep-Wakes (write_fails b bytes closed p) w = record { wakes = λ a b. cc }
ClientStep-Wakes (gives_up p) w = record { wakes = λ a b. cc }
ClientStep-Wakes (disconnects p) w = record { wakes = λ a b. cc }

is_nil_iff : (s : Bytes) → (is_nil s ≡ false) ↔ (s ≢ [])
is_nil_iff [] = (λ e. cc, λ e. absurd (e refl))
is_nil_iff (c ∷ s) = (λ _ e. cc, λ _. refl)

IsJoined-Wakes : {c : Client} → IsJoined c → Wakes c
IsJoined-Wakes {c} w = record {
  wakes = λ a b. ground (arith, w.open_queue, is_nil_iff c.sub.pending, w.signalled);
}

ClientReach-Wakes : {b c : Client} → IsJoined b → ClientReach b c → Wakes c
ClientReach-Wakes j here = IsJoined-Wakes j
ClientReach-Wakes j (next r s) = ClientStep-Wakes s (ClientReach-Wakes j r)

enabled :
    (c : Client) (p : Phase)
    → c.phase ≡ p
    → c.ready ≡ true
    → has_news c.sub ≡ true
    → Wakes c
    → (is_done c.phase ≡ true) ⊎ ((d : Client) × OwnStep c d)
enabled c awaiting e r n w = inr (_, begins e r)
enabled c notified e r n w = inr (_, takes e)
enabled c (writing bytes closed) e r n w = inr (_, writes bytes closed e)
enabled c (done outcome) e r n w = inl (rw e refl)
enabled c selecting e r n w = elim (w.wakes n (rw e refl)) [
  | inl noted ↦ inr (_, receives e noted)
  | inr due ↦ inr (_, signals (c.signalling - 1) (omega arith))
]

abbrev phase_rank : Phase → ℕ
phase_rank awaiting = 5
phase_rank selecting = 3
phase_rank notified = 2
phase_rank (writing bytes closed) = if closed then 1 else 4
phase_rank (done outcome) = 0

phase_rank-le : (p : Phase) (n : ℕ) → phase_rank p + n ≤ 5 + n
phase_rank-le awaiting n = omega arith
phase_rank-le selecting n = omega arith
phase_rank-le notified n = omega arith
phase_rank-le (writing bytes closed) n = ground arith
phase_rank-le (done outcome) n = omega arith

-- What is left to do once the queue is closed, in steps.
abbrev pub rank : Client → ℕ
rank c = phase_rank c.phase + c.signalling

OwnStep-rank :
    {c d : Client} → OwnStep c d → c.sub.closed ≡ true → (rank d < rank c) × (d.sub.closed ≡ true)
unfolding take_pending
OwnStep-rank {c} (begins p r) e = ground arith
OwnStep-rank {c} (receives p n) e = ground arith
OwnStep-rank {c} (takes p) e = ground arith
OwnStep-rank {c} (writes bytes closed p) e = ground arith
OwnStep-rank {c} (signals n s) e = ground arith

-- The request ends after at most so many of these steps, in whatever order they are taken, and until
-- then there is one to take.
pub EndsWithin : ℕ → Client → Type 0
EndsWithin zero c = is_done c.phase ≡ true
EndsWithin (suc n) c =
    (is_done c.phase ≡ true)
    ⊎ (((d : Client) × OwnStep c d) × ((d : Client) → OwnStep c d → EndsWithin n d))

-- However the session and its clients have run: a request whose session is past its startup and whose
-- queue holds data or is closed has ended, or it has a step to take, or a signal is due that wakes
-- it. No wake-up is lost.
pub waiting_client-wakes :
    {b c : Client}
    → IsJoined b
    → ClientReach b c
    → c.ready ≡ true
    → has_news c.sub ≡ true
    → (is_done c.phase ≡ true) ⊎ ((d : Client) × OwnStep c d)
waiting_client-wakes {b} {c} j r ready news =
    enabled c c.phase refl ready news (ClientReach-Wakes j r)

OwnStep-ready : {c d : Client} → OwnStep c d → d.ready ≡ c.ready
OwnStep-ready (begins p r) = refl
OwnStep-ready (receives p n) = refl
OwnStep-ready (takes p) = refl
OwnStep-ready (writes bytes closed p) = refl
OwnStep-ready (signals n s) = refl

rank_done : (c : Client) (p : Phase) → c.phase ≡ p → rank c ≤ 0 → is_done c.phase ≡ true
rank_done c awaiting e h = absurd (ground arith)
rank_done c selecting e h = absurd (ground arith)
rank_done c notified e h = absurd (ground arith)
rank_done c (writing bytes closed) e h = absurd (ground arith)
rank_done c (done outcome) e h = rw e refl

ends_within :
    (n : ℕ) (c : Client)
    → rank c ≤ n
    → c.ready ≡ true
    → c.sub.closed ≡ true
    → Wakes c
    → EndsWithin n c
unfolding EndsWithin
ends_within zero c le ready closed w = rank_done c c.phase refl le
ends_within (suc n) c le ready closed w = elim (enabled c c.phase refl ready (ground arith) w) [
  | inl ended ↦ inl ended
  | inr step ↦ inr (
    step,
    λ d s.
        ends_within n d (omega (arith, OwnStep-rank s closed)) (OwnStep-ready s ∙ ready)
          (OwnStep-rank s closed).1 (OwnStep-Wakes s w),
  )
]

-- However the session and its clients have run: once the queue of a request is closed and startup is
-- over, the request ends after at most 5 steps of its own and the signals that are due, in any order,
-- and until it has ended there is such a step to take.
pub closed_client-ends :
    {b c : Client}
    → IsJoined b
    → ClientReach b c
    → c.ready ≡ true
    → c.sub.closed ≡ true
    → EndsWithin (5 + c.signalling) c
closed_client-ends {b} {c} j r ready closed =
    ends_within (5 + c.signalling) c (phase_rank-le c.phase c.signalling) ready closed
      (ClientReach-Wakes j r)
