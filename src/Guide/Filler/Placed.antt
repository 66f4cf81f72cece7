-- ===== src/Guide/Filler/Placed.antt =====
-- Where each programme that `BuildChannelProgrammes` returns comes from.
use iptv2hdhr.Base.{
  ℕ, zero, suc, ◌+◌, ◌-◌, ◌≤◌, ◌≡◌, refl, ap, not, ◌&&◌, ◌||◌, ◌⊎◌, inl, inr, Option, none, some,
  List, [], ◌∷◌, arith, ltb, if◌then◌else◌, Bytes, Bool-cases, Option-cases, All, All-append,
}
use iptv2hdhr.Guide.Sorting.{Sorter}
use iptv2hdhr.Guide.Xmltv.{Programme, TimeFormat, Time}
use iptv2hdhr.Guide.Filler.{
  time_of, clip, clip_times, clip_start, clip_stop, clip_all, cons_clipped, dedup, dedup_from,
  starts_before, clip_to_window, fill, gap, filler_blocks, filler_from, filler_block, block_end,
  max_filler_block_duration, build_channel_programmes, real_programmes, Schedule, guide_lookback,
  guide_lookahead,
}
use iptv2hdhr.Guide.Filler.Clip.{All-Permᴰ, OnSome}

-- A source programme, but for its times.
abbrev pub IsRetimed : (Programme → Type 0) → Programme → Type 0
IsRetimed P p = (q : Programme) × P q × (p ≡ record q { start = p.start; stop = p.stop })

module _ (tf : TimeFormat) (channel_id channel_name : Bytes) where
  -- A filler block of at most six hours.
  abbrev pub IsFiller : Programme → Type 0
  IsFiller p =
      (start : Time) × (stop : Time) × (p ≡ filler_block tf channel_id channel_name start stop)
      × (stop ≤ start + max_filler_block_duration)

  -- Filler, or a source programme under the channel's stable id, with its times clipped.
  abbrev pub IsPlaced : (Programme → Type 0) → Programme → Type 0
  IsPlaced P p =
      IsFiller p
      ⊎ ((q : Programme) × P q
          × (p ≡ record q { channel = channel_id; start = p.start; stop = p.stop }))

  module _ (P : Programme → Type 0) where
    filler_from-IsPlaced :
        (fuel : ℕ) (cursor end : Time)
        → All (IsPlaced P) (filler_from tf channel_id channel_name fuel cursor end)
    unfolding filler_from
    filler_from-IsPlaced zero cursor end = tt
    filler_from-IsPlaced (suc fuel) cursor end = elim (Bool-cases (ltb cursor end)) [
      | inl more ↦ rw more (
        inl (cursor, block_end cursor end, refl, ground arith),
        filler_from-IsPlaced fuel (block_end cursor end) end,
      )
      | inr done ↦ rw done tt
    ]

    gap-IsPlaced :
        (cursor start : Time) → All (IsPlaced P) (gap tf channel_id channel_name cursor start)
    unfolding gap filler_blocks
    gap-IsPlaced cursor start = elim (Bool-cases (ltb cursor start)) [
      | inl more ↦ rw more (filler_from-IsPlaced _ cursor start)
      | inr done ↦ rw done tt
    ]

    fill-IsPlaced :
        (we cursor : Time) (ps : List Programme)
        → All (IsRetimed P) ps
        → All (IsPlaced P) (fill tf channel_id channel_name we cursor ps)
    unfolding fill
    fill-IsPlaced we cursor [] h = gap-IsPlaced cursor we
    fill-IsPlaced we cursor (p ∷ ps) h =
        All-append (IsPlaced P) (gap tf channel_id channel_name cursor (time_of tf p.start)) _
          (gap-IsPlaced cursor (time_of tf p.start))
          (
            inr (
              h.0.0,
              h.0.1,
              ap {A = Programme} {B = Programme} (λ q. record q { channel = channel_id }) h.0.2,
            ),
            fill-IsPlaced we (if ltb cursor (time_of tf p.stop) then time_of tf p.stop else cursor)
                ps h.1,
          )

module _ (tf : TimeFormat) (P : Programme → Type 0) (ws we : Time) where
  clip-IsRetimed : (p : Programme) → P p → OnSome (IsRetimed P) (clip tf ws we p)
  unfolding clip clip_times
  clip-IsRetimed p h = elim (Option-cases (tf.parse_time p.start)) [
    | inl e ↦ rw (e, clip) tt
    | inr (start, e) ↦ elim (Option-cases (tf.parse_time p.stop)) [
      | inl f ↦ rw (e, clip) (rw (f, clip) tt)
      | inr (stop, f) ↦ rw (e, clip) (rw (f, clip) (times start stop))
    ]
  ]
    where
      times : (start stop : Time) → OnSome (IsRetimed P) (clip_times tf ws we p start stop)
      times start stop = elim (Bool-cases (not (ltb ws stop) || not (ltb start we))) [
        | inl outside ↦ rw outside tt
        | inr inside ↦
            rw inside (elim (Bool-cases (not (ltb (clip_start ws start) (clip_stop we stop)))) [
              | inl empty ↦ rw empty tt
              | inr positive ↦ rw positive (p, h, refl)
            ])
      ]

  clip_all-IsRetimed : (ps : List Programme) → All P ps → All (IsRetimed P) (clip_all tf ws we ps)
  unfolding clip_all
  clip_all-IsRetimed [] h = tt
  clip_all-IsRetimed (p ∷ ps) h =
      add (clip tf ws we p) (clip_all tf ws we ps) (clip-IsRetimed p h.0)
        (clip_all-IsRetimed ps h.1)
    where
      add :
          (o : Option Programme) (rest : List Programme)
          → OnSome (IsRetimed P) o
          → All (IsRetimed P) rest
          → All (IsRetimed P) (cons_clipped o rest)
      add none rest k l = l
      add (some q) rest k l = (k, l)

dedup_from-All :
    (tf : TimeFormat) (P : Programme → Type 0) (prev : Time) (ps : List Programme)
    → All P ps
    → All P (dedup_from tf prev ps)
unfolding dedup_from
dedup_from-All tf P prev [] h = tt
dedup_from-All tf P prev (p ∷ ps) h =
    elim (Bool-cases (not (ltb prev (time_of tf p.start)) && ltb (time_of tf p.start) prev)) [
      | inl skip ↦ rw skip (dedup_from-All tf P prev ps h.1)
      | inr keep ↦ rw keep (h.0, dedup_from-All tf P (time_of tf p.stop) ps h.1)
    ]

dedup-All :
    (tf : TimeFormat) (P : Programme → Type 0) (ps : List Programme)
    → All P ps
    → All P (dedup tf ps)
unfolding dedup
dedup-All tf P [] h = tt
dedup-All tf P (p ∷ ps) h = (h.0, dedup_from-All tf P (time_of tf p.stop) ps h.1)

-- Each programme returned for a channel is a filler block of at most six hours, or a programme that
-- the guide lists under the channel's tvg-id (`P` holds of all of those), unchanged but for its
-- times and the channel's stable id.
pub build_channel_programmes-IsPlaced :
    (tf : TimeFormat) (sorter : Sorter Programme) (index : Option Schedule)
    (tvg_id channel_id channel_name : Bytes) (now : Time) (P : Programme → Type 0)
    → All P (real_programmes index tvg_id)
    → All
        (IsPlaced tf channel_id channel_name P)
        (build_channel_programmes tf sorter index tvg_id channel_id channel_name now)
unfolding build_channel_programmes clip_to_window
build_channel_programmes-IsPlaced tf sorter index tvg_id channel_id channel_name now P h =
    fill-IsPlaced tf channel_id channel_name P _ _ _ (
      dedup-All tf (IsRetimed P) _ (
        All-Permᴰ (IsRetimed P) (sorter.permutes starts_before _)
          (clip_all-IsRetimed tf P (now - guide_lookback) (now + guide_lookahead) _ h)))
