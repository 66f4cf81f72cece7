-- ===== src/Guide/Filler/Clip.antt =====
-- What `clipToWindow` returns: programmes within the window, on whole seconds.
use iptv2hdhr.Base.{
  ◌≤◌, ◌<◌, ◌%◌, ◌≡◌, refl, subst, not, ◌||◌, inl, inr, Option, none, some, List, [], ◌∷◌, arith,
  ltb, Bool-cases, Option-cases, All,
}
use mathlib.Core.List.{Permᴰ}
use iptv2hdhr.Guide.Xmltv.{Programme, TimeFormat, Time, second}
use iptv2hdhr.Guide.Filler.{clip, clip_times, clip_start, clip_stop, clip_all, cons_clipped}
use iptv2hdhr.Guide.Filler.Blocks.{IsWhole}

-- The timestamps of a source, where it has any, carry no fraction of a second.
pub record HasWholeTimes (tf : TimeFormat) (p : Programme) : Type 0 where
  pub start_whole : (t : Time) → tf.parse_time p.start ≡ some t → t % second ≡ 0
  pub stop_whole : (t : Time) → tf.parse_time p.stop ≡ some t → t % second ≡ 0

-- A programme of positive length within the window, with timestamps as the program writes them.
pub record IsClipped (tf : TimeFormat) (window_start window_end : Time) (p : Programme)
    : Type 0 where
  pub start : Time
  pub stop : Time
  pub start_text : p.start ≡ tf.format_time start
  pub stop_text : p.stop ≡ tf.format_time stop
  pub start_whole : IsWhole tf start
  pub stop_whole : IsWhole tf stop
  pub after_start : window_start ≤ start
  pub positive : start < stop
  pub before_end : stop ≤ window_end

abbrev pub OnSome {ℓ κ} : {A : Type ℓ} → (A → Type κ) → Option A → Type κ
OnSome P none = Unit
OnSome P (some a) = P a

pub All-Permᴰ {ℓ κ} :
    {A : Type ℓ} (P : A → Type κ) {xs ys : List A} → Permᴰ xs ys → All P xs → All P ys
All-Permᴰ P Permᴰ.nil h = h
All-Permᴰ P (Permᴰ.cons e p) h = (subst P e h.0, All-Permᴰ P p h.1)
All-Permᴰ P (Permᴰ.swap e f) h = (subst P f h.1.0, (subst P e h.0, h.1.1))
All-Permᴰ P (Permᴰ.trans p q) h = All-Permᴰ P q (All-Permᴰ P p h)

module _ (tf : TimeFormat) (ws we : Time) (s : IsWhole tf ws) (e : IsWhole tf we)
    (lt : ws < we) where
  clip_times-IsClipped :
      (p : Programme) (start stop : Time)
      → start % second ≡ 0
      → stop % second ≡ 0
      → OnSome (IsClipped tf ws we) (clip_times tf ws we p start stop)
  unfolding clip_times
  clip_times-IsClipped p start stop a b =
      elim (Bool-cases (not (ltb ws stop) || not (ltb start we))) [
        | inl outside ↦ rw outside tt
        | inr inside ↦ rw inside (elim (Bool-cases (not (ltb begin finish))) [
          | inl empty ↦ rw empty tt
          | inr positive ↦ rw positive (record {
            start = begin;
            stop = finish;
            start_text = refl;
            stop_text = refl;
            start_whole = record {
              whole = ground (arith, s.whole);
              in_range = ground (arith, e.in_range);
            };
            stop_whole = record {
              whole = ground (arith, e.whole);
              in_range = ground (arith, e.in_range);
            };
            after_start = ground arith;
            positive = ground arith;
            before_end = ground arith;
          })
        ])
      ]
    where
      begin : Time
      begin = clip_start ws start

      finish : Time
      finish = clip_stop we stop

  clip-IsClipped :
      (p : Programme) → HasWholeTimes tf p → OnSome (IsClipped tf ws we) (clip tf ws we p)
  unfolding clip
  clip-IsClipped p h = elim (Option-cases (tf.parse_time p.start)) [
    | inl no_start ↦ rw (no_start, clip) tt
    | inr (start, at) ↦ elim (Option-cases (tf.parse_time p.stop)) [
      | inl no_stop ↦ rw (at, clip) (rw (no_stop, clip) tt)
      | inr (stop, until) ↦
          rw (at, clip)
            (rw (until, clip)
              (clip_times-IsClipped p start stop (h.start_whole start at)
                (h.stop_whole stop until)))
    ]
  ]

  pub clip_all-IsClipped :
      (ps : List Programme)
      → All (HasWholeTimes tf) ps
      → All (IsClipped tf ws we) (clip_all tf ws we ps)
  unfolding clip_all
  clip_all-IsClipped [] h = tt
  clip_all-IsClipped (p ∷ ps) h =
      add (clip tf ws we p) (clip_all tf ws we ps) (clip-IsClipped p h.0)
        (clip_all-IsClipped ps h.1)
    where
      add :
          (o : Option Programme) (rest : List Programme)
          → OnSome (IsClipped tf ws we) o
          → All (IsClipped tf ws we) rest
          → All (IsClipped tf ws we) (cons_clipped o rest)
      add none rest k l = l
      add (some q) rest k l = (k, l)
