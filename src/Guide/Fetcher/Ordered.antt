-- ===== src/Guide/Fetcher/Ordered.antt =====
-- The programmes of a channel in the order in which they start, where all starts are timestamps.
use iptv2hdhr.Base.{
  ◌≡◌, ◌≤◌, refl, sym, subst, Bool, false, Option, none, some, List, [], ◌∷◌, All, ltb, arith,
}
use iptv2hdhr.Guide.Xmltv.{Programme, TimeFormat, Time}
use iptv2hdhr.Guide.Sorting.{Sorter, Sorted, Agree, IsStrictWeak}
use iptv2hdhr.Guide.Fetcher.{earlier}

abbrev time_or_zero : Option Time → Time
time_or_zero none = 0
time_or_zero (some t) = t

-- When a programme starts; 0 if its start is no timestamp.
abbrev pub start_time : TimeFormat → Programme → Time
start_time tf p = time_or_zero (tf.parse_time p.start)

pub record IsTimed (tf : TimeFormat) (p : Programme) : Type 0 where
  pub at : Time
  pub parsed : tf.parse_time p.start ≡ some at

-- No programme starts before one that stands in front of it.
abbrev pub InOrder : TimeFormat → List Programme → Type 0
InOrder tf [] = Unit
InOrder tf (p ∷ ps) = All (λ q. start_time tf p ≤ start_time tf q) ps × InOrder tf ps

module _ (tf : TimeFormat) where
  abbrev by_start : Programme → Programme → Bool
  by_start p q = ltb (start_time tf p) (start_time tf q)

  by_start-IsStrictWeak : IsStrictWeak by_start
  by_start-IsStrictWeak = record {
    irreflexive = λ x. ground arith;
    transitive = λ x y z a b. ground (arith, a, b);
    incomparable = λ x y z a b. ground (arith, a, b);
  }

  earlier-by_start : (p q : Programme) → IsTimed tf p → IsTimed tf q → earlier tf p q ≡ by_start p q
  unfolding earlier
  earlier-by_start p q a b = rw (earlier, a.parsed, b.parsed) refl

  agree_with :
      (p : Programme) (ps : List Programme)
      → IsTimed tf p
      → All (IsTimed tf) ps
      → All (λ q. (earlier tf p q ≡ by_start p q) × (earlier tf q p ≡ by_start q p)) ps
  agree_with p [] a h = tt
  agree_with p (q ∷ ps) a h =
      ((earlier-by_start p q a h.0, earlier-by_start q p h.0 a), agree_with p ps a h.1)

  agree : (ps : List Programme) → All (IsTimed tf) ps → Agree (earlier tf) by_start ps
  agree [] h = tt
  agree (p ∷ ps) h = (agree_with p ps h.0 h.1, agree ps h.1)

  Sorted-InOrder : (ps : List Programme) → Sorted by_start ps → InOrder tf ps
  Sorted-InOrder [] s = tt
  Sorted-InOrder (p ∷ ps) s = (not_before p ps s.0, Sorted-InOrder ps s.1)
    where
      not_before :
          (p : Programme) (ps : List Programme)
          → All (λ q. by_start q p ≡ false) ps
          → All (λ q. start_time tf p ≤ start_time tf q) ps
      not_before p [] h = tt
      not_before p (q ∷ ps) h = (ground (arith, h.0), not_before p ps h.1)

  agree_self :
      (ps : List Programme) → All (IsTimed tf) ps → All (λ p. earlier tf p p ≡ by_start p p) ps
  agree_self [] h = tt
  agree_self (p ∷ ps) h = (earlier-by_start p p h.0 h.0, agree_self ps h.1)

  -- Sorted with the test of the source, programmes whose starts are all timestamps are in order.
  pub sort_slice-InOrder :
      (sorter : Sorter Programme) (ps : List Programme)
      → All (IsTimed tf) ps
      → InOrder tf (sorter.sort_slice (earlier tf) ps)
  sort_slice-InOrder sorter ps h =
      subst (InOrder tf)
        (sym (sorter.agrees (earlier tf) by_start ps (agree_self ps h) (agree ps h)))
        (Sorted-InOrder _ (sorter.sorts by_start ps by_start-IsStrictWeak))
