-- ===== src/Guide/Sorting/Insertion.antt =====
-- A sorter that meets the contract: insertion sort, which Go's `sort.Slice` uses on short slices.
use iptv2hdhr.Base.{
  ◌≡◌, Bool, true, false, inl, inr, List, [], ◌∷◌, All, Bool-cases, if◌then◌else◌, refl, ap, ◌∙◌,
}
use mathlib.Core.List.{Permᴰ}
use iptv2hdhr.Guide.Sorting.{Sorter, Sorted, Agree, IsStrictWeak}

module _ {ℓ} {A : Type ℓ} (less : A → A → Bool) where
  place : A → List A → List A
  place x [] = x ∷ []
  place x (y ∷ ys) = let rest = place x ys in if less y x then y ∷ rest else x ∷ y ∷ ys

  pub insertion_sort : List A → List A
  unfolding place
  insertion_sort [] = []
  insertion_sort (x ∷ xs) = place x (insertion_sort xs)

  self : (xs : List A) → Permᴰ xs xs
  self [] = Permᴰ.nil
  self (x ∷ xs) = Permᴰ.cons refl (self xs)

  place-perm : (x : A) (ys : List A) → Permᴰ (x ∷ ys) (place x ys)
  unfolding place
  place-perm x [] = self (x ∷ [])
  place-perm x (y ∷ ys) = elim (Bool-cases (less y x)) [
    | inl before ↦
        rw before (Permᴰ.trans (Permᴰ.swap refl refl) (Permᴰ.cons refl (place-perm x ys)))
    | inr after ↦ rw after (self (x ∷ y ∷ ys))
  ]

  pub insertion_sort-perm : (xs : List A) → Permᴰ xs (insertion_sort xs)
  unfolding insertion_sort
  insertion_sort-perm [] = Permᴰ.nil
  insertion_sort-perm (x ∷ xs) =
      Permᴰ.trans (Permᴰ.cons refl (insertion_sort-perm xs)) (place-perm x (insertion_sort xs))

  module _ (w : IsStrictWeak less) where
    none_below :
        (x y : A) (ys : List A)
        → less y x ≡ false
        → All (λ z. less z y ≡ false) ys
        → All (λ z. less z x ≡ false) ys
    none_below x y [] h k = tt
    none_below x y (z ∷ ys) h k = (w.incomparable z y x k.0 h, none_below x y ys h k.1)

    place-All :
        (x y : A) (ys : List A)
        → less x y ≡ false
        → All (λ z. less z y ≡ false) ys
        → All (λ z. less z y ≡ false) (place x ys)
    unfolding place
    place-All x y [] h k = (h, tt)
    place-All x y (z ∷ ys) h k = elim (Bool-cases (less z x)) [
      | inl before ↦ rw before (k.0, place-All x y ys h k.1)
      | inr after ↦ rw after (h, k)
    ]

    asym : (x y : A) → less y x ≡ true → less x y ≡ false
    asym x y before = elim (Bool-cases (less x y)) [
      | inl both ↦ cc (w.transitive x y x both before, w.irreflexive x)
      | inr after ↦ after
    ]

    place-Sorted : (x : A) (ys : List A) → Sorted less ys → Sorted less (place x ys)
    unfolding place
    place-Sorted x [] s = (tt, tt)
    place-Sorted x (y ∷ ys) s = elim (Bool-cases (less y x)) [
      | inl before ↦ rw before (place-All x y ys (asym x y before) s.0, place-Sorted x ys s.1)
      | inr after ↦ rw after ((after, none_below x y ys after s.0), s)
    ]

    pub insertion_sort-Sorted : (xs : List A) → Sorted less (insertion_sort xs)
    unfolding insertion_sort
    insertion_sort-Sorted [] = tt
    insertion_sort-Sorted (x ∷ xs) = place-Sorted x (insertion_sort xs) (insertion_sort-Sorted xs)

module _ {ℓ} {A : Type ℓ} where
  All-place :
      (P : A → Type 0) (less : A → A → Bool) (x : A) (ys : List A)
      → P x
      → All P ys
      → All P (place less x ys)
  unfolding place
  All-place P less x [] p h = (p, tt)
  All-place P less x (y ∷ ys) p h = elim (Bool-cases (less y x)) [
    | inl before ↦ rw before (h.0, All-place P less x ys p h.1)
    | inr after ↦ rw after (p, h)
  ]

  All-insertion_sort :
      (P : A → Type 0) (less : A → A → Bool) (xs : List A)
      → All P xs
      → All P (insertion_sort less xs)
  unfolding insertion_sort
  All-insertion_sort P less [] h = tt
  All-insertion_sort P less (x ∷ xs) h =
      All-place P less x (insertion_sort less xs) h.0 (All-insertion_sort P less xs h.1)

  place-agrees :
      (less test : A → A → Bool) (x : A) (ys : List A)
      → All (λ y. (less x y ≡ test x y) × (less y x ≡ test y x)) ys
      → place less x ys ≡ place test x ys
  unfolding place
  place-agrees less test x [] h = refl
  place-agrees less test x (y ∷ ys) h = rw (h.0.1, place-agrees less test x ys h.1) refl

  pub insertion_sort-agrees :
      (less test : A → A → Bool) (xs : List A)
      → Agree less test xs
      → insertion_sort less xs ≡ insertion_sort test xs
  unfolding insertion_sort
  insertion_sort-agrees less test [] h = refl
  insertion_sort-agrees less test (x ∷ xs) h =
      ap (place less x) (insertion_sort-agrees less test xs h.1)
      ∙ place-agrees less test x (insertion_sort test xs)
          (All-insertion_sort (λ y. (less x y ≡ test x y) × (less y x ≡ test y x)) test xs h.0)

-- Insertion sort keeps the contract of `sort.Slice`.
unfoldable pub insertion {ℓ} : (A : Type ℓ) → Sorter A
unfolding insertion_sort
insertion A = record {
  sort_slice = insertion_sort;
  permutes = insertion_sort-perm;
  agrees = λ less test xs self h. insertion_sort-agrees less test xs h;
  sorts = λ less xs w. insertion_sort-Sorted less w xs;
}
