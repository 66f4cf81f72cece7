-- ===== src/Guide/Sorting.antt =====
-- The contract of Go's `sort.Slice`, which is not stable: the elements stay, and where the test is a
-- strict weak order none stands behind one that it is less than. The test is asked about the elements
-- of the slice only.
pub mod Insertion
pub mod Texts
use iptv2hdhr.Base.{◌≡◌, Bool, true, false, List, [], ◌∷◌, arith, All}
use mathlib.Core.List.{Permᴰ}

-- Neither later element is less than an earlier one.
abbrev pub Sorted {ℓ} : {A : Type ℓ} → (A → A → Bool) → List A → Type 0
Sorted less [] = Unit
Sorted less (x ∷ xs) = All (λ y. less y x ≡ false) xs × Sorted less xs

pub record IsStrictWeak {ℓ} {A : Type ℓ} (less : A → A → Bool) : Type ℓ where
  pub irreflexive : (x : A) → less x x ≡ false
  pub transitive : (x y z : A) → less x y ≡ true → less y z ≡ true → less x z ≡ true
  pub incomparable : (x y z : A) → less x y ≡ false → less y z ≡ false → less x z ≡ false

-- Two tests that agree on the elements of a list.
abbrev pub Agree {ℓ} : {A : Type ℓ} → (A → A → Bool) → (A → A → Bool) → List A → Type 0
Agree less test [] = Unit
Agree less test (x ∷ xs) =
    All (λ y. (less x y ≡ test x y) × (less y x ≡ test y x)) xs × Agree less test xs

pub record Sorter {ℓ} (A : Type ℓ) : Type ℓ where
  pub sort_slice : (A → A → Bool) → List A → List A
  pub permutes : (less : A → A → Bool) (xs : List A) → Permᴰ xs (sort_slice less xs)
  pub agrees :
      (less test : A → A → Bool) (xs : List A)
      → All (λ x. less x x ≡ test x x) xs
      → Agree less test xs
      → sort_slice less xs ≡ sort_slice test xs
  pub sorts :
      (less : A → A → Bool) (xs : List A) → IsStrictWeak less → Sorted less (sort_slice less xs)
