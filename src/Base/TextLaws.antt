-- ===== src/Base/TextLaws.antt =====
-- Laws of the string functions: `Contains` finds exactly the substrings, and `Cut` cuts at the
-- first separator.
use iptv2hdhr.Base.{
  ℕ, ◌≡◌, ◌↔◌, refl, ap, true, false, none, some, [], ◌∷◌, ◌++◌, arith, Bytes, ◌==◌, Bool-cases,
  Option-cases, has_prefix, contains, cut, split, ==_iff, inl, inr, All,
}

-- `sub` stands somewhere in `s`.
pub record IsInfix (sub s : Bytes) : Type 0 where
  pub before : Bytes
  pub after : Bytes
  pub splits : s ≡ before ++ (sub ++ after)

pub has_prefix-append : (p s : Bytes) → has_prefix (p ++ s) p ≡ true
unfolding has_prefix
has_prefix-append [] [] = refl
has_prefix-append [] (c ∷ s) = refl
has_prefix-append (x ∷ p) s = ground (arith, has_prefix-append p s)

pub has_prefix-rest : (s p : Bytes) → has_prefix s p ≡ true → (r : Bytes) × (s ≡ p ++ r)
unfolding has_prefix
has_prefix-rest s [] h = (s, refl)
has_prefix-rest [] (x ∷ p) h = cc
has_prefix-rest (c ∷ s) (x ∷ p) h =
    let (r, e) = has_prefix-rest s p (ground arith) in (r, ground arith)

contains-head : (s sub : Bytes) → has_prefix s sub ≡ true → contains s sub ≡ true
unfolding contains has_prefix
contains-head [] [] h = refl
contains-head [] (x ∷ p) h = cc
contains-head (c ∷ s) sub h = ground arith

contains_of_infix : (a sub b : Bytes) → contains (a ++ (sub ++ b)) sub ≡ true
unfolding contains
contains_of_infix [] sub b = contains-head (sub ++ b) sub (has_prefix-append sub b)
contains_of_infix (c ∷ a) sub b = ground (arith, contains_of_infix a sub b)

infix_of_contains : (s sub : Bytes) → contains s sub ≡ true → IsInfix sub s
unfolding contains
infix_of_contains [] [] h = record { before = []; after = []; splits = refl }
infix_of_contains [] (x ∷ sub) h = cc
infix_of_contains (c ∷ s) sub h = elim (Bool-cases (has_prefix (c ∷ s) sub)) [
  | inl here ↦
      let (r, e) = has_prefix-rest (c ∷ s) sub here in record { before = []; after = r; splits = e }
  | inr miss ↦
      let rest = infix_of_contains s sub (ground arith) in
      record { before = c ∷ rest.before; after = rest.after; splits = ap (◌∷◌ c) rest.splits }
]

pub contains_iff : (s sub : Bytes) → (contains s sub ≡ true) ↔ IsInfix sub s
contains_iff s sub =
    (infix_of_contains s sub, λ i. rw i.splits (contains_of_infix i.before sub i.after))

-- The byte does not occur.
abbrev pub Lacks : ℕ → Bytes → Type 0
Lacks b s = All (λ c. (c == b) ≡ false) s

pub cut-eq-none : (sep : ℕ) (s : Bytes) → cut sep s ≡ none → Lacks sep s
unfolding cut
cut-eq-none sep [] h = tt
cut-eq-none sep (c ∷ s) h = ground (arith, cut-eq-none sep s)

pub cut-eq-some :
    (sep : ℕ) (s : Bytes) {a b : Bytes} → cut sep s ≡ some (a, b) → Lacks sep a × (s ≡ a ++ sep ∷ b)
unfolding cut
cut-eq-some sep [] h = cc
cut-eq-some sep (c ∷ s) {a} {b} h = elim (Bool-cases (c == sep)) [
  | inl hit ↦ ground arith
  | inr miss ↦ elim (Option-cases (cut sep s)) [
    | inl e ↦ ground arith
    | inr ((x, y), e) ↦ ground (arith, cut-eq-some sep s e)
  ]
]

pub cut-append : (sep : ℕ) (a b : Bytes) → Lacks sep a → cut sep (a ++ sep ∷ b) ≡ some (a, b)
unfolding cut
cut-append sep [] b h = ground (arith, ==_iff sep sep)
cut-append sep (c ∷ a) b h = rw (h.0, cut-append sep a b h.1) refl

pub cut-Lacks : (sep : ℕ) (s : Bytes) → Lacks sep s → cut sep s ≡ none
unfolding cut
cut-Lacks sep [] h = refl
cut-Lacks sep (c ∷ s) h = rw (h.0, cut-Lacks sep s h.1) refl

pub split-append :
    (sep : ℕ) (a b : Bytes) → Lacks sep a → split sep (a ++ sep ∷ b) ≡ a ∷ split sep b
unfolding split
split-append sep [] b h = ground (arith, ==_iff sep sep)
split-append sep (c ∷ a) b h = rw (h.0, split-append sep a b h.1) refl

pub split-Lacks : (sep : ℕ) (s : Bytes) → Lacks sep s → split sep s ≡ s ∷ []
unfolding split
split-Lacks sep [] h = refl
split-Lacks sep (c ∷ s) h = rw (h.0, split-Lacks sep s h.1) refl
