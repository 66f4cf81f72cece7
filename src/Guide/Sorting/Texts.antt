-- ===== src/Guide/Sorting/Texts.antt =====
-- Sorted lists of texts: Go's order on strings is total, so that there is one sorted order.
use iptv2hdhr.Base.{
  ℕ, suc, ◌<◌, ◌≡◌, refl, sym, ◌∙◌, subst, true, false, inl, inr, List, [], ◌∷◌, arith, All, Bytes,
  equal, equal_iff, equal_refl, text_lt, Bool-cases, if◌then◌else◌,
}
use mathlib.Core.List.{Permᴰ}
use iptv2hdhr.Guide.Sorting.{Sorted, Sorter, IsStrictWeak}

text_lt-irreflexive : (s : Bytes) → text_lt s s ≡ false
unfolding text_lt
text_lt-irreflexive [] = refl
text_lt-irreflexive (c ∷ s) = ground (arith, text_lt-irreflexive s)

text_lt-transitive : (s t u : Bytes) → text_lt s t ≡ true → text_lt t u ≡ true → text_lt s u ≡ true
unfolding text_lt
text_lt-transitive [] [] u h k = cc
text_lt-transitive [] (d ∷ t) [] h k = cc
text_lt-transitive [] (d ∷ t) (e ∷ u) h k = refl
text_lt-transitive (c ∷ s) [] u h k = cc
text_lt-transitive (c ∷ s) (d ∷ t) [] h k = cc
text_lt-transitive (c ∷ s) (d ∷ t) (e ∷ u) h k = ground (arith, text_lt-transitive s t u)

text_lt-incomparable :
    (s t u : Bytes) → text_lt s t ≡ false → text_lt t u ≡ false → text_lt s u ≡ false
unfolding text_lt
text_lt-incomparable [] [] u h k = k
text_lt-incomparable [] (d ∷ t) u h k = cc
text_lt-incomparable (c ∷ s) [] [] h k = refl
text_lt-incomparable (c ∷ s) [] (e ∷ u) h k = cc
text_lt-incomparable (c ∷ s) (d ∷ t) [] h k = refl
text_lt-incomparable (c ∷ s) (d ∷ t) (e ∷ u) h k = ground (arith, text_lt-incomparable s t u)

text_lt-IsStrictWeak : IsStrictWeak text_lt
text_lt-IsStrictWeak = record {
  irreflexive = text_lt-irreflexive;
  transitive = text_lt-transitive;
  incomparable = text_lt-incomparable;
}

text_lt-antisym : (s t : Bytes) → text_lt s t ≡ false → text_lt t s ≡ false → s ≡ t
unfolding text_lt
text_lt-antisym [] [] h k = refl
text_lt-antisym [] (d ∷ t) h k = cc
text_lt-antisym (c ∷ s) [] h k = cc
text_lt-antisym (c ∷ s) (d ∷ t) h k = ground (arith, text_lt-antisym s t)

-- How often a text stands in a list.
abbrev pub count : Bytes → List Bytes → ℕ
count s [] = 0
count s (t ∷ ts) = let rest = count s ts in if equal s t then suc rest else rest

count-Permᴰ : (s : Bytes) {xs ys : List Bytes} → Permᴰ xs ys → count s xs ≡ count s ys
count-Permᴰ s Permᴰ.nil = refl
count-Permᴰ s (Permᴰ.cons e p) = rw (e, count-Permᴰ s p) refl
count-Permᴰ s (Permᴰ.swap {a' = c} {b' = d} {l = l} e f) = rw (e, f) (ground arith)
count-Permᴰ s (Permᴰ.trans p q) = count-Permᴰ s p ∙ count-Permᴰ s q

counted : (P : Bytes → Type 0) (s : Bytes) (xs : List Bytes) → 0 < count s xs → All P xs → P s
counted P s [] lt h = absurd (omega arith)
counted P s (x ∷ xs) lt h = elim (Bool-cases (equal s x)) [
  | inl same ↦ subst P (sym ((equal_iff s x).0 same)) h.0
  | inr other ↦ counted P s xs (rw other at lt) h.1
]

counted_head : (s : Bytes) (xs : List Bytes) → 0 < count s (s ∷ xs)
counted_head s xs = ground (arith, equal_refl s)

same_tail :
    (s x y : Bytes) (xs ys : List Bytes)
    → x ≡ y
    → count s (x ∷ xs) ≡ count s (y ∷ ys)
    → count s xs ≡ count s ys
same_tail s x y xs ys e h =
    let k : count s (y ∷ xs) ≡ count s (y ∷ ys) =
      subst (λ z. count s (z ∷ xs) ≡ count s (y ∷ ys)) e h in
    ground (arith, k)

-- The texts of a list determine its sorted order.
unique_order :
    (xs ys : List Bytes)
    → Sorted text_lt xs
    → Sorted text_lt ys
    → ((s : Bytes) → count s xs ≡ count s ys)
    → xs ≡ ys
unique_order [] [] sx sy same = refl
unique_order [] (y ∷ ys) sx sy same = absurd (omega (arith, same y, counted_head y ys))
unique_order (x ∷ xs) [] sx sy same = absurd (omega (arith, same x, counted_head x xs))
unique_order (x ∷ xs) (y ∷ ys) sx sy same =
    let below : text_lt x y ≡ false =
      counted (λ z. text_lt z y ≡ false) x (y ∷ ys)
        (subst (λ n. 0 < n) (same x) (counted_head x xs)) (text_lt-irreflexive y, sy.0) in
    let above : text_lt y x ≡ false =
      counted (λ z. text_lt z x ≡ false) y (x ∷ xs)
        (subst (λ n. 0 < n) (sym (same y)) (counted_head y ys)) (text_lt-irreflexive x, sx.0) in
    let heads = text_lt-antisym x y below above in
    let tails = unique_order xs ys sx.1 sy.1 (λ s. same_tail s x y xs ys heads (same s)) in cc

-- Sorting two lists that hold the same texts equally often gives the same list.
pub sort_slice-same :
    (sorter other : Sorter Bytes) (xs ys : List Bytes)
    → ((s : Bytes) → count s xs ≡ count s ys)
    → sorter.sort_slice text_lt xs ≡ other.sort_slice text_lt ys
sort_slice-same sorter other xs ys same =
    unique_order _ _ (sorter.sorts text_lt xs text_lt-IsStrictWeak)
      (other.sorts text_lt ys text_lt-IsStrictWeak)
      (λ s.
        sym (count-Permᴰ s (sorter.permutes text_lt xs))
        ∙ same s
        ∙ count-Permᴰ s (other.permutes text_lt ys))
