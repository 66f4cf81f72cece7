-- ===== src/Base/Net/Escapes.antt =====
-- Query-escaped texts, as a writer may choose them, and what `url.QueryUnescape` reads.
use iptv2hdhr.Base.{
  ℕ, ◌+◌, ◌*◌, ◌<◌, ◌≡◌, ◌⊎◌, inl, inr, refl, ap, ◌∙◌, false, some, [], ◌∷◌, arith, Bytes, ltb,
  ◌==◌, if◌then◌else◌,
}
use iptv2hdhr.Base.TextLaws.{Lacks}
use iptv2hdhr.Base.Net.{hex_value, hex_pair, cons_some, is_digit, query_unescape}

-- A hexadecimal digit, as a capital and as a small letter.
abbrev pub hex_digit : ℕ → ℕ
hex_digit x = if ltb x 10 then b'0' + x else 55 + x

abbrev pub small_hex_digit : ℕ → ℕ
small_hex_digit x = if ltb x 10 then b'0' + x else 87 + x

-- The byte is a digit of that value, in either case.
abbrev pub IsHex : ℕ → ℕ → Type 0
IsHex a x = (x < 16) × ((a ≡ hex_digit x) ⊎ (a ≡ small_hex_digit x))

-- The second text is an escaped form of the first one: a byte stands for itself, a plus for a space,
-- or a percent sign and two digits, each in either case, for any byte.
pub data Escapes : Bytes → Bytes → Type 0 where
  no_bytes : Escapes [] []
  raw :
      {v s : Bytes} (c : ℕ)
      → (c == b'%') ≡ false
      → (c == b'+') ≡ false
      → (c == b'&') ≡ false
      → Escapes v s
      → Escapes (c ∷ v) (c ∷ s)
  plus : {v s : Bytes} → Escapes v s → Escapes (b' ' ∷ v) (b'+' ∷ s)
  percent :
      {v s : Bytes} (a b x y : ℕ)
      → IsHex a x
      → IsHex b y
      → Escapes v s
      → Escapes ((16 * x + y) ∷ v) (b'%' ∷ a ∷ b ∷ s)

hex_value-hex_digit : (x : ℕ) → x < 16 → hex_value (hex_digit x) ≡ some x
unfolding hex_value is_digit
hex_value-hex_digit x lt = ground arith

hex_value-small_hex_digit : (x : ℕ) → x < 16 → hex_value (small_hex_digit x) ≡ some x
unfolding hex_value is_digit
hex_value-small_hex_digit x lt = ground arith

hex_value-IsHex : (a x : ℕ) → IsHex a x → hex_value a ≡ some x
hex_value-IsHex a x (lt, inl e) = ap hex_value e ∙ hex_value-hex_digit x lt
hex_value-IsHex a x (lt, inr e) = ap hex_value e ∙ hex_value-small_hex_digit x lt

hex_pair-IsHex : (a b x y : ℕ) → IsHex a x → IsHex b y → hex_pair a b ≡ some (16 * x + y)
unfolding hex_pair
hex_pair-IsHex a b x y ha hb = rw (hex_pair, hex_value-IsHex a x ha, hex_value-IsHex b y hb) refl

not_and : (a x : ℕ) → IsHex a x → (a == b'&') ≡ false
not_and a x (lt, inl e) = ground arith
not_and a x (lt, inr e) = ground arith

query_unescape_percent :
    (a b : ℕ) (s : Bytes)
    → query_unescape (b'%' ∷ a ∷ b ∷ s) ≡ cons_some (hex_pair a b) (query_unescape s)
unfolding query_unescape
query_unescape_percent a b s = refl

query_unescape_byte :
    (c : ℕ) (s : Bytes)
    → (c == b'%') ≡ false
    → query_unescape (c ∷ s) ≡ cons_some (some (if c == b'+' then b' ' else c)) (query_unescape s)
unfolding query_unescape cons_some
query_unescape_byte c [] e = rw e refl
query_unescape_byte c (d ∷ []) e = rw e refl
query_unescape_byte c (d ∷ f ∷ s) e = rw e refl

pub query_unescape-Escapes : {v s : Bytes} → Escapes v s → query_unescape s ≡ some v
unfolding cons_some query_unescape
query_unescape-Escapes no_bytes = refl
query_unescape-Escapes (raw {s = s} c no_percent no_plus no_and e) =
    rw (query_unescape_byte c s no_percent, no_plus, query_unescape-Escapes e) refl
query_unescape-Escapes (plus {s = s} e) =
    rw (query_unescape_byte b'+' s refl, query_unescape-Escapes e) refl
query_unescape-Escapes (percent {s = s} a b x y ha hb e) =
    rw (query_unescape_percent a b s, hex_pair-IsHex a b x y ha hb, query_unescape-Escapes e) refl

-- An escaped text does not end the part of the suffix that it stands in.
pub Escapes-Lacks : {v s : Bytes} → Escapes v s → Lacks b'&' s
Escapes-Lacks no_bytes = tt
Escapes-Lacks (raw c _ _ no_and e) = (no_and, Escapes-Lacks e)
Escapes-Lacks (plus e) = (refl, Escapes-Lacks e)
Escapes-Lacks (percent a b x y ha hb e) =
    (refl, (not_and a x ha, (not_and b y hb, Escapes-Lacks e)))
