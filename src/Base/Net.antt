-- ===== src/Base/Net.antt =====
-- `url.QueryUnescape` and `textproto.CanonicalMIMEHeaderKey` of Go's standard library.
pub mod Escapes
use iptv2hdhr.Base.{
  ℕ, ◌+◌, ◌-◌, ◌*◌, Bool, true, false, ◌&&◌, ◌||◌, Option, none, some, [], ◌∷◌, leb, ◌==◌,
  if◌then◌else◌, Bytes, codes, lower_byte, upper_byte,
}

is_digit : ℕ → Bool
is_digit c = leb b'0' c && leb c b'9'

-- The value of a hexadecimal digit.
hex_value : ℕ → Option ℕ
unfolding is_digit
hex_value c =
    if is_digit c
    then some (c - b'0')
    else if leb b'a' c && leb c b'f'
    then some (c - b'a' + 10)
    else if leb b'A' c && leb c b'F'
    then some (c - b'A' + 10)
    else none

hex_pair : ℕ → ℕ → Option ℕ
unfolding hex_value
hex_pair a b = elim (hex_value a) [
  | none ↦ none
  | some x ↦ elim (hex_value b) [ none ↦ none | some y ↦ some (16 * x + y) ]
]

cons_some : Option ℕ → Option Bytes → Option Bytes
cons_some (some c) (some s) = some (c ∷ s)
cons_some _ _ = none

-- `url.QueryUnescape`; `none` is its error, a `%` without two hexadecimal digits behind it.
unfoldable pub query_unescape : Bytes → Option Bytes
unfolding hex_pair cons_some
query_unescape [] = some []
query_unescape (c ∷ []) = if c == b'%' then none else some ((if c == b'+' then b' ' else c) ∷ [])
query_unescape (c ∷ d ∷ []) =
    let rest = query_unescape (d ∷ []) in
    if c == b'%' then none else cons_some (some (if c == b'+' then b' ' else c)) rest
query_unescape (c ∷ d ∷ e ∷ s) =
    let rest = query_unescape (d ∷ e ∷ s) in
    let decoded = cons_some (hex_pair d e) (query_unescape s) in
    if c == b'%' then decoded else cons_some (some (if c == b'+' then b' ' else c)) rest

is_member : ℕ → Bytes → Bool
is_member c [] = false
is_member c (x ∷ xs) = c == x || is_member c xs

-- The bytes of a header name, a token of RFC 7230.
is_header_byte : ℕ → Bool
unfolding is_digit is_member
is_header_byte c =
    is_digit c
    || (leb b'a' c && leb c b'z')
    || (leb b'A' c && leb c b'Z')
    || is_member c (codes "!#$%&'*+-.^_`|~")

all_header_bytes : Bytes → Bool
unfolding is_header_byte
all_header_bytes [] = true
all_header_bytes (c ∷ s) = is_header_byte c && all_header_bytes s

-- The flag says that the next letter is to be a capital.
capitalise : Bool → Bytes → Bytes
unfolding lower_byte upper_byte
capitalise upper [] = []
capitalise upper (c ∷ s) = (if upper then upper_byte c else lower_byte c) ∷ capitalise (c == b'-') s

-- `textproto.CanonicalMIMEHeaderKey`: a name with any other byte is left as it is.
unfoldable pub canonical_mime_header_key : Bytes → Bytes
unfolding all_header_bytes capitalise
canonical_mime_header_key s = if all_header_bytes s then capitalise true s else s
