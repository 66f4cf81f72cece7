-- ===== src/Server/Urls.antt =====
-- How a URL becomes the path of a request, as Go's net/url documents it: behind `http://` or `https://`
-- and a host, a path without bytes that URLs escape or set apart is the request's path. A base URL with
-- a path of its own, also one that ends in a slash, and a number that holds `?`, `#` or `%` are outside
-- of this.
use iptv2hdhr.Base.{ℕ, ◌≡◌, ◌⊎◌, Bool, true, ◌&&◌, ◌||◌, ◌∷◌, ◌++◌, ◌==◌, leb, Bytes, codes, All}

-- A letter, a digit, or one of `-._~`.
abbrev pub is_unreserved : ℕ → Bool
is_unreserved c =
    leb b'a' c && leb c b'z'
    || leb b'A' c && leb c b'Z'
    || leb b'0' c && leb c b'9'
    || c == b'-'
    || c == b'.'
    || c == b'_'
    || c == b'~'

abbrev pub is_path_byte : ℕ → Bool
is_path_byte c = is_unreserved c || c == b'/'

abbrev pub is_host_byte : ℕ → Bool
is_host_byte c = is_unreserved c || c == b':'

abbrev pub IsPathText : Bytes → Type 0
IsPathText = All (λ c. is_path_byte c ≡ true)

-- A scheme and a host, with or without a port.
abbrev pub IsOrigin : Bytes → Type 0
IsOrigin base =
    (host : Bytes) × ((base ≡ codes "http://" ++ host) ⊎ (base ≡ codes "https://" ++ host))
    × All (λ c. is_host_byte c ≡ true) host

-- `url_path` is the path of a request for a URL.
pub record UrlPaths (url_path : Bytes → Bytes) : Type 0 where
  pub behind_origin :
      (base rest : Bytes)
      → IsOrigin base
      → IsPathText rest
      → url_path (base ++ b'/' ∷ rest) ≡ b'/' ∷ rest
