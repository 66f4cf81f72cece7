-- ===== src/Playlist/Options/RoundTrip.antt =====
-- A stream URL written with a suffix of headers, and what `splitURLHeaders` makes of it.
use iptv2hdhr.Base.{
  ◌≡◌, refl, sym, ap, ◌∙◌, false, List, [], ◌∷◌, ◌++◌, Bytes, is_empty, equal, split, trim_space,
  Dict, insert, All, All-append, map, append_assoc, append-nil, ◌==◌,
}
use iptv2hdhr.Base.TextLaws.{Lacks, cut-append, split-append, split-Lacks, cut-Lacks}
use iptv2hdhr.Base.Net.{canonical_mime_header_key}
use iptv2hdhr.Base.Net.Escapes.{Escapes, query_unescape-Escapes, Escapes-Lacks}
use iptv2hdhr.Playlist.Options.{add_suffix_header, add_suffix_headers, split_url_headers}

-- A header as it stands in a suffix: its value is escaped in some way.
pub record Written : Type 0 where
  pub key : Bytes
  pub value : Bytes
  pub text : Bytes
  pub has_key : is_empty key ≡ false
  pub canonical : canonical_mime_header_key key ≡ key
  pub trimmed_key : trim_space key ≡ key
  pub trimmed_value : trim_space value ≡ value
  pub no_and : Lacks b'&' key
  pub no_equals : Lacks b'=' key
  pub escapes : Escapes value text

abbrev pub part : Written → Bytes
part w = w.key ++ b'=' ∷ w.text

-- The parts, with `&` between them.
abbrev pub suffix_of : Written → List Written → Bytes
suffix_of w [] = part w
suffix_of w (x ∷ ws) = part w ++ b'&' ∷ suffix_of x ws

abbrev pub url_of : Bytes → List Written → Bytes
url_of base [] = base
url_of base (w ∷ ws) = base ++ b'|' ∷ suffix_of w ws

abbrev pub headers_of : List Written → Dict Bytes
headers_of = map λ w. (w.key, w.value)

-- No key twice.
abbrev pub HasDistinctKeys : List Written → Type 0
HasDistinctKeys [] = Unit
HasDistinctKeys (w ∷ ws) = All (λ x. equal w.key x.key ≡ false) ws × HasDistinctKeys ws

part-Lacks : (w : Written) → Lacks b'&' (part w)
part-Lacks w =
    All-append (λ c. (c == b'&') ≡ false) w.key (b'=' ∷ w.text) w.no_and
      (refl, Escapes-Lacks w.escapes)

split-suffix_of :
    (w : Written) (ws : List Written) → split b'&' (suffix_of w ws) ≡ map part (w ∷ ws)
split-suffix_of w [] = split-Lacks b'&' (part w) (part-Lacks w)
split-suffix_of w (x ∷ ws) =
    split-append b'&' (part w) (suffix_of x ws) (part-Lacks w)
    ∙ ap (◌∷◌ (part w)) (split-suffix_of x ws)

add_suffix_header-part :
    (hs : Dict Bytes) (w : Written) → add_suffix_header hs (part w) ≡ insert w.key w.value hs
unfolding add_suffix_header
add_suffix_header-part hs w =
    rw
      (
        add_suffix_header,
        cut-append b'=' w.key w.text w.no_equals,
        query_unescape-Escapes w.escapes,
        w.trimmed_key,
        w.has_key,
        w.canonical,
        w.trimmed_value,
      )
      refl

-- A key that is new comes last.
insert-new :
    (key val : Bytes) (hs : Dict Bytes)
    → All (λ h. equal h.0 key ≡ false) hs
    → insert key val hs ≡ hs ++ (key, val) ∷ []
unfolding insert
insert-new key val [] new = refl
insert-new key val (h ∷ hs) new = rw (new.0, insert-new key val hs new.1) refl

-- The written headers have none of the keys that are there.
abbrev AreNew : Dict Bytes → List Written → Type 0
AreNew hs ws = All (λ w. All (λ h. equal h.0 w.key ≡ false) hs) ws

AreNew-concat :
    (hs : Dict Bytes) (w : Written) (ws : List Written)
    → AreNew hs ws
    → All (λ x. equal w.key x.key ≡ false) ws
    → AreNew (hs ++ (w.key, w.value) ∷ []) ws
AreNew-concat hs w [] new distinct = tt
AreNew-concat hs w (x ∷ ws) new distinct = (
  All-append (λ h. equal h.0 x.key ≡ false) hs ((w.key, w.value) ∷ []) new.0 (distinct.0, tt),
  AreNew-concat hs w ws new.1 distinct.1,
)

add_suffix_headers-parts :
    (ws : List Written) (hs : Dict Bytes)
    → HasDistinctKeys ws
    → AreNew hs ws
    → add_suffix_headers (map part ws) hs ≡ hs ++ headers_of ws
unfolding add_suffix_headers
add_suffix_headers-parts [] hs d new = sym (append-nil hs)
add_suffix_headers-parts (w ∷ ws) hs d new =
    ap (add_suffix_headers (map part ws))
      (add_suffix_header-part hs w ∙ insert-new w.key w.value hs new.0)
    ∙ add_suffix_headers-parts ws (hs ++ (w.key, w.value) ∷ []) d.1
        (AreNew-concat hs w ws new.1 d.0)
    ∙ append_assoc hs ((w.key, w.value) ∷ []) (headers_of ws)

all_new : (ws : List Written) → AreNew [] ws
all_new [] = tt
all_new (w ∷ ws) = (tt, all_new ws)

-- A URL without a `|`, written with a suffix of headers (canonical and trimmed keys without `=` and
-- `&`, no key twice, and trimmed values, each escaped in any way that a query allows): from no headers,
-- `splitURLHeaders` gives back the URL and exactly these headers, in their order.
pub split_url_headers-url_of :
    (base : Bytes) (ws : List Written)
    → Lacks b'|' base
    → HasDistinctKeys ws
    → split_url_headers (url_of base ws) [] ≡ (base, headers_of ws)
unfolding split_url_headers
split_url_headers-url_of base [] no_bar d = rw (split_url_headers, cut-Lacks b'|' base no_bar) refl
split_url_headers-url_of base (w ∷ ws) no_bar d =
    rw
      (
        split_url_headers,
        cut-append b'|' base (suffix_of w ws) no_bar,
        split-suffix_of w ws,
        add_suffix_headers-parts (w ∷ ws) [] d (all_new (w ∷ ws)),
      )
      refl
