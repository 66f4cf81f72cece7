-- ===== src/Playlist/Extinf.antt =====
-- internal/playlist/parser.go: `attrRegex` and `parseEntry`, which read an #EXTINF line.
use iptv2hdhr.Base.{
  ℕ, zero, suc, ◌-◌, Bool, ◌&&◌, ◌||◌, Option, none, some, List, [], ◌∷◌, leb, ◌==◌, if◌then◌else◌,
  length, Bytes, codes, is_empty, cut, remove_first, trim_byte, trim_space, to_lower, Unicode, Dict,
  insert, get_or_zero,
}
use iptv2hdhr.Playlist.Entry.{Entry}
use iptv2hdhr.Playlist.Options.{split_url_headers}

-- [A-Za-z0-9_-]
is_attr_byte : ℕ → Bool
is_attr_byte c =
    (leb b'A' c && leb c b'Z')
    || (leb b'a' c && leb c b'z')
    || (leb b'0' c && leb c b'9')
    || c == b'_'
    || c == b'-'

-- `[^"]*"`, up to and with the closing quote.
match_quoted : Bytes → Option Bytes
match_quoted [] = none
match_quoted (c ∷ s) =
    if c == b'"'
    then some (c ∷ [])
    else elim (match_quoted s) [ none ↦ none | some m ↦ some (c ∷ m) ]

-- `="[^"]*"`
match_value : Bytes → Option Bytes
unfolding match_quoted
match_value (e ∷ q ∷ s) =
    if e == b'=' && q == b'"'
    then elim (match_quoted s) [ none ↦ none | some m ↦ some (e ∷ q ∷ m) ]
    else none
match_value _ = none

-- The rest of a key, and the value. A key cannot hold the `=` that ends it, so the longest run of
-- key bytes is the one run that can match.
match_key : Bytes → Option Bytes
unfolding match_value is_attr_byte
match_key [] = none
match_key (c ∷ s) =
    if is_attr_byte c
    then elim (match_key s) [ none ↦ none | some m ↦ some (c ∷ m) ]
    else match_value (c ∷ s)

-- `attrRegex` at the front of a text: at least one byte of a key.
unfoldable pub match_attr : Bytes → Option Bytes
unfolding match_key
match_attr [] = none
match_attr (c ∷ s) = if is_attr_byte c then match_key (c ∷ s) else none

-- `attrRegex.FindAllString(s, -1)`: from left to right, without overlaps. The first argument counts
-- the bytes left of a match that is being skipped.
find_attrs_from : ℕ → Bytes → List Bytes
unfolding match_attr
find_attrs_from k [] = []
find_attrs_from (suc k) (c ∷ s) = find_attrs_from k s
find_attrs_from zero (c ∷ s) = elim (match_attr (c ∷ s)) [
  | none ↦ find_attrs_from zero s
  | some m ↦ m ∷ find_attrs_from (length m - 1) s
]

unfoldable pub find_attrs : Bytes → List Bytes
unfolding find_attrs_from
find_attrs = find_attrs_from 0

-- The key and the value of a match. A match has its `=`.
unfoldable pub attr_pair : ⦃u : Unicode⦄ → Bytes → Bytes × Bytes
attr_pair m = elim (cut b'=' m) [
  | none ↦ (to_lower m, [])
  | some (key, val) ↦ (to_lower key, trim_byte b'"' val)
]

-- The loop over the matches: the attributes, and the line without them.
unfoldable pub take_attrs : ⦃u : Unicode⦄ → List Bytes → Dict Bytes → Bytes → Dict Bytes × Bytes
unfolding attr_pair
take_attrs [] attrs remainder = (attrs, remainder)
take_attrs (m ∷ ms) attrs remainder =
    take_attrs ms (insert (attr_pair m).0 (attr_pair m).1 attrs) (remove_first m remainder)

-- What stands behind the first comma.
unfoldable pub trailing_name : Bytes → Bytes
trailing_name remainder = elim (cut b',' remainder) [
  | none ↦ []
  | some (_, after) ↦ trim_space after
]

-- The display name: the trailing name, else `tvg-name`.
unfoldable pub entry_name : Dict Bytes → Bytes → Bytes
entry_name attrs remainder =
    if is_empty (trailing_name remainder)
    then get_or_zero (codes "tvg-name") attrs
    else trailing_name remainder

-- `none` is ok=false: no usable name.
unfoldable pub parse_entry : ⦃u : Unicode⦄ → Bytes → Bytes → Dict Bytes → Option Entry
parse_entry extinf_line url_line headers =
    let (attrs, remainder) = take_attrs (find_attrs extinf_line) [] extinf_line in
    let (stream_url, all_headers) = split_url_headers (trim_space url_line) headers in
    if is_empty (entry_name attrs remainder)
    then none
    else some (record {
      name = entry_name attrs remainder;
      tvg_id = get_or_zero (codes "tvg-id") attrs;
      tvg_name = get_or_zero (codes "tvg-name") attrs;
      tvg_logo = get_or_zero (codes "tvg-logo") attrs;
      group_title = get_or_zero (codes "group-title") attrs;
      url = stream_url;
      headers = all_headers;
    })
