-- ===== src/Playlist/Options.antt =====
-- internal/playlist/parser.go: `parseVLCOpt` and `splitURLHeaders`, which read extra request headers.
pub mod Precedence
pub mod RoundTrip
use iptv2hdhr.Base.{
  Bool, true, false, ◌&&◌, ◌||◌, Option, none, some, List, [], ◌∷◌, Bytes, codes, is_empty, cut,
  split, trim_space, to_lower, Unicode, Dict, lookup, insert, if◌then◌else◌,
}
use iptv2hdhr.Base.Net.{query_unescape, canonical_mime_header_key}

abbrev pub vlc_opt_headers : Dict Bytes
vlc_opt_headers =
    (codes "http-referrer", codes "Referer") ∷ (codes "http-user-agent", codes "User-Agent") ∷ []

-- `none` is ok=false.
unfoldable pub parse_vlc_opt : ⦃u : Unicode⦄ → Bytes → Option (Bytes × Bytes)
parse_vlc_opt opt = elim (cut b'=' opt) [
  | none ↦ none
  | some (key, val) ↦ elim (lookup (to_lower (trim_space key)) vlc_opt_headers) [
    | none ↦ none
    | some header ↦ some (header, trim_space val)
  ]
]

-- One "key=value" of the suffix. A value that cannot be decoded is kept as it is.
unfoldable pub add_suffix_header : Dict Bytes → Bytes → Dict Bytes
add_suffix_header headers kv = elim (cut b'=' kv) [
  | none ↦ headers
  | some (key, val) ↦
      let decoded : Bytes = elim (query_unescape val) [ none ↦ val | some v ↦ v ] in
      if is_empty (trim_space key)
      then headers
      else insert (canonical_mime_header_key (trim_space key)) (trim_space decoded) headers
]

-- The loop over the parts of the suffix.
unfoldable pub add_suffix_headers : List Bytes → Dict Bytes → Dict Bytes
add_suffix_headers [] headers = headers
add_suffix_headers (kv ∷ kvs) headers = add_suffix_headers kvs (add_suffix_header headers kv)

unfoldable pub split_url_headers : Bytes → Dict Bytes → Bytes × Dict Bytes
split_url_headers stream_url headers = elim (cut b'|' stream_url) [
  | none ↦ (stream_url, headers)
  | some (base, suffix) ↦ (base, add_suffix_headers (split b'&' suffix) headers)
]
