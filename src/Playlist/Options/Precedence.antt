-- ===== src/Playlist/Options/Precedence.antt =====
-- Which headers a stream URL ends up with.
use iptv2hdhr.Base.{
  ◌≡◌, refl, Bool, true, false, Option, none, some, List, [], ◌∷◌, arith, Bytes, is_empty, cut,
  split, trim_space, Dict, lookup, insert, lookup-insert, if◌then◌else◌, equal_iff, Option-cases,
  inl, inr,
}
use iptv2hdhr.Base.Net.{canonical_mime_header_key}
use iptv2hdhr.Playlist.Options.{add_suffix_header, add_suffix_headers, split_url_headers}

-- The first value, else the second.
abbrev pub or_else : Option Bytes → Option Bytes → Option Bytes
or_else none o = o
or_else (some v) o = some v

or_else_assoc : (a b c : Option Bytes) → or_else (or_else a b) c ≡ or_else a (or_else b c)
or_else_assoc none b c = refl
or_else_assoc (some a) b c = refl

module _ (k : Bytes) where
  lookup-add_suffix_header :
      (hs : Dict Bytes) (kv : Bytes)
      → lookup k (add_suffix_header hs kv)
        ≡ or_else (lookup k (add_suffix_header [] kv)) (lookup k hs)
  unfolding add_suffix_header
  lookup-add_suffix_header hs kv = elim (Option-cases (cut b'=' kv)) [
    | inl e ↦ rw (e, add_suffix_header) (unfold lookup in refl)
    | inr ((key, val), e) ↦
        rw (e, add_suffix_header)
          (keeps (is_empty (trim_space key)) (canonical_mime_header_key (trim_space key)) _)
  ]
    where
      keeps :
          (b : Bool) (j v : Bytes)
          → lookup k (if b then hs else insert j v hs)
            ≡ or_else (lookup k (if b then [] else insert j v [])) (lookup k hs)
      keeps true j v = unfold lookup in refl
      keeps false j v = simp lookup-insert (unfold lookup in ground (arith, equal_iff j k))

  lookup-add_suffix_headers :
      (kvs : List Bytes) (hs : Dict Bytes)
      → lookup k (add_suffix_headers kvs hs)
        ≡ or_else (lookup k (add_suffix_headers kvs [])) (lookup k hs)
  unfolding add_suffix_headers lookup
  lookup-add_suffix_headers [] hs = refl
  lookup-add_suffix_headers (kv ∷ kvs) hs =
      rw (lookup-add_suffix_headers kvs (add_suffix_header hs kv)) (
        cc (
          lookup-add_suffix_headers kvs (add_suffix_header [] kv),
          lookup-add_suffix_header hs kv,
          or_else_assoc (lookup k (add_suffix_headers kvs [])) (lookup k (add_suffix_header [] kv))
              (lookup k hs),
        ))

  -- A header in the suffix of the URL wins over an option line for the same header, and leaves the
  -- other headers alone; the URL that remains does not depend on the options.
  lookup-split_url_headers :
      (url : Bytes) (hs : Dict Bytes)
      → (lookup k (split_url_headers url hs).1
          ≡ or_else (lookup k (split_url_headers url []).1) (lookup k hs))
        × ((split_url_headers url hs).0 ≡ (split_url_headers url []).0)
  unfolding split_url_headers lookup
  lookup-split_url_headers url hs = elim (Option-cases (cut b'|' url)) [
    | inl e ↦ rw (e, split_url_headers) (refl, refl)
    | inr ((base, suffix), e) ↦
        rw (e, split_url_headers) (lookup-add_suffix_headers (split b'&' suffix) hs, refl)
  ]
