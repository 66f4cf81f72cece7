-- ===== src/Playlist/Parser/Entries.antt =====
-- What holds of every entry that `Parse` returns, and how many there are.
use iptv2hdhr.Base.{
  ℕ, ◌+◌, ◌≤◌, ◌≡◌, refl, inl, inr, false, Option, none, some, List, [], ◌∷◌, arith, Bytes, Unicode,
  Dict, All, All-append, length, length-append, is_empty, Option-cases, cut, trim_space,
}
use iptv2hdhr.Base.TextLaws.{Lacks, cut-eq-none, cut-eq-some}
use iptv2hdhr.Playlist.Entry.{Entry}
use iptv2hdhr.Playlist.Options.{split_url_headers}
use iptv2hdhr.Playlist.Extinf.{parse_entry}
use iptv2hdhr.Playlist.Parser.{
  Line, blank, extinf, vlc_opt, comment, stream, line_of, Scan, scan, handle, take_stream,
  append_some, scan_start, parse, entries, scan_lines,
}

-- Usable: a name, and a URL without the `|` that starts a header suffix.
pub record IsUsable (e : Entry) : Type 0 where
  pub has_name : is_empty e.name ≡ false
  pub no_suffix : Lacks b'|' e.url

split_url_headers-Lacks : (url : Bytes) (hs : Dict Bytes) → Lacks b'|' (split_url_headers url hs).0
unfolding split_url_headers
split_url_headers-Lacks url hs = elim (Option-cases (cut b'|' url)) [
  | inl e ↦ rw (e, split_url_headers) (cut-eq-none b'|' url e)
  | inr ((base, suffix), e) ↦ rw (e, split_url_headers) (cut-eq-some b'|' url e).0
]

module _ ⦃u : Unicode⦄ where
  parse_entry-IsUsable :
      (ext url : Bytes) (hs : Dict Bytes) → All IsUsable (append_some [] (parse_entry ext url hs))
  unfolding parse_entry
  parse_entry-IsUsable ext url hs = ground (arith, split_url_headers-Lacks (trim_space url) hs)

  append_some-IsUsable :
      (es : List Entry) (o : Option Entry)
      → All IsUsable es
      → All IsUsable (append_some [] o)
      → All IsUsable (append_some es o)
  append_some-IsUsable es none h k = h
  append_some-IsUsable es (some e) h k = All-append IsUsable es (e ∷ []) h k

  take_stream-IsUsable :
      (s : Scan) (line : Bytes) (o : Option Bytes)
      → All IsUsable s.found
      → All IsUsable (take_stream s line o).found
  unfolding take_stream
  take_stream-IsUsable s line none h = h
  take_stream-IsUsable s line (some ext) h =
      append_some-IsUsable s.found _ h (parse_entry-IsUsable ext line s.pending_headers)

  handle-IsUsable : (s : Scan) (l : Line) → All IsUsable s.found → All IsUsable (handle s l).found
  unfolding handle
  handle-IsUsable s (stream line) h = take_stream-IsUsable s line s.pending_extinf h
  handle-IsUsable s (vlc_opt body) h = ground arith
  handle-IsUsable s blank h = h
  handle-IsUsable s (extinf line) h = h
  handle-IsUsable s comment h = h

  scan-IsUsable :
      (s : Scan) (ls : List Bytes) → All IsUsable s.found → All IsUsable (scan s ls).found
  unfolding scan
  scan-IsUsable s [] h = h
  scan-IsUsable s (l ∷ ls) h =
      scan-IsUsable (handle s (line_of l)) ls (handle-IsUsable s (line_of l) h)

  -- Every entry that `Parse` returns has a name, and its URL has no header suffix left.
  parse-IsUsable : (src : Bytes) {es : List Entry} → parse src ≡ entries es → All IsUsable es
  unfolding parse
  parse-IsUsable src h = ground (arith, scan-IsUsable scan_start (scan_lines src) tt)

abbrev pub extinf_weight : Line → ℕ
extinf_weight (extinf _) = 1
extinf_weight _ = 0

-- How many of the lines the loop reads as #EXTINF lines.
abbrev pub extinf_count : List Bytes → ℕ
extinf_count [] = 0
extinf_count (l ∷ ls) = extinf_weight (line_of l) + extinf_count ls

abbrev pending_count : Scan → ℕ
pending_count s = elim s.pending_extinf [ none ↦ 0 | some _ ↦ 1 ]

module _ ⦃u : Unicode⦄ where
  length-append_some :
      (es : List Entry) (o : Option Entry) → length (append_some es o) ≤ length es + 1
  length-append_some es none = omega arith
  length-append_some es (some e) = omega (arith, length-append es (e ∷ []))

  take_stream-length :
      (s : Scan) (line : Bytes) (o : Option Bytes)
      → s.pending_extinf ≡ o
      → length (take_stream s line o).found + pending_count (take_stream s line o)
        ≤ length s.found + pending_count s
  unfolding take_stream
  take_stream-length s line none e = omega arith
  take_stream-length s line (some ext) e =
      rw e (omega (arith, length-append_some s.found (parse_entry ext line s.pending_headers)))

  handle-length :
      (s : Scan) (l : Line)
      → length (handle s l).found + pending_count (handle s l)
        ≤ length s.found + pending_count s + extinf_weight l
  unfolding handle
  handle-length s (stream line) = omega (arith, take_stream-length s line s.pending_extinf refl)
  handle-length s _ = ground arith

  scan-length :
      (s : Scan) (ls : List Bytes)
      → length (scan s ls).found + pending_count (scan s ls)
        ≤ length s.found + pending_count s + extinf_count ls
  unfolding scan
  scan-length s [] = omega arith
  scan-length s (l ∷ ls) =
      omega (arith, handle-length s (line_of l), scan-length (handle s (line_of l)) ls)

  -- `Parse` returns at most one entry for each #EXTINF line.
  pub length-parse-le :
      (src : Bytes) {es : List Entry}
      → parse src ≡ entries es
      → length es ≤ extinf_count (scan_lines src)
  unfolding parse
  length-parse-le src h = ground (arith, scan-length scan_start (scan_lines src))
