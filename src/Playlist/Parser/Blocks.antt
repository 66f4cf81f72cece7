-- ===== src/Playlist/Parser/Blocks.antt =====
-- What the loop of `Parse` makes of a playlist that is written in blocks: an #EXTINF line, options,
-- comments and blank lines behind it, and a stream line.
use iptv2hdhr.Base.{
  ◌≡◌, refl, sym, ap, ◌∙◌, Option, none, some, List, [], ◌∷◌, ◌++◌, arith, Bytes, Unicode, Dict,
  insert, append-nil, append_assoc, All,
}
use iptv2hdhr.Playlist.Entry.{Entry}
use iptv2hdhr.Playlist.Options.{parse_vlc_opt}
use iptv2hdhr.Playlist.Extinf.{parse_entry}
use iptv2hdhr.Playlist.Parser.{
  Line, blank, extinf, vlc_opt, comment, stream, line_of, Scan, scan, handle, append_some,
}

-- A line that is no #EXTINF line and no stream line.
abbrev pub IsBetween : Line → Type 0
IsBetween blank = Unit {0}
IsBetween (vlc_opt _) = Unit {0}
IsBetween comment = Unit {0}
IsBetween _ = ⊥

-- A line that the loop passes over.
abbrev pub IsIgnored : Line → Type 0
IsIgnored blank = Unit {0}
IsIgnored comment = Unit {0}
IsIgnored _ = ⊥

abbrev pub set_header : Dict Bytes → Option (Bytes × Bytes) → Dict Bytes
set_header hs none = hs
set_header hs (some (name, val)) = insert name val hs

module _ ⦃u : Unicode⦄ where
  header_line : Line → Dict Bytes → Dict Bytes
  header_line (vlc_opt body) hs = set_header hs (parse_vlc_opt body)
  header_line _ hs = hs

  -- The headers that the option lines among `ls` add to `hs`.
  pub headers_after : List Bytes → Dict Bytes → Dict Bytes
  unfolding header_line
  headers_after [] hs = hs
  headers_after (l ∷ ls) hs = headers_after ls (header_line (line_of l) hs)

  pub scan-append : (s : Scan) (xs ys : List Bytes) → scan s (xs ++ ys) ≡ scan (scan s xs) ys
  unfolding scan
  scan-append s [] ys = refl
  scan-append s (x ∷ xs) ys = scan-append (handle s (line_of x)) xs ys

  handle-between :
      (s : Scan) (l : Line)
      → IsBetween l
      → handle s l ≡ record s { pending_headers = header_line l s.pending_headers }
  unfolding handle header_line
  handle-between s (vlc_opt body) h = ground arith
  handle-between s _ h = ground arith

  scan-between :
      (s : Scan) (ls : List Bytes)
      → All (λ l. IsBetween (line_of l)) ls
      → scan s ls ≡ record s { pending_headers = headers_after ls s.pending_headers }
  unfolding scan headers_after
  scan-between s [] h = refl
  scan-between s (l ∷ ls) h = rw (handle-between s (line_of l) h.0) (
      scan-between (record s { pending_headers = header_line (line_of l) s.pending_headers }) ls
        h.1)

  -- Blank lines and comments, wherever they stand, do not change what the loop finds.
  scan_ignored :
      (s : Scan) (xs ys : List Bytes) (l : Bytes)
      → IsIgnored (line_of l)
      → scan s (xs ++ l ∷ ys) ≡ scan s (xs ++ ys)
  unfolding scan
  scan_ignored s [] ys l h = ap (λ t. scan t ys) (skip (line_of l) h)
    where
      skip : (k : Line) → IsIgnored k → handle s k ≡ s
      skip blank h = unfold handle in refl
      skip comment h = unfold handle in refl
      skip _ h = absurd h
  scan_ignored s (x ∷ xs) ys l h = scan_ignored (handle s (line_of x)) xs ys l h

  -- A new #EXTINF line discards an earlier one that met no stream line, with its options.
  scan_superseded :
      (s : Scan) (first : Bytes) (ls : List Bytes) (second : Bytes) (rest : List Bytes)
      {a b : Bytes}
      → line_of first ≡ extinf a
      → All (λ l. IsBetween (line_of l)) ls
      → line_of second ≡ extinf b
      → scan s (first ∷ (ls ++ second ∷ rest)) ≡ scan s (second ∷ rest)
  unfolding scan
  scan_superseded s first ls second rest {a} {b} e between e' =
      rw
        (
          scan-append (handle s (line_of first)) ls (second ∷ rest),
          scan-between _ ls between,
          e,
          e',
        )
        (unfold handle in refl)

-- A block as it stands in the file, and what the loop reads its two lines as.
pub record Block : Type 0 where
  pub extinf_line : Bytes
  pub between : List Bytes
  pub stream_line : Bytes
  pub ext : Bytes
  pub url : Bytes

abbrev pub block_lines : List Block → List Bytes
block_lines [] = []
block_lines (b ∷ bs) = b.extinf_line ∷ (b.between ++ b.stream_line ∷ block_lines bs)

pub record IsBlock (b : Block) : Type 0 where
  pub starts : line_of b.extinf_line ≡ extinf b.ext
  pub middle : All (λ l. IsBetween (line_of l)) b.between
  pub ends : line_of b.stream_line ≡ stream b.url

module _ ⦃u : Unicode⦄ where
  abbrev pub block_entry : Block → Option Entry
  block_entry b = parse_entry b.ext b.url (headers_after b.between [])

  abbrev pub block_entries : List Block → List Entry
  block_entries [] = []
  block_entries (b ∷ bs) = append_some [] (block_entry b) ++ block_entries bs

  append_some-append :
      (es : List Entry) (o : Option Entry) (fs : List Entry)
      → append_some es o ++ fs ≡ es ++ (append_some [] o ++ fs)
  append_some-append es none fs = refl
  append_some-append es (some e) fs = append_assoc es (e ∷ []) fs

  after_block : Scan → Block → Scan
  after_block s b = record {
    found = append_some s.found (block_entry b);
    pending_extinf = none;
    pending_headers = [];
  }

  scan_block :
      (s : Scan) (b : Block) (rest : List Bytes)
      → IsBlock b
      → scan s (b.extinf_line ∷ (b.between ++ b.stream_line ∷ rest)) ≡ scan (after_block s b) rest
  unfolding scan handle after_block
  scan_block s b rest w =
      rw (scan-append (handle s (line_of b.extinf_line)) b.between (b.stream_line ∷ rest))
        (rw (w.starts, scan-between _ b.between w.middle, w.ends) refl)

  -- A playlist written in blocks gives one entry for each block that has a usable name, in the order
  -- of the blocks, with the headers of the block's own options.
  pub scan_blocks :
      (s : Scan) (bs : List Block)
      → All IsBlock bs
      → (scan s (block_lines bs)).found ≡ s.found ++ block_entries bs
  unfolding scan
  scan_blocks s [] h = sym (append-nil s.found)
  scan_blocks s (b ∷ bs) h = rw (scan_block s b (block_lines bs) h.0) (
      scan_blocks (after_block s b) bs h.1
      ∙ unfold after_block in append_some-append s.found (block_entry b) (block_entries bs))
