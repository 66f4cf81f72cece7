-- ===== src/Playlist/Parser.antt =====
-- internal/playlist/parser.go: `Parse`, a loop over the lines with a pending #EXTINF line.
pub mod Errors
pub mod Blocks
pub mod Entries
use iptv2hdhr.Base.{
  ℕ, zero, suc, ◌+◌, ◌*◌, ◌≡◌, refl, Bool, true, false, ◌&&◌, ◌||◌, not, Option, none, some, List,
  [], ◌∷◌, ◌++◌, map, leb, ltb, ◌==◌, if◌then◌else◌, length, Bytes, codes, is_empty, has_prefix,
  trim_prefix, contains, trim_space, Unicode, Dict, insert,
}
use iptv2hdhr.Playlist.Entry.{Entry}
use iptv2hdhr.Playlist.Options.{parse_vlc_opt}
use iptv2hdhr.Playlist.Extinf.{parse_entry}

pub data ParseError : Type 0 where
  -- ErrNotExtendedM3U
  not_extended_m3u : ParseError
  -- bufio.ErrTooLong, from `scanner.Err()`
  line_too_long : ParseError

pub data Parsed : Type 0 where
  entries : List Entry → Parsed
  failed : ParseError → Parsed

-- The limit given to `scanner.Buffer`.
abbrev pub max_line_size : ℕ
max_line_size = 1024 * 1024

cons_line : ℕ → List Bytes → List Bytes
cons_line c [] = (c ∷ []) ∷ []
cons_line c (l ∷ ls) = (c ∷ l) ∷ ls

-- `bufio.ScanLines`: text behind the last newline is a line if it is not empty. The carriage return
-- that it drops at a line's end is white space, which the loop trims anyway.
unfoldable pub scan_lines : Bytes → List Bytes
unfolding cons_line
scan_lines [] = []
scan_lines (c ∷ s) = let rest = scan_lines s in if c == b'\n' then [] ∷ rest else cons_line c rest

-- A line that fills the scanner's buffer is an error.
unfoldable pub has_long_line : List Bytes → Bool
has_long_line [] = false
has_long_line (l ∷ ls) = leb max_line_size (length l) || has_long_line ls

-- What the tests of the loop make of a trimmed line, in their order.
pub data Line : Type 0 where
  blank : Line
  extinf : Bytes → Line
  vlc_opt : Bytes → Line
  comment : Line
  stream : Bytes → Line

unfoldable pub classify : Bytes → Line
classify line =
    if is_empty line
    then blank
    else if has_prefix line (codes "#EXTINF")
    then extinf line
    else if has_prefix line (codes "#EXTVLCOPT:")
    then vlc_opt (trim_prefix line (codes "#EXTVLCOPT:"))
    else if has_prefix line (codes "#")
    then comment
    else stream line

-- The variables of the loop. `haveExtinf` and `pendingExtinf` are one option: the code sets and
-- clears them together.
pub record Scan : Type 0 where
  pub found : List Entry
  pub pending_extinf : Option Bytes
  pub pending_headers : Dict Bytes

abbrev pub append_some : List Entry → Option Entry → List Entry
append_some es none = es
append_some es (some e) = es ++ e ∷ []

-- A line that is no directive: an entry if an #EXTINF line waits for it.
unfoldable pub take_stream : ⦃u : Unicode⦄ → Scan → Bytes → Option Bytes → Scan
take_stream s line none = s
take_stream s line (some ext) = record {
  found = append_some s.found (parse_entry ext line s.pending_headers);
  pending_extinf = none;
  pending_headers = [];
}

unfoldable pub add_option : Scan → Option (Bytes × Bytes) → Scan
add_option s none = s
add_option s (some (name, val)) = record s { pending_headers = insert name val s.pending_headers }

-- One round of the loop.
unfoldable pub handle : ⦃u : Unicode⦄ → Scan → Line → Scan
unfolding take_stream add_option
handle s blank = s
handle s (extinf line) = record s { pending_extinf = some line; pending_headers = [] }
handle s (vlc_opt body) = add_option s (parse_vlc_opt body)
handle s comment = s
handle s (stream line) = take_stream s line s.pending_extinf

abbrev pub line_of : Bytes → Line
line_of raw = classify (trim_space raw)

unfoldable pub scan : ⦃u : Unicode⦄ → Scan → List Bytes → Scan
scan s [] = s
scan s (raw ∷ raws) = scan (handle s (line_of raw)) raws

abbrev pub scan_start : Scan
scan_start = record { found = []; pending_extinf = none; pending_headers = [] }

-- The test for an HLS media playlist.
unfoldable pub is_media_playlist : Bytes → Bool
is_media_playlist src =
    contains src (codes "#EXT-X-TARGETDURATION") || contains src (codes "#EXT-X-MEDIA-SEQUENCE")

unfoldable pub parse : ⦃u : Unicode⦄ → Bytes → Parsed
parse src =
    if is_media_playlist src
    then failed not_extended_m3u
    else if not (contains src (codes "#EXTM3U"))
    then failed not_extended_m3u
    else if has_long_line (scan_lines src)
    then failed line_too_long
    else entries (scan scan_start (scan_lines src)).found
