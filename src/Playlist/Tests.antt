-- ===== src/Playlist/Tests.antt =====
-- The parser on small playlists.
use iptv2hdhr.Base.{
  inl, inr, ◌≡◌, ◌↔◌, ◌⊎◌, ◌≤◌, refl, [], ◌∷◌, Bytes, codes, Unicode, lookup, insert, has_prefix,
  trim_prefix, trim_space, contains, trim_byte, to_lower, split, cut, remove_first, equal, arith,
}
use iptv2hdhr.Base.Net.{query_unescape, canonical_mime_header_key}
use iptv2hdhr.Base.TextLaws.{IsInfix, Lacks}
use iptv2hdhr.Playlist.Entry.{Entry}
use iptv2hdhr.Playlist.Parser.{
  parse, entries, failed, not_extended_m3u, scan, scan_start, handle, classify, is_media_playlist,
  scan_lines, has_long_line,
}
use iptv2hdhr.Playlist.Parser.Blocks.{Block, IsBlock, block_lines, block_entries, scan_blocks}
use iptv2hdhr.Playlist.Parser.Entries.{length-parse-le, extinf_count}
use iptv2hdhr.Playlist.Parser.Errors.{parse-not_extended_m3u}
use iptv2hdhr.Playlist.Options.{
  parse_vlc_opt, split_url_headers, add_suffix_headers, add_suffix_header,
}
use iptv2hdhr.Base.Net.Escapes.{Escapes, no_bytes, raw, plus, percent}
use iptv2hdhr.Playlist.Options.RoundTrip.{Written, split_url_headers-url_of}
use iptv2hdhr.Playlist.Extinf.{parse_entry, find_attrs, take_attrs, trailing_name, entry_name}

instance abbrev ascii : Unicode
ascii = record { map_to_lower = λ s. s }

abbrev sample : Bytes
sample =
    codes
      "#EXTM3U\n#EXTINF:-1 TVG-ID=\"Ex.us\" group-title=\"News\",Example\n#EXTVLCOPT:http-referrer=https://a.b/c\n\nhttps://x.y/s.m3u8|user-agent=Moz%2f5+0&Referer=q\n"

abbrev sample_entry : Entry
sample_entry = record {
  name = codes "Example";
  tvg_id = codes "Ex.us";
  tvg_name = [];
  tvg_logo = [];
  group_title = codes "News";
  url = codes "https://x.y/s.m3u8";
  headers = (codes "Referer", codes "q") ∷ (codes "User-Agent", codes "Moz/5 0") ∷ [];
}

parse-sample : parse sample ≡ entries (sample_entry ∷ [])
unfolding parse scan handle classify is_media_playlist scan_lines has_long_line parse_vlc_opt
    split_url_headers add_suffix_headers add_suffix_header parse_entry find_attrs take_attrs
    trailing_name entry_name lookup insert has_prefix trim_prefix trim_space contains trim_byte
    to_lower split cut remove_first query_unescape canonical_mime_header_key equal
parse-sample = refl

parse-not_extended_m3u_example : (parse sample ≡ failed not_extended_m3u) ↔ (
    IsInfix (codes "#EXT-X-TARGETDURATION") sample
    ⊎ IsInfix (codes "#EXT-X-MEDIA-SEQUENCE") sample
    ⊎ ¬ IsInfix (codes "#EXTM3U") sample)
parse-not_extended_m3u_example = parse-not_extended_m3u sample

length-parse-le_example : 1 ≤ extinf_count (scan_lines sample)
length-parse-le_example = length-parse-le sample parse-sample

abbrev block : Block
block = record {
  extinf_line = codes "#EXTINF:-1,A";
  between = codes "#EXTVLCOPT:http-referrer=r" ∷ codes "# note" ∷ [];
  stream_line = codes " http://u ";
  ext = codes "#EXTINF:-1,A";
  url = codes "http://u";
}

block-IsBlock : IsBlock block
unfolding classify trim_space has_prefix trim_prefix
block-IsBlock = record { starts = refl; middle = (tt, (tt, tt)); ends = refl }

scan_blocks_example :
    (scan scan_start (block_lines (block ∷ block ∷ []))).found ≡ block_entries (block ∷ block ∷ [])
scan_blocks_example =
    scan_blocks scan_start (block ∷ block ∷ []) (block-IsBlock, (block-IsBlock, tt))

referer_plain :
    (canonical_mime_header_key (codes "Referer") ≡ codes "Referer")
    × (trim_space (codes "Referer") ≡ codes "Referer")
    × (trim_space (codes "q /") ≡ codes "q /")
unfolding canonical_mime_header_key trim_space
referer_plain = (refl, refl, refl)

referer_Lacks : Lacks b'&' (codes "Referer") × Lacks b'=' (codes "Referer")
referer_Lacks = ground arith

value-Escapes : Escapes (codes "q /") (codes "q+%2f")
value-Escapes =
    raw b'q' refl refl refl
      (plus (percent b'2' b'f' 2 15 (omega arith, inl refl) (omega arith, inr refl) no_bytes))

abbrev referer : Written
referer = record {
  key = codes "Referer";
  value = codes "q /";
  text = codes "q+%2f";
  has_key = refl;
  canonical = referer_plain.0;
  trimmed_key = referer_plain.1;
  trimmed_value = referer_plain.2;
  no_and = referer_Lacks.0;
  no_equals = referer_Lacks.1;
  escapes = value-Escapes;
}

split_url_headers-url_of_example :
    split_url_headers (codes "http://x|Referer=q+%2f") []
    ≡ (codes "http://x", (codes "Referer", codes "q /") ∷ [])
split_url_headers-url_of_example =
    split_url_headers-url_of (codes "http://x") (referer ∷ []) (ground arith) (tt, tt)
