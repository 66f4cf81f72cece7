-- ===== src/Playlist/Fetcher/Tests.antt =====
-- Two sources, of which one has a playlist and the other fails.
use iptv2hdhr.Base.{◌≡◌, inl, inr, true, false, List, [], ◌∷◌, Bytes, codes, Unicode}
use iptv2hdhr.Base.Int.{pos}
use iptv2hdhr.Config.Schema.{PlaylistSource}
use iptv2hdhr.Fetch.{fetching}
use iptv2hdhr.Fetch.Sources.{Get}
use iptv2hdhr.Fetch.Sources.Cells.{empty_cells, refresh_cells}
use iptv2hdhr.Playlist.Fetcher.{new_fetcher, current, merge, parse_playlist}
use iptv2hdhr.Playlist.Fetcher.Merged.{
  Action, refreshes, merges, run, refreshes_of, cell_entries, current-run,
}

instance abbrev plain : Unicode
plain = record { map_to_lower = λ s. s }

abbrev one : PlaylistSource
one = record { name = codes "one"; url = codes "http://a/1"; refresh_interval = pos 60_000_000_000 }

abbrev two : PlaylistSource
two = record { name = codes "two"; url = codes "http://a/2"; refresh_interval = pos 60_000_000_000 }

-- A server that knows its playlist's ETag.
abbrev serve : Get Bytes
serve url [] last_modified = inr (record {
  data' = codes "#EXTM3U\n#EXTINF:-1,Example\nhttp://x/y\n";
  not_modified = false;
  etag = codes "v1";
  last_modified = [];
})
serve url (c ∷ etag) last_modified =
    inr (record { data' = []; not_modified = true; etag = []; last_modified = [] })

abbrev down : Get Bytes
down url etag last_modified = inl (fetching (codes "refused"))

abbrev history : List (Action Bytes)
history =
    refreshes one serve
    ∷ refreshes two down
    ∷ merges
    ∷ refreshes one serve
    ∷ refreshes one down
    ∷ []

current-run_example :
    current (merge (run history (new_fetcher (one ∷ two ∷ []))))
    ≡ cell_entries
        (refresh_cells parse_playlist (refreshes_of history) empty_cells)
        (one ∷ two ∷ [])
current-run_example = current-run history (one ∷ two ∷ [])
