-- ===== src/Playlist/Fetcher.antt =====
-- internal/playlist/fetcher.go. The snapshot's atomic pointer is a field, `none` before the first merge.
-- A fetch is a parameter of each refresh, since the network may answer each one differently.
pub mod Merged
mod Loop
mod Tests
use iptv2hdhr.Base.{Option, none, some, List, [], ◌∷◌, ◌++◌, Bytes, Dict, lookup, Unicode}
use iptv2hdhr.Config.Schema.{PlaylistSource}
use iptv2hdhr.Fetch.Sources.{Kept, Get, no_copies, refresh_source}
use iptv2hdhr.Playlist.Entry.{Entry}
use iptv2hdhr.Playlist.Parser.{Parsed, parse}

pub record Fetcher : Type 0 where
  pub sources : List PlaylistSource
  pub kept : Kept (List Entry)
  pub published : Option (List Entry)

-- `NewFetcher`
unfoldable pub new_fetcher : List PlaylistSource → Fetcher
new_fetcher sources = record { sources = sources; kept = no_copies; published = none }

-- `Current`
unfoldable pub current : Fetcher → List Entry
current f = elim f.published [ none ↦ [] | some es ↦ es ]

-- f.lastGood[src.Name]
abbrev pub entries_of : Option (List Entry) → List Entry
entries_of none = []
entries_of (some es) = es

abbrev pub good_entries : Kept (List Entry) → PlaylistSource → List Entry
good_entries k src = entries_of (lookup src.name k.last_good)

-- The loop of `merge`.
unfoldable pub merged : Kept (List Entry) → List PlaylistSource → List Entry
merged k [] = []
merged k (src ∷ srcs) = good_entries k src ++ merged k srcs

unfoldable pub merge : Fetcher → Fetcher
merge f = record f { published = some (merged f.kept f.sources) }

abbrev pub parsed_entries : Parsed → Option (List Entry)
parsed_entries (Parsed.entries es) = some es
parsed_entries (Parsed.failed err) = none

module _ ⦃u : Unicode⦄ where
  abbrev pub parse_playlist : Bytes → Option (List Entry)
  parse_playlist text = parsed_entries (parse text)

  module _ {E : Type 0} where
    -- `refreshSource`
    unfoldable pub refresh_playlist : Get E → PlaylistSource → Fetcher → Fetcher
    refresh_playlist get src f = record f {
      kept = refresh_source parse_playlist get src.name src.url f.kept;
    }

    -- The loop of `RefreshNow`; each source has a fetch of its own.
    unfoldable pub refresh_each : (PlaylistSource → Get E) → List PlaylistSource → Fetcher → Fetcher
    refresh_each net [] f = f
    refresh_each net (src ∷ srcs) f = refresh_each net srcs (refresh_playlist (net src) src f)

    -- `RefreshNow`
    unfoldable pub refresh_now : (PlaylistSource → Get E) → Fetcher → Fetcher
    refresh_now net f = merge (refresh_each net f.sources f)

    -- A tick of the goroutine that `Start` runs for a source: the fetcher, and what `onUpdate` is
    -- called with.
    unfoldable pub tick : Get E → PlaylistSource → Fetcher → Fetcher × List Entry
    tick get src f =
        (merge (refresh_playlist get src f), current (merge (refresh_playlist get src f)))
