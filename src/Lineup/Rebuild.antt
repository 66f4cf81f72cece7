-- ===== src/Lineup/Rebuild.antt =====
-- internal/lineup/lineup.go: `Rebuild`, which publishes a new snapshot.
pub mod Published
use iptv2hdhr.Base.{Option, none, some, List, [], ◌∷◌, Unicode, Dict, insert}
use iptv2hdhr.Playlist.Entry.{Entry}
use iptv2hdhr.Lineup.{Channel, Stream, Lineup}
use iptv2hdhr.Lineup.Match.{MatchIndex, match_channel, build_match_index}

abbrev pub stream_of : Entry → Stream
stream_of e = record { url = e.url; headers = e.headers }

abbrev pub add_stream : Channel → Option Entry → Dict Stream → Dict Stream
add_stream ch none streams = streams
add_stream ch (some e) streams = insert ch.number (stream_of e) streams

module _ ⦃u : Unicode⦄ where
  -- The loop over the channels.
  unfoldable pub add_streams : MatchIndex → List Channel → Dict Stream → Dict Stream
  add_streams index [] streams = streams
  add_streams index (ch ∷ chs) streams =
      add_streams index chs (add_stream ch (match_channel ch index) streams)

  unfoldable pub rebuild : Lineup → List Entry → Lineup
  rebuild l es = record l {
    current = record {
      channels = l.channels;
      streams = add_streams (build_match_index es) l.channels [];
    };
  }
