-- ===== src/Main/Tests.antt =====
-- A program of one playlist and one channel, and two goroutines that give their snapshots to `Rebuild`
-- in the wrong order.
use iptv2hdhr.Base.{
  ℕ, ◌≡◌, refl, ◌⊎◌, inl, inr, false, none, List, [], ◌∷◌, ◌++◌, map, Bytes, codes, Unicode, lookup,
  insert, equal,
}
use iptv2hdhr.Base.Int.{pos}
use iptv2hdhr.Config.Schema.{Config, PlaylistSource}
use iptv2hdhr.Config.Defaults.{decimal}
use iptv2hdhr.Config.Load.{load}
use iptv2hdhr.Fetch.{fetching}
use iptv2hdhr.Fetch.Sources.{Get}
use iptv2hdhr.Playlist.Fetcher.{current}
use iptv2hdhr.Playlist.Fetcher.Merged.{Action, refreshes, merges, act}
use iptv2hdhr.Lineup.{Lineup, built, new, build, channel_of, lineup_of}
use iptv2hdhr.Lineup.Rebuild.{rebuild}
use iptv2hdhr.Guide.Xmltv.{Programme}
use iptv2hdhr.Guide.Seconds.{seconds_format}
use iptv2hdhr.Guide.Sorting.Insertion.{insertion}
use iptv2hdhr.Guide.Fetcher.{empty_index}
use iptv2hdhr.LogoProxy.{new_logo_handler}
use iptv2hdhr.StreamProxy.Session.{new_session}
use iptv2hdhr.StreamProxy.Subscriber.{new_subscriber}
use iptv2hdhr.Ssdp.{advertisement_of}
use iptv2hdhr.Server.{Server, Request, Encoders}
use iptv2hdhr.Server.Links.{deps_of}
use iptv2hdhr.Main.{
  World, Program, Running, starts, guide_acts, guide_act, first_guide_refreshes, acts, reads,
  rebuilds, first_program, first_refreshes, start, config_failed, advertise, int_text,
}
use iptv2hdhr.Main.Started.{IsStarted, start-IsStarted}
use iptv2hdhr.Guide.Fetcher.Published as Guides
use iptv2hdhr.Guide.Fetcher.Published.{GuideAction}
use iptv2hdhr.Lineup.Lookup.{first_numbered}
use iptv2hdhr.Lineup.Rebuild.Published.{expected_stream}
use iptv2hdhr.Playlist.Entry.{Entry}
use iptv2hdhr.Hdhr.{stream_path}
use iptv2hdhr.StreamProxy.Serve.{admit}
use iptv2hdhr.Main.Published.{IsPublished}
use iptv2hdhr.Main.Tuned.{IsTuned, admit-IsTuned}
use iptv2hdhr.Main.Served.{IsServed, Running-IsServed}
use iptv2hdhr.Main.Advertised.{IsDescribed, advertise-IsDescribed}

instance abbrev plain : Unicode
plain = record { map_to_lower = λ s. s }

abbrev source : PlaylistSource
source = record {
  name = codes "one";
  url = codes "http://a/1";
  refresh_interval = pos 60_000_000_000;
}

abbrev serve : Bytes → Get Bytes
serve text url etag last_modified =
    inr (record { data' = text; not_modified = false; etag = []; last_modified = [] })

abbrev old_text : Bytes
old_text = codes "#EXTM3U\n#EXTINF:-1,A\nhttp://x/1\n"

abbrev new_text : Bytes
new_text = codes "#EXTM3U\n#EXTINF:-1,A\nhttp://x/2\n"

abbrev cfg : Config
cfg = record {
  device = record {
    friendly_name = codes "T";
    manufacturer = codes "M";
    model_number = codes "N";
    device_id = codes "12345678";
    tuner_count = pos 4;
    http_port = pos 8080;
    base_url = [];
  };
  playlists = source ∷ [];
  guides = [];
  channels =
      record {
        number = codes "1";
        name = codes "A";
        logo = [];
        tvg_id = [];
        name_match = codes "a";
      }
      ∷ [];
}

abbrev decode : Bytes → Bytes ⊎ Config
decode [] = inl (codes "EOF")
decode (c ∷ s) = inr cfg

abbrev world : World Bytes
world = record {
  unmarshal = decode;
  suggestion = none;
  get_playlist = λ src. serve old_text;
  get_guide = λ src url etag last_modified. inl (fetching (codes "refused"));
  parse_document = λ text. none;
  time_format = seconds_format;
  sorter = insertion Programme;
}

abbrev lineup : Lineup
lineup = lineup_of (map channel_of cfg.channels) ((codes "1", 0) ∷ [])

lineup-built : new cfg.channels ≡ built lineup
unfolding new build lookup equal insert
lineup-built = refl

start-IsStarted_example :
    (start world (inr (codes "device:"))
      ≡ config_failed (load world.unmarshal world.suggestion (inr (codes "device:"))))
    ⊎ IsStarted world (inr (codes "device:"))
start-IsStarted_example = start-IsStarted world (inr (codes "device:"))

abbrev at_start : Program
at_start = first_program world cfg lineup

-- What the goroutines do: the first one reads the old snapshot; the playlist changes; the second one
-- reads the new snapshot and rebuilds with it; then the first one rebuilds.
abbrev done : List (Action Bytes)
done =
    (first_refreshes world cfg ++ merges ∷ [])
    ++ refreshes source (serve new_text) ∷ []
    ++ merges ∷ []

abbrev refreshed : Program
refreshed = record at_start {
  guides = guide_act world Guides.merges at_start.guides;
  playlists = act {E = Bytes} merges (act (refreshes source (serve new_text)) at_start.playlists);
}

abbrev at_end : Program
at_end = record refreshed {
  lineup =
      rebuild (rebuild at_start.lineup (current refreshed.playlists)) (current at_start.playlists);
}

abbrev guided : List (GuideAction Bytes)
guided = (first_guide_refreshes world cfg ++ Guides.merges ∷ []) ++ Guides.merges ∷ []

at_end_runs : Running world cfg lineup done guided at_end
unfolding first_program
at_end_runs = rebuilds [] [] (current at_start.playlists) refl (
    rebuilds [] (current at_start.playlists ∷ []) (current refreshed.playlists) refl (
      guide_acts Guides.merges
        (reads (acts merges (acts (refreshes source (serve new_text)) (reads starts))))))

Running-IsServed_example : IsServed world cfg done guided at_end
Running-IsServed_example = Running-IsServed world cfg lineup-built at_end_runs

-- The new playlist, which the second merge has published, is not in the lineup.
at_end_lem : at_end.lineup ≡ at_start.lineup
unfolding first_program rebuild
at_end_lem = refl

abbrev encoders : Encoders ℕ
encoders = record { clean_path = λ path. path; marshal = λ doc. inr []; gzip = λ text. text }

abbrev server : Server
server = record {
  sessions = record {
    sessions = [];
    session = λ i. new_session [] (record { url = []; headers = [] }) 0;
    session_count = 0;
    sub = λ i. new_subscriber;
    sub_count = 0;
    cancelling = [];
  };
  cache = new_logo_handler;
}

abbrev request : Request
request = record { path = []; host = codes "h"; accept_encoding = [] }

advertise_lem :
    advertise {E = ℕ} cfg (inr (codes "10.0.0.2"))
    ≡ inr (
        advertisement_of
          (codes "12345678")
          (codes "http://10.0.0.2:8080/device.xml")
          (codes "iptv2hdhr/1.0"))
unfolding advertise int_text decimal
advertise_lem = refl

advertise-IsDescribed_example :
    IsDescribed encoders seconds_format
      (insertion Programme)
      (deps_of cfg lineup empty_index 0)
      server
      request
      (inr (codes "10.0.0.2"))
      (advertisement_of
        (codes "12345678")
        (codes "http://10.0.0.2:8080/device.xml")
        (codes "iptv2hdhr/1.0"))
advertise-IsDescribed_example =
    advertise-IsDescribed encoders seconds_format (insertion Programme)
      (deps_of cfg lineup empty_index 0) server request (inr (codes "10.0.0.2")) refl advertise_lem

admit-IsTuned_example :
    (es : List Entry) × IsPublished cfg.playlists done es
    × IsTuned server.sessions
        (codes "1")
        (expected_stream (first_numbered (codes "1") (map channel_of cfg.channels)) es)
        (admit server.sessions at_end.lineup (stream_path (codes "1")))
admit-IsTuned_example = admit-IsTuned world cfg server.sessions (codes "1") lineup-built at_end_runs
