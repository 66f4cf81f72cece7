-- ===== src/Server/Tests.antt =====
-- The links of a server of two channels, one with a logo.
use iptv2hdhr.Base.{
  true, false, inl, All, ◌++◌, ◌==◌, ==_iff, trim_prefix, arith, if◌then◌else◌, ℕ, ◌≡◌, refl, List,
  [], ◌∷◌, map, Bytes, codes, lookup, insert, equal, has_prefix, inr, Unicode,
}
use iptv2hdhr.Base.Int.{pos}
use iptv2hdhr.Config.Schema.{Config, ChannelConfig}
use iptv2hdhr.Playlist.Entry.{Entry}
use iptv2hdhr.Lineup.{Lineup, built, new, build, channel_of, lineup_of}
use iptv2hdhr.Lineup.Rebuild.Published.{rebuild_all}
use iptv2hdhr.Guide.Xmltv.{Programme}
use iptv2hdhr.Guide.Seconds.{seconds_format}
use iptv2hdhr.Guide.Sorting.Insertion.{insertion}
use iptv2hdhr.Guide.Fetcher.{empty_index}
use iptv2hdhr.Hdhr.{base_url_of}
use iptv2hdhr.Server.Urls.{is_host_byte, IsPathText, IsOrigin, UrlPaths}
use iptv2hdhr.LogoProxy.{new_logo_handler}
use iptv2hdhr.StreamProxy.Session.{new_session}
use iptv2hdhr.StreamProxy.Subscriber.{new_subscriber}
use iptv2hdhr.Server.{
  Server, Request, Encoders, to_route, moved, guide_xml, route_of, longest_match, matches_pattern,
}
use iptv2hdhr.Server.Links.{KeepsPaths, IsLinked, deps_of, serve-IsLinked}

instance abbrev plain : Unicode
plain = record { map_to_lower = λ s. s }

abbrev slot : Bytes → Bytes → ChannelConfig
slot number logo = record {
  number = number;
  name = codes "A";
  logo = logo;
  tvg_id = codes "a";
  name_match = [];
}

abbrev tuner : Config
tuner = record {
  device = record {
    friendly_name = codes "T";
    manufacturer = codes "M";
    model_number = codes "N";
    device_id = codes "12345678";
    tuner_count = pos 4;
    http_port = pos 8080;
    base_url = [];
  };
  playlists = [];
  guides = [];
  channels = slot (codes "1") (codes "http://l/1") ∷ slot (codes "2.1") [] ∷ [];
}

abbrev lineup : Lineup
lineup = lineup_of (map channel_of tuner.channels) ((codes "1", 0) ∷ (codes "2.1", 1) ∷ [])

lineup-built : new tuner.channels ≡ built lineup
unfolding new build lookup equal insert
lineup-built = refl

-- A clean path stays as it is.
abbrev encoders : Encoders ℕ
encoders = record { clean_path = λ path. path; marshal = λ doc. inr []; gzip = λ text. text }

encoders-KeepsPaths : KeepsPaths encoders.clean_path (map channel_of tuner.channels)
encoders-KeepsPaths = record {
  lineup = refl;
  stream_paths = (refl, (refl, tt));
  logo_paths = (refl, (refl, tt));
}

-- The guide's path is an exact pattern; the slash of a subtree is added by a redirect.
routes_lem :
    (route_of (λ path. path) (codes "/guide.xml") ≡ to_route guide_xml)
    × (route_of (λ path. path) (codes "/logo") ≡ moved (codes "/logo/"))
unfolding route_of longest_match matches_pattern equal has_prefix
routes_lem = (refl, refl)

abbrev server : Server
server = record {
  sessions = record {
    sessions = [];
    session = λ i. new_session [] (record { url = []; headers = [] }) 0;
    session_count = 0;
    sub = λ i. new_subscriber;
    sub_count = 0;
    cancelling = [];
  };
  cache = new_logo_handler;
}

abbrev request : Request
request = record { path = codes "/lineup.json"; host = codes "h"; accept_encoding = [] }

-- The text from the first slash on.
from_slash : Bytes → Bytes
from_slash [] = []
from_slash (c ∷ s) = let rest = from_slash s in if c == b'/' then c ∷ s else rest

-- The path of a URL with a scheme.
path_behind_host : Bytes → Bytes
unfolding from_slash
path_behind_host url = from_slash (
    if has_prefix url (codes "https://")
    then trim_prefix url (codes "https://")
    else trim_prefix url (codes "http://"))

from_slash-host :
    (host rest : Bytes)
    → All (λ c. is_host_byte c ≡ true) host
    → from_slash (host ++ b'/' ∷ rest) ≡ b'/' ∷ rest
unfolding from_slash
from_slash-host [] rest h = refl
from_slash-host (c ∷ host) rest h = rw (no_slash c h.0, from_slash-host host rest h.1) refl
  where
    no_slash : (c : ℕ) → is_host_byte c ≡ true → (c == b'/') ≡ false
    no_slash c h = ground (arith, h, ==_iff c b'/')

path_behind_host-UrlPaths : UrlPaths path_behind_host
unfolding path_behind_host has_prefix trim_prefix
path_behind_host-UrlPaths = record {
  behind_origin = λ base rest origin plain. elim origin.1 [
    | inl e ↦ rw e (from_slash-host origin.0 rest origin.2)
    | inr e ↦ rw e (from_slash-host origin.0 rest origin.2)
  ];
}

host_base : IsOrigin (base_url_of tuner (codes "h"))
unfolding base_url_of
host_base = (codes "h", inl refl, (refl, tt))

plain_numbers : All (λ ch. IsPathText ch.number) (map channel_of tuner.channels)
plain_numbers = ground arith

abbrev updates : List (List Entry)
updates = [] ∷ []

serve-IsLinked_example :
    IsLinked encoders seconds_format
      (insertion Programme)
      (deps_of tuner (rebuild_all lineup updates) empty_index 0)
      server
      request
      path_behind_host
serve-IsLinked_example =
    serve-IsLinked encoders seconds_format (insertion Programme) tuner updates empty_index 0 server
      request path_behind_host path_behind_host-UrlPaths host_base plain_numbers lineup-built
      encoders-KeepsPaths
