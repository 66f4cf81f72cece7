-- ===== src/Config/Tests.antt =====
-- A small configuration file, and the theorems on it.
use iptv2hdhr.Base.{
  ◌≡◌, ◌↔◌, ◌⊎◌, inl, inr, refl, none, some, [], ◌∷◌, Bytes, codes, lookup, insert, equal, is_empty,
  true, arith,
}
use iptv2hdhr.Base.Int.{pos, negsuc}
use iptv2hdhr.Config.Schema.{Config, ChannelConfig}
use iptv2hdhr.Config.Defaults.{
  apply_defaults, device_defaults, playlist_defaults, guide_defaults, decimal,
}
use iptv2hdhr.Config.Defaults.Settled.{IsSettled, apply_defaults-IsSettled}
use iptv2hdhr.Config.Validate.{
  Problem, SourceKind, validate, device_problems, device_id_problems, matches_device_id,
  is_hex_digit, source_problems, playlist_problems, guide_problems, is_seen, check_number,
  channel_problems,
}
use iptv2hdhr.Config.Validate.Rules.{IsValid, validate-IsValid}
use iptv2hdhr.Config.DeviceId.{Random, generate_device_id}
use iptv2hdhr.Config.DeviceId.Suggested.{validate-suggested}
use iptv2hdhr.Config.Load.{load, loaded}
use iptv2hdhr.Config.Load.Runnable.{load-IsValid}
use iptv2hdhr.Lineup.{Lineup, built, new}

abbrev slot : Bytes → Bytes → ChannelConfig
slot number name = record { number = number; name = name; logo = []; tvg_id = []; name_match = [] }

-- Nothing but what has no default.
abbrev raw : Config
raw = record {
  device = record {
    friendly_name = [];
    manufacturer = [];
    model_number = [];
    device_id = codes "1234abCD";
    tuner_count = pos 0;
    http_port = pos 0;
    base_url = [];
  };
  playlists =
      record { name = []; url = codes "http://a/x.m3u"; refresh_interval = pos 0 }
      ∷ record { name = codes "own"; url = codes "http://b/x.m3u"; refresh_interval = pos 0 }
      ∷ [];
  guides = record { name = []; url = codes "http://a/x.xml"; refresh_interval = pos 0 } ∷ [];
  channels = slot (codes "1") (codes "One") ∷ slot (codes "2") (codes "Two") ∷ [];
}

apply_defaults_lem :
    (apply_defaults raw).playlists
    ≡ record {
      name = codes "playlist-1";
      url = codes "http://a/x.m3u";
      refresh_interval = pos 1_800_000_000_000;
    }
      ∷ record {
        name = codes "own";
        url = codes "http://b/x.m3u";
        refresh_interval = pos 1_800_000_000_000;
      }
      ∷ []
unfolding apply_defaults playlist_defaults decimal
apply_defaults_lem = refl

-- Every problem of a bad configuration is reported, in order.
abbrev bad : Config
bad = record raw {
  device = record (apply_defaults raw).device {
    device_id = codes "xyz";
    http_port = pos 70_000;
    tuner_count = negsuc 0;
  };
  playlists = [];
  guides = record { name = codes "g"; url = []; refresh_interval = pos 1 } ∷ [];
  channels = slot (codes "1") (codes "One") ∷ slot (codes "1") [] ∷ slot [] (codes "Two") ∷ [];
}

validate_lem :
    validate none bad
    ≡ Problem.bad_http_port (pos 70_000)
      ∷ Problem.bad_tuner_count (negsuc 0)
      ∷ Problem.bad_device_id (codes "xyz")
      ∷ Problem.no_playlists
      ∷ Problem.url_missing SourceKind.guides 0 (codes "g")
      ∷ Problem.short_refresh_interval SourceKind.guides 0 (codes "g") (pos 1)
      ∷ Problem.number_duplicate 1 (codes "1")
      ∷ Problem.channel_name_missing 1 (codes "1")
      ∷ Problem.number_missing 2
      ∷ []
unfolding validate device_problems device_id_problems matches_device_id is_hex_digit source_problems
    playlist_problems guide_problems channel_problems check_number is_seen lookup insert equal
validate_lem = refl

apply_defaults-IsSettled_example :
    IsSettled (apply_defaults raw) × (IsSettled raw → apply_defaults raw ≡ raw)
apply_defaults-IsSettled_example = apply_defaults-IsSettled raw

validate-IsValid_example :
    (validate (some (codes "0A1B2C3D")) (apply_defaults raw) ≡ []) ↔ IsValid (apply_defaults raw)
validate-IsValid_example = validate-IsValid (some (codes "0A1B2C3D")) (apply_defaults raw)

-- Any text but the empty one decodes to the configuration.
abbrev decode : Bytes → Bytes ⊎ Config
decode [] = inl (codes "EOF")
decode (c ∷ s) = inr raw

load_lem : load decode none (inr (codes "device:")) ≡ loaded (apply_defaults raw)
unfolding load apply_defaults device_defaults playlist_defaults guide_defaults decimal validate
    device_problems device_id_problems matches_device_id is_hex_digit source_problems
    playlist_problems guide_problems channel_problems check_number is_seen lookup insert equal
load_lem = refl

load-IsValid_example :
    IsSettled (apply_defaults raw)
    × IsValid (apply_defaults raw)
    × (l : Lineup) × (new (apply_defaults raw).channels ≡ built l)
load-IsValid_example =
    load-IsValid decode none (inr (codes "device:")) (apply_defaults raw) load_lem

abbrev random : Random
random = record { b0 = 18; b1 = 171; b2 = 205; b3 = 9 }

generate_device_id_lem : generate_device_id (some random) ≡ some (codes "12ABCD09")
unfolding generate_device_id
generate_device_id_lem = refl

abbrev unnamed : Config
unnamed = record (apply_defaults raw) {
  device = record (apply_defaults raw).device { device_id = [] };
}

validate-unnamed :
    validate (some (codes "12ABCD09")) unnamed
    ≡ Problem.device_id_missing (some (codes "12ABCD09")) ∷ []
unfolding apply_defaults device_defaults playlist_defaults guide_defaults decimal validate
    device_problems device_id_problems matches_device_id is_hex_digit source_problems
    playlist_problems guide_problems channel_problems check_number is_seen lookup insert equal
validate-unnamed = refl

unnamed-is_empty : is_empty unnamed.device.device_id ≡ true
unnamed-is_empty = refl

validate-suggested_example :
    validate none
      (record unnamed { device = record unnamed.device { device_id = codes "12ABCD09" } })
    ≡ []
validate-suggested_example =
    validate-suggested unnamed random (codes "12ABCD09") none
      (record { lt0 = omega arith; lt1 = omega arith; lt2 = omega arith; lt3 = omega arith })
      generate_device_id_lem unnamed-is_empty validate-unnamed
