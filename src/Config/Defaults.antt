-- ===== src/Config/Defaults.antt =====
-- internal/config/config.go: `applyDefaults`.
pub mod Settled
use iptv2hdhr.Base.{
  ℕ, zero, suc, ◌+◌, ◌*◌, ◌/◌, ◌%◌, Bool, true, false, List, [], ◌∷◌, ◌++◌, ltb, ◌==◌,
  if◌then◌else◌, Bytes, codes, is_empty,
}
use iptv2hdhr.Base.Int.{ℤ, pos, negsuc}
use iptv2hdhr.Config.Schema.{Config, DeviceConfig, PlaylistSource, GuideSource, Duration}

abbrev pub default_friendly_name : Bytes
default_friendly_name = codes "IPTV Tuner"

abbrev pub default_model_number : Bytes
default_model_number = codes "HDTC-2US"

abbrev pub default_manufacturer : Bytes
default_manufacturer = codes "Silicondust"

abbrev pub default_tuner_count : ℤ
default_tuner_count = pos 4

abbrev pub default_http_port : ℤ
default_http_port = pos 8080

abbrev pub minute : ℕ
minute = 60 * 1_000_000_000

abbrev pub default_refresh_interval : Duration
default_refresh_interval = pos (30 * minute)

abbrev pub min_refresh_interval : Duration
min_refresh_interval = pos (1 * minute)

-- The fuel bounds the digits: a number has no more digits than its value and one.
decimal_onto : ℕ → ℕ → Bytes → Bytes
decimal_onto zero n acc = acc
decimal_onto (suc fuel) n acc =
    let rest = decimal_onto fuel (n / 10) ((b'0' + n % 10) ∷ acc) in
    if ltb n 10 then (b'0' + n) ∷ acc else rest

-- `%d`
unfoldable pub decimal : ℕ → Bytes
unfolding decimal_onto
decimal n = decimal_onto (suc n) n []

-- x == 0
abbrev pub is_zero : ℤ → Bool
is_zero (pos n) = n == 0
is_zero (negsuc n) = false

abbrev pub text_or : Bytes → Bytes → Bytes
text_or default s = if is_empty s then default else s

abbrev pub int_or : ℤ → ℤ → ℤ
int_or default n = if is_zero n then default else n

unfoldable pub device_defaults : DeviceConfig → DeviceConfig
device_defaults d = record d {
  friendly_name = text_or default_friendly_name d.friendly_name;
  manufacturer = text_or default_manufacturer d.manufacturer;
  model_number = text_or default_model_number d.model_number;
  tuner_count = int_or default_tuner_count d.tuner_count;
  http_port = int_or default_http_port d.http_port;
}

-- The loops over the sources, from index `i` on.
unfoldable pub playlist_defaults : ℕ → List PlaylistSource → List PlaylistSource
playlist_defaults i [] = []
playlist_defaults i (p ∷ ps) =
    record p {
      name = text_or (codes "playlist-" ++ decimal (i + 1)) p.name;
      refresh_interval = int_or default_refresh_interval p.refresh_interval;
    }
    ∷ playlist_defaults (i + 1) ps

unfoldable pub guide_defaults : ℕ → List GuideSource → List GuideSource
guide_defaults i [] = []
guide_defaults i (g ∷ gs) =
    record g {
      name = text_or (codes "guide-" ++ decimal (i + 1)) g.name;
      refresh_interval = int_or default_refresh_interval g.refresh_interval;
    }
    ∷ guide_defaults (i + 1) gs

unfoldable pub apply_defaults : Config → Config
apply_defaults c = record c {
  device = device_defaults c.device;
  playlists = playlist_defaults 0 c.playlists;
  guides = guide_defaults 0 c.guides;
}
