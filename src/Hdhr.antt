-- ===== src/Hdhr.antt =====
-- internal/hdhr: the documents that Plex discovers the tuner by, before their encoding as JSON or XML,
-- which is Go's. `host` is the request's Host header.
pub mod Tunable
use iptv2hdhr.Base.{ℕ, List, [], ◌∷◌, ◌++◌, Bytes, codes, is_empty, trim_prefix, if◌then◌else◌}
use iptv2hdhr.Base.Int.{ℤ}
use iptv2hdhr.Config.Schema.{Config}
use iptv2hdhr.Lineup.{Channel, Lineup}

pub record Discover : Type 0 where
  pub friendly_name : Bytes
  pub model_number : Bytes
  pub firmware_name : Bytes
  pub firmware_version : Bytes
  pub device_id : Bytes
  pub device_auth : Bytes
  pub base_url : Bytes
  pub lineup_url : Bytes
  pub tuner_count : ℤ
  pub manufacturer : Bytes

pub record LineupStatus : Type 0 where
  pub scan_in_progress : ℕ
  pub scan_possible : ℕ
  pub source : Bytes
  pub source_list : List Bytes

pub record LineupEntry : Type 0 where
  pub guide_number : Bytes
  pub guide_name : Bytes
  pub url : Bytes
  pub tags : Bytes

pub record DeviceDescription : Type 0 where
  pub device_type : Bytes
  pub friendly_name : Bytes
  pub manufacturer : Bytes
  pub model_name : Bytes
  pub model_number : Bytes
  pub udn : Bytes

pub record Capability : Type 0 where
  pub xmlns : Bytes
  pub major : ℕ
  pub minor : ℕ
  pub url_base : Bytes
  pub device : DeviceDescription

-- `BaseURL`
unfoldable pub base_url_of : Config → Bytes → Bytes
base_url_of cfg host =
    if is_empty cfg.device.base_url then codes "http://" ++ host else cfg.device.base_url

-- `DiscoverHandler`
unfoldable pub discover : Config → Bytes → Discover
discover cfg host = record {
  friendly_name = cfg.device.friendly_name;
  model_number = cfg.device.model_number;
  firmware_name = codes "bin_1.0";
  firmware_version = codes "1.0";
  device_id = cfg.device.device_id;
  device_auth = cfg.device.friendly_name;
  base_url = base_url_of cfg host;
  lineup_url = base_url_of cfg host ++ codes "/lineup.json";
  tuner_count = cfg.device.tuner_count;
  manufacturer = cfg.device.manufacturer;
}

-- `LineupStatusHandler`
abbrev pub lineup_status : LineupStatus
lineup_status = record {
  scan_in_progress = 0;
  scan_possible = 1;
  source = codes "Cable";
  source_list = codes "Cable" ∷ [];
}

-- The path that a channel is tuned by.
abbrev pub stream_path : Bytes → Bytes
stream_path number = codes "/stream/" ++ number

unfoldable pub lineup_entry : Bytes → Channel → LineupEntry
lineup_entry base ch = record {
  guide_number = ch.number;
  guide_name = ch.name;
  url = base ++ stream_path ch.number;
  tags = [];
}

-- The loop of `LineupHandler`.
unfoldable pub lineup_entries : Bytes → List Channel → List LineupEntry
lineup_entries base [] = []
lineup_entries base (ch ∷ chs) = lineup_entry base ch ∷ lineup_entries base chs

-- `LineupHandler`
unfoldable pub lineup_json : Config → Bytes → Lineup → List LineupEntry
lineup_json cfg host l = lineup_entries (base_url_of cfg host) l.channels

-- `DeviceXMLHandler`
unfoldable pub device_xml : Config → Bytes → Capability
device_xml cfg host = record {
  xmlns = codes "urn:schemas-upnp-org:device-1-0";
  major = 1;
  minor = 0;
  url_base = base_url_of cfg host;
  device = record {
    device_type = codes "urn:schemas-upnp-org:device:MediaServer:1";
    friendly_name = cfg.device.friendly_name;
    manufacturer = cfg.device.manufacturer;
    model_name = cfg.device.model_number;
    model_number = cfg.device.model_number;
    udn = codes "uuid:" ++ cfg.device.device_id;
  };
}
