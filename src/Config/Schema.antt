-- ===== src/Config/Schema.antt =====
-- internal/config/config.go: the records of the configuration file.
use iptv2hdhr.Base.{List, Bytes}
use iptv2hdhr.Base.Int.{ℤ}

-- `time.Duration`, in nanoseconds.
abbrev pub Duration : Type 0
Duration = ℤ

pub record DeviceConfig : Type 0 where
  pub friendly_name : Bytes
  pub manufacturer : Bytes
  pub model_number : Bytes
  pub device_id : Bytes
  pub tuner_count : ℤ
  pub http_port : ℤ
  pub base_url : Bytes

pub record PlaylistSource : Type 0 where
  pub name : Bytes
  pub url : Bytes
  pub refresh_interval : Duration

pub record GuideSource : Type 0 where
  pub name : Bytes
  pub url : Bytes
  pub refresh_interval : Duration

-- One slot of the lineup.
pub record ChannelConfig : Type 0 where
  pub number : Bytes
  pub name : Bytes
  pub logo : Bytes
  pub tvg_id : Bytes
  pub name_match : Bytes

pub record Config : Type 0 where
  pub device : DeviceConfig
  pub playlists : List PlaylistSource
  pub guides : List GuideSource
  pub channels : List ChannelConfig
