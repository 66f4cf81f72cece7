-- ===== src/Config/Validate.antt =====
-- internal/config/config.go: `Validate`. A problem is a value in place of its message; the message's
-- varying parts are its arguments.
pub mod Rules
use iptv2hdhr.Base.{
  ℕ, zero, suc, ◌+◌, Bool, true, false, not, ◌&&◌, ◌||◌, Option, List, [], ◌∷◌, ◌++◌, leb, ◌==◌,
  length, if◌then◌else◌, Bytes, is_empty, Dict, lookup, insert, none, some,
}
use iptv2hdhr.Base.Int.{ℤ, pos, ltb_ℤ}
use iptv2hdhr.Config.Schema.{
  Config, DeviceConfig, PlaylistSource, GuideSource, ChannelConfig, Duration,
}
use iptv2hdhr.Config.Defaults.{min_refresh_interval}

-- What a list of sources is called in a message.
pub data SourceKind : Type 0 where
  playlists : SourceKind
  guides : SourceKind

pub data Problem : Type 0 where
  bad_http_port : ℤ → Problem
  bad_tuner_count : ℤ → Problem
  device_id_missing : Option Bytes → Problem
  bad_device_id : Bytes → Problem
  no_playlists : Problem
  url_missing : SourceKind → ℕ → Bytes → Problem
  short_refresh_interval : SourceKind → ℕ → Bytes → Duration → Problem
  no_channels : Problem
  number_missing : ℕ → Problem
  number_duplicate : ℕ → Bytes → Problem
  channel_name_missing : ℕ → Bytes → Problem

-- errs = append(errs, ...)
abbrev pub report : Bool → Problem → List Problem
report bad p = if bad then p ∷ [] else []

unfoldable pub is_hex_digit : ℕ → Bool
is_hex_digit c =
    (leb b'0' c && leb c b'9') || (leb b'A' c && leb c b'F') || (leb b'a' c && leb c b'f')

abbrev pub all_hex : Bytes → Bool
all_hex [] = true
all_hex (c ∷ s) = is_hex_digit c && all_hex s

-- `deviceIDPattern.MatchString`
unfoldable pub matches_device_id : Bytes → Bool
matches_device_id s = (length s == 8) && all_hex s

-- `suggestion` is what `generateDeviceID` gives, which draws random bytes.
unfoldable pub device_id_problems : Option Bytes → Bytes → List Problem
device_id_problems suggestion device_id =
    if is_empty device_id
    then device_id_missing suggestion ∷ []
    else report (not (matches_device_id device_id)) (bad_device_id device_id)

unfoldable pub device_problems : Option Bytes → DeviceConfig → List Problem
device_problems suggestion d =
    report (ltb_ℤ d.http_port (pos 1) || ltb_ℤ (pos 65535) d.http_port) (bad_http_port d.http_port)
    ++ report (ltb_ℤ d.tuner_count (pos 1)) (bad_tuner_count d.tuner_count)
    ++ device_id_problems suggestion d.device_id

-- One round of either loop over the sources.
unfoldable pub source_problems : SourceKind → ℕ → Bytes → Bytes → Duration → List Problem
source_problems kind i name url interval =
    report (is_empty url) (url_missing kind i name)
    ++ report (ltb_ℤ interval min_refresh_interval) (short_refresh_interval kind i name interval)

-- The loops over the sources, from index `i` on.
unfoldable pub playlist_problems : ℕ → List PlaylistSource → List Problem
playlist_problems i [] = []
playlist_problems i (p ∷ ps) =
    source_problems playlists i p.name p.url p.refresh_interval ++ playlist_problems (i + 1) ps

unfoldable pub guide_problems : ℕ → List GuideSource → List Problem
guide_problems i [] = []
guide_problems i (g ∷ gs) =
    source_problems guides i g.name g.url g.refresh_interval ++ guide_problems (i + 1) gs

unfoldable pub is_seen : Bytes → Dict Bool → Bool
is_seen n seen = elim (lookup n seen) [ none ↦ false | some b ↦ b ]

-- The first test of the channels' loop: the problems, and `seenNumbers` behind it.
unfoldable pub check_number : Dict Bool → ℕ → Bytes → List Problem × Dict Bool
check_number seen i number =
    if is_empty number
    then (number_missing i ∷ [], seen)
    else if is_seen number seen
    then (number_duplicate i number ∷ [], seen)
    else ([], insert number true seen)

-- The loop over the channels, from index `i` on.
unfoldable pub channel_problems : Dict Bool → ℕ → List ChannelConfig → List Problem
channel_problems seen i [] = []
channel_problems seen i (ch ∷ chs) =
    let (found, seen') = check_number seen i ch.number in
    found
    ++ report (is_empty ch.name) (channel_name_missing i ch.number)
    ++ channel_problems seen' (i + 1) chs

abbrev pub is_nil {ℓ} : {A : Type ℓ} → List A → Bool
is_nil [] = true
is_nil (_ ∷ _) = false

-- `Validate`: the problems in the order they are reported; `nil` is none.
unfoldable pub validate : Option Bytes → Config → List Problem
validate suggestion c =
    device_problems suggestion c.device
    ++ report (is_nil c.playlists) no_playlists
    ++ playlist_problems 0 c.playlists
    ++ guide_problems 0 c.guides
    ++ report (is_nil c.channels) no_channels
    ++ channel_problems [] 0 c.channels
