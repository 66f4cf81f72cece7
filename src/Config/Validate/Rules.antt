-- ===== src/Config/Validate/Rules.antt =====
-- What a configuration without problems looks like.
use iptv2hdhr.Base.{
  ℕ, ◌+◌, ◌≡◌, ◌≢◌, ◌↔◌, refl, Bool, true, false, Option, List, [], ◌∷◌, ◌++◌, map, arith, Bytes,
  is_empty, equal, Dict, lookup, insert, lookup-insert, length, All, if◌then◌else◌,
}
use iptv2hdhr.Base.Int.{ℤ, pos, ltb_ℤ, ◌≤ℤ◌}
use iptv2hdhr.Config.Schema.{
  Config, PlaylistSource, GuideSource, ChannelConfig, DeviceConfig, Duration,
}
use iptv2hdhr.Config.Defaults.{min_refresh_interval}
use iptv2hdhr.Config.Validate.{
  Problem, SourceKind, report, is_hex_digit, all_hex, matches_device_id, device_id_problems,
  device_problems, source_problems, playlist_problems, guide_problems, is_seen, check_number,
  channel_problems, is_nil, validate,
}
use iptv2hdhr.Lineup.{channel_of}
use iptv2hdhr.Lineup.Lookup.{Distinct}

pub record IsValidSource (url : Bytes) (interval : Duration) : Type 0 where
  pub has_url : url ≢ []
  pub slow_enough : min_refresh_interval ≤ℤ interval

pub record IsValidChannel (c : ChannelConfig) : Type 0 where
  pub has_number : c.number ≢ []
  pub has_name : c.name ≢ []

-- A configuration that the program can run with.
pub record IsValid (c : Config) : Type 0 where
  pub http_port : (pos 1 ≤ℤ c.device.http_port) × (c.device.http_port ≤ℤ pos 65535)
  pub tuner_count : pos 1 ≤ℤ c.device.tuner_count
  pub device_id :
      (length c.device.device_id ≡ 8) × All (λ d. is_hex_digit d ≡ true) c.device.device_id
  pub has_playlist : c.playlists ≢ []
  pub playlists : All (λ p. IsValidSource p.url p.refresh_interval) c.playlists
  pub guides : All (λ g. IsValidSource g.url g.refresh_interval) c.guides
  pub has_channel : c.channels ≢ []
  pub channels : All IsValidChannel c.channels
  pub numbers : Distinct (map channel_of c.channels)

append-nil_iff : (xs ys : List Problem) → (xs ++ ys ≡ []) ↔ ((xs ≡ []) × (ys ≡ []))
append-nil_iff [] ys = (λ e. (refl, e), λ e. e.1)
append-nil_iff (x ∷ xs) ys = (λ e. cc, λ e. cc)

report_iff : (b : Bool) (p : Problem) → (report b p ≡ []) ↔ (b ≡ false)
report_iff true p = (λ e. cc, λ e. cc)
report_iff false p = (λ e. refl, λ e. refl)

is_empty_iff : (s : Bytes) → (is_empty s ≡ false) ↔ (s ≢ [])
is_empty_iff [] = (λ e. cc, λ e. absurd (e refl))
is_empty_iff (c ∷ s) = (λ _ e. cc, λ _. refl)

is_nil_iff {ℓ} : {A : Type ℓ} (xs : List A) → (is_nil xs ≡ false) ↔ (xs ≢ [])
is_nil_iff [] = (λ e. cc, λ e. absurd (e refl))
is_nil_iff (c ∷ s) = (λ _ e. cc, λ _. refl)

ltb_ℤ_iff : (a b : ℤ) → (ltb_ℤ a b ≡ false) ↔ (b ≤ℤ a)
ltb_ℤ_iff a b = ground arith

all_hex_iff : (s : Bytes) → (all_hex s ≡ true) ↔ All (λ d. is_hex_digit d ≡ true) s
all_hex_iff [] = (λ _. tt, λ _. refl)
all_hex_iff (c ∷ s) = ground (arith, all_hex_iff s)

device_id_iff :
    (suggestion : Option Bytes) (s : Bytes)
    → (device_id_problems suggestion s ≡ []) ↔ ((length s ≡ 8) × All (λ d. is_hex_digit d ≡ true) s)
unfolding device_id_problems matches_device_id
device_id_iff suggestion [] = ground arith
device_id_iff suggestion (c ∷ s) = ground (arith, all_hex_iff (c ∷ s))

source_iff :
    (kind : SourceKind) (i : ℕ) (name url : Bytes) (interval : Duration)
    → (source_problems kind i name url interval ≡ []) ↔ IsValidSource url interval
unfolding source_problems
source_iff kind i name url interval = (
  λ e.
      let (u, v) = (append-nil_iff _ _).0 e in
      record {
        has_url = (is_empty_iff url).0 ((report_iff _ _).0 u);
        slow_enough = (ltb_ℤ_iff interval min_refresh_interval).0 ((report_iff _ _).0 v);
      },
  λ w. (append-nil_iff _ _).1 (
    (report_iff _ _).1 ((is_empty_iff url).1 w.has_url),
    (report_iff _ (Problem.short_refresh_interval kind i name interval)).1
        ((ltb_ℤ_iff interval min_refresh_interval).1 w.slow_enough),
  ),
)

playlists_iff :
    (i : ℕ) (ps : List PlaylistSource)
    → (playlist_problems i ps ≡ []) ↔ All (λ p. IsValidSource p.url p.refresh_interval) ps
unfolding playlist_problems
playlists_iff i [] = (λ _. tt, λ _. refl)
playlists_iff i (p ∷ ps) = ground (
  arith,
  append-nil_iff (source_problems SourceKind.playlists i p.name p.url p.refresh_interval)
      (playlist_problems (i + 1) ps),
  source_iff SourceKind.playlists i p.name p.url p.refresh_interval,
  playlists_iff (i + 1) ps,
)

guides_iff :
    (i : ℕ) (gs : List GuideSource)
    → (guide_problems i gs ≡ []) ↔ All (λ g. IsValidSource g.url g.refresh_interval) gs
unfolding guide_problems
guides_iff i [] = (λ _. tt, λ _. refl)
guides_iff i (g ∷ gs) = ground (
  arith,
  append-nil_iff (source_problems SourceKind.guides i g.name g.url g.refresh_interval)
      (guide_problems (i + 1) gs),
  source_iff SourceKind.guides i g.name g.url g.refresh_interval,
  guides_iff (i + 1) gs,
)

device_iff :
    (suggestion : Option Bytes) (d : DeviceConfig)
    → (device_problems suggestion d ≡ []) ↔ (
        ((pos 1 ≤ℤ d.http_port) × (d.http_port ≤ℤ pos 65535))
        × (pos 1 ≤ℤ d.tuner_count)
        × (length d.device_id ≡ 8)
        × All (λ c. is_hex_digit c ≡ true) d.device_id)
unfolding device_problems
device_iff suggestion d = ground (arith, device_id_iff suggestion d.device_id)

-- No number that is left has been seen.
abbrev Unseen : Dict Bool → List ChannelConfig → Type 0
Unseen seen chs = All (λ ch. is_seen ch.number seen ≡ false) chs

is_seen-insert :
    (n x : Bytes) (seen : Dict Bool)
    → is_seen x (insert n true seen) ≡ (if equal n x then true else is_seen x seen)
unfolding is_seen
is_seen-insert n x seen = ground (arith, lookup-insert n x true seen)

Unseen-insert_iff :
    (n : Bytes) (seen : Dict Bool) (chs : List ChannelConfig)
    → Unseen (insert n true seen) chs
      ↔ (All (λ c. equal n c.number ≡ false) (map channel_of chs) × Unseen seen chs)
Unseen-insert_iff n seen [] = ground arith
Unseen-insert_iff n seen (ch ∷ chs) =
    ground (arith, is_seen-insert n ch.number seen, Unseen-insert_iff n seen chs)

IsValidChannel-iff :
    (c : ChannelConfig)
    → IsValidChannel c ↔ ((is_empty c.number ≡ false) × (is_empty c.name ≡ false))
IsValidChannel-iff c = (
  λ w. ((is_empty_iff c.number).1 w.has_number, (is_empty_iff c.name).1 w.has_name),
  λ e. record {
    has_number = (is_empty_iff c.number).0 e.0;
    has_name = (is_empty_iff c.name).0 e.1;
  },
)

channels_iff :
    (seen : Dict Bool) (i : ℕ) (chs : List ChannelConfig)
    → (channel_problems seen i chs ≡ [])
      ↔ (All IsValidChannel chs × Unseen seen chs × Distinct (map channel_of chs))
unfolding channel_problems check_number
channels_iff seen i [] = ground arith
channels_iff seen i (ch ∷ chs) = ground (
  arith,
  IsValidChannel-iff ch,
  channels_iff seen (i + 1) chs,
  channels_iff (insert ch.number true seen) (i + 1) chs,
  Unseen-insert_iff ch.number seen chs,
)

Unseen-empty : (chs : List ChannelConfig) → Unseen [] chs
unfolding is_seen lookup
Unseen-empty [] = tt
Unseen-empty (ch ∷ chs) = (refl, Unseen-empty chs)

-- The parts of `Validate` are all without problems.
record AllClean (suggestion : Option Bytes) (c : Config) : Type 0 where
  device : device_problems suggestion c.device ≡ []
  given : is_nil c.playlists ≡ false
  playlists : playlist_problems 0 c.playlists ≡ []
  guides : guide_problems 0 c.guides ≡ []
  listed : is_nil c.channels ≡ false
  channels : channel_problems [] 0 c.channels ≡ []

validate_parts :
    (suggestion : Option Bytes) (c : Config) → validate suggestion c ≡ [] → AllClean suggestion c
unfolding validate
validate_parts suggestion c e =
    let (e1, channels) = (append-nil_iff _ (channel_problems [] 0 c.channels)).0 e in
    let (e2, listed) = (append-nil_iff _ (report (is_nil c.channels) Problem.no_channels)).0 e1 in
    let (e3, guides) = (append-nil_iff _ (guide_problems 0 c.guides)).0 e2 in
    let (e4, playlists) = (append-nil_iff _ (playlist_problems 0 c.playlists)).0 e3 in
    let (device, given) =
      (append-nil_iff _ (report (is_nil c.playlists) Problem.no_playlists)).0 e4 in
    record {
      device = device;
      given = (report_iff (is_nil c.playlists) Problem.no_playlists).0 given;
      playlists = playlists;
      guides = guides;
      listed = (report_iff (is_nil c.channels) Problem.no_channels).0 listed;
      channels = channels;
    }

AllClean-IsValid : (suggestion : Option Bytes) (c : Config) → AllClean suggestion c → IsValid c
AllClean-IsValid suggestion c e =
    let (port, tuners, eight, hex) = (device_iff suggestion c.device).0 e.device in
    let (named, unseen, distinct) = (channels_iff [] 0 c.channels).0 e.channels in
    record {
      http_port = port;
      tuner_count = tuners;
      device_id = (eight, hex);
      has_playlist = (is_nil_iff c.playlists).0 e.given;
      playlists = (playlists_iff 0 c.playlists).0 e.playlists;
      guides = (guides_iff 0 c.guides).0 e.guides;
      has_channel = (is_nil_iff c.channels).0 e.listed;
      channels = named;
      numbers = distinct;
    }

IsValid-no_problems :
    (suggestion : Option Bytes) (c : Config) → IsValid c → validate suggestion c ≡ []
unfolding validate
IsValid-no_problems suggestion c w =
    rw
      (
        (device_iff suggestion c.device).1
            (w.http_port, w.tuner_count, w.device_id.0, w.device_id.1),
        (is_nil_iff c.playlists).1 w.has_playlist,
        (playlists_iff 0 c.playlists).1 w.playlists,
        (guides_iff 0 c.guides).1 w.guides,
        (is_nil_iff c.channels).1 w.has_channel,
      )
      ((channels_iff [] 0 c.channels).1 (w.channels, Unseen-empty c.channels, w.numbers))

-- `Validate` accepts a configuration exactly when it is valid: a port and a tuner count in range, a
-- device id of eight hex digits, sources with a URL and an interval of a minute or more, at least one
-- playlist and one channel, and channels with a name and with numbers of their own.
pub validate-IsValid :
    (suggestion : Option Bytes) (c : Config) → (validate suggestion c ≡ []) ↔ IsValid c
unfolding validate
validate-IsValid suggestion c = (
  λ e. AllClean-IsValid suggestion c (validate_parts suggestion c e),
  IsValid-no_problems suggestion c,
)
