-- ===== src/Main.antt =====
-- cmd/iptv2hdhr/main.go: the start of the program, and the goroutines that refresh it while it runs.
-- Flags, signals and the listener are left out; the network is a parameter of each fetch.
pub mod Started
pub mod Published
pub mod Guided
pub mod Served
pub mod Tuned
pub mod Advertised
pub mod Life
mod Tests
use iptv2hdhr.Base.{
  ℕ, ◌+◌, ◌≡◌, ◌⊎◌, inl, inr, Option, none, some, List, [], ◌∷◌, ◌++◌, map, Bytes, codes, is_empty,
  Unicode, if◌then◌else◌,
}
use iptv2hdhr.Base.Int.{ℤ, pos, negsuc}
use iptv2hdhr.Config.Schema.{Config, PlaylistSource, GuideSource}
use iptv2hdhr.Config.Defaults.{decimal}
use iptv2hdhr.Config.Load.{Loaded, loaded, load}
use iptv2hdhr.Fetch.Sources.{Get}
use iptv2hdhr.Playlist.Entry.{Entry}
use iptv2hdhr.Playlist.Fetcher.{Fetcher, new_fetcher, current, refresh_now}
use iptv2hdhr.Playlist.Fetcher.Merged.{Action, refreshes, merges, act}
use iptv2hdhr.Lineup.{Lineup, Built, built, duplicate_number, new}
use iptv2hdhr.Lineup.Rebuild.{rebuild}
use iptv2hdhr.Guide.Xmltv.{Programme, Document, TimeFormat}
use iptv2hdhr.Guide.Sorting.{Sorter}
use iptv2hdhr.Guide.Fetcher.{GuideFetcher, new_guide_fetcher, refresh_guides_now}
use iptv2hdhr.Guide.Fetcher.Published as Guides
use iptv2hdhr.Guide.Fetcher.Published.{GuideAction}
use iptv2hdhr.Ssdp.{Advertisement, advertisement_of}

-- `updating` holds the snapshots that goroutines have read with `Current` and are about to give to
-- `Rebuild`.
pub record Program : Type 0 where
  pub playlists : Fetcher
  pub lineup : Lineup
  pub guides : GuideFetcher
  pub updating : List (List Entry)

pub data Startup (E : Type 0) : Type 0 where
  config_failed : Loaded E → Startup E
  lineup_failed : Bytes → Startup E
  started : Program → Startup E

-- What the start reads: the file's decoder and a suggested device id, the fetches of the sources, and
-- the parser of guides.
pub record World (E : Type 0) : Type 0 where
  pub unmarshal : Bytes → E ⊎ Config
  pub suggestion : Option Bytes
  pub get_playlist : PlaylistSource → Get E
  pub get_guide : GuideSource → Get E
  pub parse_document : Bytes → Option Document
  pub time_format : TimeFormat
  pub sorter : Sorter Programme

module _ {E : Type 0} ⦃u : Unicode⦄ (world : World E) where
  -- Both fetchers have been run once, and the lineup is rebuilt.
  unfoldable pub first_program : Config → Lineup → Program
  first_program cfg l =
      let pf = refresh_now world.get_playlist (new_fetcher cfg.playlists) in
      record {
        playlists = pf;
        lineup = rebuild l (current pf);
        guides =
            refresh_guides_now world.parse_document world.time_format world.sorter world.get_guide
              (new_guide_fetcher cfg.guides);
        updating = [];
      }

  abbrev pub first_refreshes : Config → List (Action E)
  first_refreshes cfg = map (λ src. refreshes src (world.get_playlist src)) cfg.playlists

  abbrev pub first_guide_refreshes : Config → List (GuideAction E)
  first_guide_refreshes cfg = map (λ src. Guides.refreshes src (world.get_guide src)) cfg.guides

  abbrev pub guide_act : GuideAction E → GuideFetcher → GuideFetcher
  guide_act = Guides.act world.time_format world.sorter world.parse_document

  abbrev pub start_lineup : Config → Built → Startup E
  start_lineup cfg (built l) = started (first_program cfg l)
  start_lineup cfg (duplicate_number n) = lineup_failed n

  abbrev pub start_config : Loaded E → Startup E
  start_config (loaded cfg) = start_lineup cfg (new cfg.channels)
  start_config failure = config_failed failure

  -- `main`, up to the goroutines.
  unfoldable pub start : E ⊎ Bytes → Startup E
  start file = start_config (load world.unmarshal world.suggestion file)

-- The programs that a started one becomes, by what the goroutines have done to the playlists and to
-- the guides since `NewFetcher`. The goroutine of a playlist refreshes it, merges, reads the snapshot,
-- and rebuilds the lineup with that; the one of a guide refreshes it and merges. Other goroutines may
-- run in between.
pub data Running {E : Type 0} ⦃u : Unicode⦄ (world : World E) (cfg : Config) (l : Lineup)
    : List (Action E) → List (GuideAction E) → Program → Type 0 where
  starts :
      Running world cfg l
        (first_refreshes world cfg ++ merges ∷ [])
        (first_guide_refreshes world cfg ++ Guides.merges ∷ [])
        (first_program world cfg l)
  acts :
      {done : List (Action E)} {guided : List (GuideAction E)} {p : Program} (a : Action E)
      → Running world cfg l done guided p
      → Running world cfg l (done ++ a ∷ []) guided (record p { playlists = act a p.playlists })
  reads :
      {done : List (Action E)} {guided : List (GuideAction E)} {p : Program}
      → Running world cfg l done guided p
      → Running world cfg l done guided (record p { updating = current p.playlists ∷ p.updating })
  rebuilds :
      {done : List (Action E)} {guided : List (GuideAction E)} {p : Program}
      (before after : List (List Entry)) (es : List Entry)
      → p.updating ≡ before ++ es ∷ after
      → Running world cfg l done guided p
      → Running world cfg l done guided
          (record p { lineup = rebuild p.lineup es; updating = before ++ after })
  guide_acts :
      {done : List (Action E)} {guided : List (GuideAction E)} {p : Program} (a : GuideAction E)
      → Running world cfg l done guided p
      → Running world cfg l done
          (guided ++ a ∷ [])
          (record p { guides = guide_act world a p.guides })

-- `%d` of an int.
unfoldable pub int_text : ℤ → Bytes
int_text (pos n) = decimal n
int_text (negsuc n) = codes "-" ++ decimal (n + 1)

abbrev pub address_base : {E : Type 0} → Config → E ⊎ Bytes → E ⊎ Bytes
address_base cfg (inl err) = inl err
address_base cfg (inr ip) =
    inr (codes "http://" ++ (ip ++ (codes ":" ++ int_text cfg.device.http_port)))

abbrev advertised : {E : Type 0} → Config → E ⊎ Bytes → E ⊎ Advertisement
advertised cfg (inl err) = inl err
advertised cfg (inr base) =
    inr
      (advertisement_of cfg.device.device_id (base ++ codes "/device.xml") (codes "iptv2hdhr/1.0"))

-- `advertise`; the second argument is what `outboundIP` returns.
unfoldable pub advertise : {E : Type 0} → Config → E ⊎ Bytes → E ⊎ Advertisement
advertise cfg ip =
    advertised cfg
      (if is_empty cfg.device.base_url then address_base cfg ip else inr cfg.device.base_url)
