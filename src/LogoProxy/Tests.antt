-- ===== src/LogoProxy/Tests.antt =====
-- Two requests for one logo, whose first fetch fails.
use iptv2hdhr.Base.{
  ℕ, ◌≡◌, refl, inl, inr, none, List, [], ◌∷◌, Bytes, codes, lookup, insert, equal, trim_prefix,
  has_prefix,
}
use iptv2hdhr.Config.Schema.{ChannelConfig}
use iptv2hdhr.Lineup.{Lineup, built, channel_of, lineup_of, new, build, channel_by_number}
use iptv2hdhr.LogoProxy.{CachedLogo, LogoNetwork, answered, logo, fetch_logo, begin_logo, keep_logo}
use iptv2hdhr.LogoProxy.Cached.{
  LogoState, LogoEvent, arrives, ends, LogoRun, starts, arrive, finish, begin_logo-expected,
}

abbrev cfg : List ChannelConfig
cfg =
    record { number = codes "7"; name = codes "N"; logo = codes "u"; tvg_id = []; name_match = [] }
    ∷ []

abbrev lineup : Lineup
lineup =
    lineup_of
      (channel_of record {
        number = codes "7";
        name = codes "N";
        logo = codes "u";
        tvg_id = [];
        name_match = [];
      }
        ∷ [])
      ((codes "7", 0) ∷ [])

new-cfg : new cfg ≡ built lineup
unfolding new build lookup insert equal
new-cfg = refl

abbrev down : LogoNetwork ℕ
down = record { request_error = λ url. none; do_request = λ url. inl 5 }

abbrev up : LogoNetwork ℕ
up = record {
  request_error = λ url. none;
  do_request = λ url. inr (record { status = 200; content_type = []; body = inr url });
}

abbrev brought : CachedLogo
brought = record { bytes = codes "u"; content_type = codes "application/octet-stream" }

abbrev path : Bytes
path = codes "/logo/7"

abbrev history : List (LogoEvent ℕ)
history = ends (codes "7") up ∷ ends (codes "7") down ∷ arrives path ∷ arrives path ∷ []

abbrev after_history : LogoState
after_history = record { handler = record { cache = (codes "7", brought) ∷ [] }; in_flight = [] }

history_runs : LogoRun lineup history after_history
unfolding begin_logo fetch_logo keep_logo channel_by_number lookup insert equal trim_prefix
    has_prefix
history_runs = finish [] [] (codes "7") (codes "u") up refl (
    finish [] ((codes "7", codes "u") ∷ []) (codes "7") (codes "u") down refl
      (arrive path (arrive path starts)))

begin_logo-expected_example :
    begin_logo {E = ℕ} lineup after_history.handler path ≡ answered (logo brought)
unfolding fetch_logo equal trim_prefix has_prefix
begin_logo-expected_example = begin_logo-expected cfg path new-cfg history_runs
