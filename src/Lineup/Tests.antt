-- ===== src/Lineup/Tests.antt =====
-- The lineup on a small configuration.
use iptv2hdhr.Base.{
  ℕ, ◌≡◌, ◌↔◌, refl, List, [], ◌∷◌, map, codes, Unicode, Dict, equal, lookup, insert, to_lower,
  trim_space, contains, has_prefix,
}
use Prim.Native.String.{String}
use iptv2hdhr.Config.Schema.{ChannelConfig}
use iptv2hdhr.Playlist.Entry.{Entry}
use iptv2hdhr.Lineup.{
  Lineup, built, duplicate_number, channel_of, lineup_of, new, build, stream, matched,
}
use iptv2hdhr.Lineup.Lookup.{Indexes, Distinct, new-IsBuilt, new-Distinct}
use iptv2hdhr.Lineup.Match.{build_match_index, match_channel, normalize_tvg_id, name_contains}
use iptv2hdhr.Lineup.Match.Spec.{best_match, match_channel-best_match}
use iptv2hdhr.Lineup.Rebuild.{rebuild}
use iptv2hdhr.Lineup.Rebuild.Published.{stream-rebuild}

instance abbrev ascii : Unicode
ascii = record { map_to_lower = λ s. s }

abbrev config_of : String → String → String → ChannelConfig
config_of number id rule = record {
  number = codes number;
  name = codes "N";
  logo = [];
  tvg_id = codes id;
  name_match = codes rule;
}

abbrev cfg : List ChannelConfig
cfg = config_of "1" "Ex.us" "" ∷ config_of "2" "no" "news" ∷ config_of "3" "" "" ∷ []

abbrev entry_of : String → String → String → Entry
entry_of id name url = record {
  name = codes name;
  tvg_id = codes id;
  tvg_name = [];
  tvg_logo = [];
  group_title = [];
  url = codes url;
  headers = [];
}

abbrev playlist : List Entry
playlist =
    entry_of "a" "World NEWS" "u1" ∷ entry_of "EX.US" "b" "u2" ∷ entry_of "ex.us" "b" "u3" ∷ []

abbrev index : Dict ℕ
index = (codes "1", 0) ∷ (codes "2", 1) ∷ (codes "3", 2) ∷ []

abbrev lineup : Lineup
lineup = lineup_of (map channel_of cfg) index

new-cfg : new cfg ≡ built lineup
unfolding new build lookup insert equal
new-cfg = refl

-- The first number that is taken again is reported.
new_duplicate : new (config_of "1" "" "" ∷ config_of "1" "" "" ∷ []) ≡ duplicate_number (codes "1")
unfolding new build lookup insert equal
new_duplicate = refl

new-Distinct_example : ((l : Lineup) × (new cfg ≡ built l)) ↔ Distinct (map channel_of cfg)
new-Distinct_example = new-Distinct cfg

indexed : Indexes lineup.number_index lineup.channels
indexed = (new-IsBuilt cfg new-cfg).indexed

match_channel-best_match_example :
    match_channel (channel_of (config_of "1" "Ex.us" "")) (build_match_index playlist)
    ≡ best_match (channel_of (config_of "1" "Ex.us" "")) playlist
match_channel-best_match_example =
    match_channel-best_match (channel_of (config_of "1" "Ex.us" "")) playlist

stream-rebuild_example :
    stream (rebuild lineup playlist) (codes "2")
    ≡ matched (record { url = codes "u1"; headers = [] })
unfolding equal normalize_tvg_id name_contains to_lower trim_space contains has_prefix
stream-rebuild_example = stream-rebuild lineup playlist (codes "2") indexed
