-- ===== src/Lineup.antt =====
-- internal/lineup: the stable channel lineup, and the cache of the upstream that each channel is
-- currently matched to. The atomic pointer to the snapshot is a field of the state.
pub mod Match
pub mod Rebuild
pub mod Lookup
mod Tests
use iptv2hdhr.Base.{
  ℕ, Bool, true, false, ◌&&◌, Option, none, some, List, [], ◌∷◌, ◌++◌, length, get_elem?, Bytes,
  ◌==◌, codes, Dict, lookup, insert, equal,
}
use iptv2hdhr.Config.Schema.{ChannelConfig}

pub record Channel : Type 0 where
  pub number : Bytes
  pub name : Bytes
  pub logo : Bytes
  pub tvg_id : Bytes
  pub name_match : Bytes
  pub channel_id : Bytes

pub record Stream : Type 0 where
  pub url : Bytes
  pub headers : Dict Bytes

abbrev holds_value : Option Bytes → Bytes → Bool
holds_value none v = false
holds_value (some w) v = equal w v

includes : Dict Bytes → Dict Bytes → Bool
includes [] b = true
includes ((k, v) ∷ a) b = holds_value (lookup k b) v && includes a b

-- `maps.Equal`: as many keys, and each key of the first with the same value in the second.
unfoldable pub maps_equal : Dict Bytes → Dict Bytes → Bool
unfolding includes
maps_equal a b = length a == length b && includes a b

-- `Stream.Equal`
unfoldable pub stream_equal : Stream → Stream → Bool
stream_equal s o = equal s.url o.url && maps_equal s.headers o.headers

pub record Snapshot : Type 0 where
  pub channels : List Channel
  pub streams : Dict Stream

pub record Lineup : Type 0 where
  pub channels : List Channel
  pub number_index : Dict ℕ
  pub current : Snapshot

pub data Built : Type 0 where
  built : Lineup → Built
  duplicate_number : Bytes → Built

abbrev pub channel_of : ChannelConfig → Channel
channel_of ch = record {
  number = ch.number;
  name = ch.name;
  logo = ch.logo;
  tvg_id = ch.tvg_id;
  name_match = ch.name_match;
  channel_id = codes "slot-" ++ ch.number;
}

abbrev pub lineup_of : List Channel → Dict ℕ → Lineup
lineup_of chs index = record {
  channels = chs;
  number_index = index;
  current = record { channels = chs; streams = [] };
}

-- The loop of `New`, over the channels and the index built so far.
unfoldable pub build : List ChannelConfig → List Channel → Dict ℕ → Built
build [] chs index = built (lineup_of chs index)
build (ch ∷ cfg) chs index = elim (lookup ch.number index) [
  | some _ ↦ duplicate_number ch.number
  | none ↦ build cfg (chs ++ channel_of ch ∷ []) (insert ch.number (length chs) index)
]

-- `New`
unfoldable pub new : List ChannelConfig → Built
new cfg = build cfg [] []

pub data Found : Type 0 where
  found : Channel → Found
  not_found : Found
  -- `l.channels[idx]` out of range, which panics.
  out_of_range : Found

abbrev pub channel_at : Option Channel → Found
channel_at none = out_of_range
channel_at (some ch) = found ch

unfoldable pub channel_by_number : Lineup → Bytes → Found
channel_by_number l number = elim (lookup number l.number_index) [
  | none ↦ not_found
  | some i ↦ channel_at (get_elem? l.channels i)
]

-- The three results of `Lineup.Stream`: configured=false, matched=false, and a match.
pub data StreamResult : Type 0 where
  not_configured : StreamResult
  unmatched : StreamResult
  matched : Stream → StreamResult

abbrev pub match_result : Option Stream → StreamResult
match_result none = unmatched
match_result (some s) = matched s

-- `Lineup.Stream`
unfoldable pub stream : Lineup → Bytes → StreamResult
stream l number = elim (lookup number l.number_index) [
  | none ↦ not_configured
  | some _ ↦ match_result (lookup number l.current.streams)
]
