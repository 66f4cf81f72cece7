-- ===== src/Lineup/Match.antt =====
-- internal/lineup/match.go: the index over the playlist's entries, and the match of a channel.
pub mod Spec
use iptv2hdhr.Base.{
  Bool, true, false, ◌||◌, Option, none, some, List, [], ◌∷◌, Bytes, is_empty, contains, trim_space,
  to_lower, Unicode, Dict, lookup, insert, if◌then◌else◌,
}
use iptv2hdhr.Playlist.Entry.{Entry}
use iptv2hdhr.Lineup.{Channel}

pub record MatchIndex : Type 0 where
  pub by_tvg_id : Dict Entry
  pub all : List Entry

module _ ⦃u : Unicode⦄ where
  unfoldable pub normalize_tvg_id : Bytes → Bytes
  normalize_tvg_id s = to_lower (trim_space s)

  -- The first entry with an id wins.
  unfoldable pub add_entry : Dict Entry → Entry → Dict Entry
  add_entry index e =
      if is_empty e.tvg_id then index else elim (lookup (normalize_tvg_id e.tvg_id) index) [
        | none ↦ insert (normalize_tvg_id e.tvg_id) e index
        | some _ ↦ index
      ]

  -- The loop of `buildMatchIndex`.
  unfoldable pub add_entries : List Entry → Dict Entry → Dict Entry
  add_entries [] index = index
  add_entries (e ∷ es) index = add_entries es (add_entry index e)

  unfoldable pub build_match_index : List Entry → MatchIndex
  build_match_index es = record { by_tvg_id = add_entries es []; all = es }

  unfoldable pub name_contains : Bytes → Entry → Bool
  name_contains needle e =
      contains (to_lower e.name) needle || contains (to_lower e.tvg_name) needle

  -- The loop over the entries for the name.
  unfoldable pub first_named : Bytes → List Entry → Option Entry
  first_named needle [] = none
  first_named needle (e ∷ es) = if name_contains needle e then some e else first_named needle es

  unfoldable pub match_by_name : Bytes → List Entry → Option Entry
  match_by_name name es = if is_empty name then none else first_named (to_lower name) es

  -- `none` is ok=false.
  unfoldable pub match_channel : Channel → MatchIndex → Option Entry
  match_channel ch index =
      if is_empty ch.tvg_id
      then match_by_name ch.name_match index.all
      else elim (lookup (normalize_tvg_id ch.tvg_id) index.by_tvg_id) [
        | some e ↦ some e
        | none ↦ match_by_name ch.name_match index.all
      ]
