-- ===== src/Lineup/Match/Spec.antt =====
-- The index against a search of the entries: the channel's match is the first entry with its
-- tvg-id, else the first entry whose name contains its name rule.
use iptv2hdhr.Base.{
  ◌≡◌, refl, Bool, not, ◌&&◌, Option, none, some, List, [], ◌∷◌, arith, Bytes, is_empty, equal,
  equal_iff, to_lower, Unicode, Dict, lookup, lookup-insert, if◌then◌else◌,
}
use iptv2hdhr.Playlist.Entry.{Entry}
use iptv2hdhr.Lineup.{Channel}
use iptv2hdhr.Lineup.Match.{
  build_match_index, add_entries, add_entry, normalize_tvg_id, name_contains, first_named,
  match_by_name, match_channel,
}

-- The first entry that passes a test.
abbrev pub first_such : (Entry → Bool) → List Entry → Option Entry
first_such p [] = none
first_such p (e ∷ es) = if p e then some e else first_such p es

abbrev pub or_first : Option Entry → Option Entry → Option Entry
or_first none o = o
or_first (some e) o = some e

module _ ⦃u : Unicode⦄ where
  -- Carries a tvg-id that is `id` up to case and outer white space.
  abbrev pub has_id : Bytes → Entry → Bool
  has_id id e = not (is_empty e.tvg_id) && equal (normalize_tvg_id e.tvg_id) (normalize_tvg_id id)

  -- What a channel is to be matched to.
  abbrev pub best_match : Channel → List Entry → Option Entry
  best_match ch es =
      or_first (if is_empty ch.tvg_id then none else first_such (has_id ch.tvg_id) es) (
        if is_empty ch.name_match
        then none
        else first_such (name_contains (to_lower ch.name_match)) es)

  lookup-add_entry :
      (id : Bytes) (e : Entry) (index : Dict Entry)
      → lookup (normalize_tvg_id id) (add_entry index e)
        ≡ or_first (lookup (normalize_tvg_id id) index) (if has_id id e then some e else none)
  unfolding add_entry
  lookup-add_entry id e index = ground (
    arith,
    lookup-insert (normalize_tvg_id e.tvg_id) (normalize_tvg_id id) e index,
    equal_iff (normalize_tvg_id e.tvg_id) (normalize_tvg_id id),
  )

  lookup-add_entries :
      (id : Bytes) (es : List Entry) (index : Dict Entry)
      → lookup (normalize_tvg_id id) (add_entries es index)
        ≡ or_first (lookup (normalize_tvg_id id) index) (first_such (has_id id) es)
  unfolding add_entries
  lookup-add_entries id [] index = ground arith
  lookup-add_entries id (e ∷ es) index =
      ground (arith, lookup-add_entries id es (add_entry index e), lookup-add_entry id e index)

  first_named-first_such :
      (needle : Bytes) (es : List Entry)
      → first_named needle es ≡ first_such (name_contains needle) es
  unfolding first_named
  first_named-first_such needle [] = refl
  first_named-first_such needle (e ∷ es) = ground (arith, first_named-first_such needle es)

  -- The indexed match of a channel is the best match by a search of all entries.
  pub match_channel-best_match :
      (ch : Channel) (es : List Entry) → match_channel ch (build_match_index es) ≡ best_match ch es
  unfolding match_channel build_match_index match_by_name lookup
  match_channel-best_match ch es = ground (
    arith,
    lookup-add_entries ch.tvg_id es [],
    first_named-first_such (to_lower ch.name_match) es,
  )
