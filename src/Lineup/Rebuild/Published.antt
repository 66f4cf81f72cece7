-- ===== src/Lineup/Rebuild/Published.antt =====
-- What `Rebuild` publishes, seen through `Lineup.Stream`.
use iptv2hdhr.Base.{
  ℕ, zero, suc, ◌≡◌, refl, ap, ◌∙◌, false, subst, Option, none, some, List, [], ◌∷◌, arith, Bytes,
  Unicode, Dict, lookup, lookup-insert, equal, equal_iff, equal_refl, get_elem?, All, All-get_elem?,
  Option-cases, inl, inr,
}
use mathlib.Core.Option
use iptv2hdhr.Playlist.Entry.{Entry}
use iptv2hdhr.Lineup.{
  Channel, Stream, Lineup, StreamResult, not_configured, match_result, stream, Found, found,
}
use iptv2hdhr.Lineup.Lookup.{
  Indexes, Distinct, first_numbered, first_numbered_of_none, first_numbered_of_elem,
}
use iptv2hdhr.Lineup.Match.{MatchIndex, match_channel, build_match_index}
use iptv2hdhr.Lineup.Match.Spec.{best_match, match_channel-best_match}
use iptv2hdhr.Lineup.Rebuild.{add_streams, add_stream, rebuild, stream_of}

module _ ⦃u : Unicode⦄ where
  lookup-add_stream_ne :
      (n : Bytes) (ch : Channel) (o : Option Entry) (m : Dict Stream)
      → equal ch.number n ≡ false
      → lookup n (add_stream ch o m) ≡ lookup n m
  lookup-add_stream_ne n ch none m h = refl
  lookup-add_stream_ne n ch (some e) m h = rw (lookup-insert ch.number n (stream_of e) m, h)

  lookup-add_streams_ne :
      (n : Bytes) (index : MatchIndex) (chs : List Channel) (m : Dict Stream)
      → All (λ d. equal d.number n ≡ false) chs
      → lookup n (add_streams index chs m) ≡ lookup n m
  unfolding add_streams
  lookup-add_streams_ne n index [] m h = refl
  lookup-add_streams_ne n index (ch ∷ chs) m h =
      lookup-add_streams_ne n index chs (add_stream ch (match_channel ch index) m) h.1
      ∙ lookup-add_stream_ne n ch (match_channel ch index) m h.0

  flip_ne :
      (c : Channel) (chs : List Channel)
      → All (λ d. equal c.number d.number ≡ false) chs
      → All (λ d. equal d.number c.number ≡ false) chs
  flip_ne c [] h = tt
  flip_ne c (d ∷ chs) h =
      (ground (arith, equal_iff c.number d.number, equal_iff d.number c.number), flip_ne c chs h.1)

  lookup-add_stream_self :
      (ch : Channel) (o : Option Entry) (m : Dict Stream)
      → lookup ch.number m ≡ none
      → lookup ch.number (add_stream ch o m) ≡ Option.map stream_of o
  lookup-add_stream_self ch none m h = h
  lookup-add_stream_self ch (some e) m h =
      rw (lookup-insert ch.number ch.number (stream_of e) m, equal_refl ch.number)

  lookup-add_streams :
      (index : MatchIndex) (chs : List Channel) (m : Dict Stream) (i : ℕ) {c : Channel}
      → Distinct chs
      → get_elem? chs i ≡ some c
      → lookup c.number m ≡ none
      → lookup c.number (add_streams index chs m) ≡ Option.map stream_of (match_channel c index)
  unfolding add_streams
  lookup-add_streams index [] m i d e h = cc
  lookup-add_streams index (ch ∷ chs) m zero {c} d e h =
      let same : ch ≡ c = cc in
      rw (← same) (
        lookup-add_streams_ne ch.number index chs (add_stream ch (match_channel ch index) m)
          (flip_ne ch chs d.0)
        ∙ lookup-add_stream_self ch (match_channel ch index) m (rw same h))
  lookup-add_streams index (ch ∷ chs) m (suc i) {c} d e h =
      lookup-add_streams index chs (add_stream ch (match_channel ch index) m) i d.1 e (
        lookup-add_stream_ne c.number ch (match_channel ch index) m
          (All-get_elem? (λ (x : Channel). equal ch.number x.number ≡ false) chs i d.0 e)
        ∙ h)

  -- The answer of `Lineup.Stream` for the channel that a number stands for.
  abbrev pub expected_stream : Found → List Entry → StreamResult
  expected_stream (found c) es = match_result (Option.map stream_of (best_match c es))
  expected_stream _ es = not_configured

  -- After `Rebuild`, `Stream` tells an unconfigured number, a channel without a match and a channel
  -- with one apart, and gives the URL and headers of the best match among the given entries.
  pub stream-rebuild :
      (l : Lineup) (es : List Entry) (n : Bytes)
      → Indexes l.number_index l.channels
      → stream (rebuild l es) n ≡ expected_stream (first_numbered n l.channels) es
  unfolding stream rebuild
  stream-rebuild l es n w = elim (Option-cases (lookup n l.number_index)) [
    | inl e ↦ rw (e, stream) (rw (first_numbered_of_none w n e) refl)
    | inr (i, e) ↦
        let (c, at, num) = w.points n i e in
        rw (e, stream)
          (rw (first_numbered_of_elem w n i at num) (
            ap match_result (
              subst (λ k. lookup k published ≡ Option.map stream_of (match_channel c index)) num
                (lookup-add_streams index l.channels [] i w.distinct at (unfold lookup in refl))
              ∙ ap (Option.map stream_of) (match_channel-best_match c es))))
  ]
    where
      index : MatchIndex
      index = build_match_index es

      published : Dict Stream
      published = add_streams index l.channels []

  unfoldable pub rebuild_all : Lineup → List (List Entry) → Lineup
  rebuild_all l [] = l
  rebuild_all l (es ∷ rest) = rebuild_all (rebuild l es) rest

  -- No sequence of playlist refreshes changes the channels, their order or their numbers, in the
  -- lineup or in the snapshot that it publishes.
  pub rebuild_all-channels :
      (l : Lineup) (refreshes : List (List Entry))
      → l.current.channels ≡ l.channels
      → ((rebuild_all l refreshes).channels ≡ l.channels)
        × ((rebuild_all l refreshes).number_index ≡ l.number_index)
        × ((rebuild_all l refreshes).current.channels ≡ l.channels)
  unfolding rebuild rebuild_all
  rebuild_all-channels l [] h = (refl, refl, h)
  rebuild_all-channels l (es ∷ rest) h = rebuild_all-channels (rebuild l es) rest refl
