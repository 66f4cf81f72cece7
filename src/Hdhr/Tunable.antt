-- ===== src/Hdhr/Tunable.antt =====
-- The lineup that Plex reads, and what the stream handler makes of its URLs.
use iptv2hdhr.Base.{
  ℕ, ◌≡◌, ◌≢◌, refl, sym, ap, ◌∙◌, Option, none, some, List, [], ◌∷◌, map, Bytes, lookup,
  trim_prefix, get_elem?, Unicode,
}
use iptv2hdhr.Config.Schema.{Config}
use iptv2hdhr.Playlist.Entry.{Entry}
use iptv2hdhr.Lineup.{Channel, Lineup, match_result, built, new, channel_of, stream}
use iptv2hdhr.Lineup.Lookup.{new-IsBuilt}
use iptv2hdhr.Lineup.Rebuild.Published.{rebuild_all, rebuild_all-channels}
use iptv2hdhr.Hdhr.{lineup_entry, lineup_entries, lineup_json, base_url_of, stream_path}
use iptv2hdhr.Lineup.{Stream}
use iptv2hdhr.StreamProxy.Handler.{Handler, get_or_create_session}
use iptv2hdhr.StreamProxy.Serve.{
  number_of_path, admit, admit_result, joined_result, channel_not_found,
}

pub admit-stream_path :
    (h : Handler) (l : Lineup) (n : Bytes)
    → admit h l (stream_path n) ≡ admit_result h n (stream l n)
unfolding admit number_of_path trim_prefix
admit-stream_path h l n = refl

lineup_entries-map :
    (base : Bytes) (chs : List Channel) → lineup_entries base chs ≡ map (lineup_entry base) chs
unfolding lineup_entries
lineup_entries-map base [] = refl
lineup_entries-map base (ch ∷ chs) = ap (◌∷◌ (lineup_entry base ch)) (lineup_entries-map base chs)

stream-indexed :
    (l : Lineup) (n : Bytes) (i : ℕ)
    → lookup n l.number_index ≡ some i
    → stream l n ≡ match_result (lookup n l.current.streams)
unfolding stream
stream-indexed l n i e = rw (e, stream) refl

joined_ne : (r : Handler × ℕ × Option ℕ) → (joined_result r).1 ≢ channel_not_found
joined_ne (h, i, none) = λ e. cc
joined_ne (h, i, some sub) = λ e. cc

admitted :
    (h : Handler) (number : Bytes) (o : Option Stream)
    → (admit_result h number (match_result o)).1 ≢ channel_not_found
admitted h number none = λ e. cc
admitted h number (some s) = joined_ne (get_or_create_session h number s)

module _ ⦃u : Unicode⦄ where
  -- Whatever the playlists hold, the lineup that is served is the configured list of channels, in its
  -- order; and a request for the stream path of one of its channels is never answered with 404.
  pub lineup_json-tunable :
      (cfg : Config) (host : Bytes) {l : Lineup} (refreshes : List (List Entry))
      → new cfg.channels ≡ built l
      → (lineup_json cfg host (rebuild_all l refreshes)
          ≡ map (lineup_entry (base_url_of cfg host)) (map channel_of cfg.channels))
        × ((h : Handler) (i : ℕ) (ch : Channel)
            → get_elem? (map channel_of cfg.channels) i ≡ some ch
            → (admit h (rebuild_all l refreshes) (stream_path ch.number)).1 ≢ channel_not_found)
  unfolding lineup_json
  lineup_json-tunable cfg host {l} refreshes e =
      let w = new-IsBuilt cfg.channels e in
      let (same_channels, same_index, _) =
        rebuild_all-channels l refreshes (w.published ∙ sym w.all_channels) in
      (
        lineup_entries-map (base_url_of cfg host) (rebuild_all l refreshes).channels
            ∙ ap (map (lineup_entry (base_url_of cfg host))) (same_channels ∙ w.all_channels),
        λ h i ch at.
            let listed : lookup ch.number (rebuild_all l refreshes).number_index ≡ some i =
              ap (lookup ch.number) same_index
              ∙ w.indexed.covers ch i (ap (λ x. get_elem? x i) w.all_channels ∙ at) in
            rw
              (
                admit-stream_path h (rebuild_all l refreshes) ch.number,
                stream-indexed (rebuild_all l refreshes) ch.number i listed,
              )
              (admitted h ch.number (lookup ch.number (rebuild_all l refreshes).current.streams)),
      )
