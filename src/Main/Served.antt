-- ===== src/Main/Served.antt =====
-- What a running program serves.
use iptv2hdhr.Base.{◌≡◌, ap, ◌∙◌, List, map, Bytes, Unicode}
use iptv2hdhr.Config.Schema.{Config}
use iptv2hdhr.Playlist.Entry.{Entry}
use iptv2hdhr.Playlist.Fetcher.Merged.{Action}
use iptv2hdhr.Lineup.{Lineup, built, new, stream, channel_of}
use iptv2hdhr.Lineup.Lookup.{first_numbered, new-IsBuilt}
use iptv2hdhr.Lineup.Rebuild.{rebuild}
use iptv2hdhr.Lineup.Rebuild.Published.{expected_stream, stream-rebuild}
use iptv2hdhr.Guide.Fetcher.Published.{GuideAction}
use iptv2hdhr.Main.{Program, World, Running}
use iptv2hdhr.Main.Published.{IsPublished, Running-Shows}
use iptv2hdhr.Main.Guided.{IsIndexed, Running-ShowsGuides}

module _ {E : Type 0} ⦃u : Unicode⦄ (world : World E) (cfg : Config) where
  -- The lineup is the configured one, matched to entries that a merge has published, and the guide's
  -- index is one that a merge has published.
  pub record IsServed (done : List (Action E)) (guided : List (GuideAction E)) (p : Program)
      : Type 0 where
    pub entries : List Entry
    pub published : IsPublished cfg.playlists done entries
    pub channels : p.lineup.channels ≡ map channel_of cfg.channels
    pub streams :
        (n : Bytes)
        → stream p.lineup n
          ≡ expected_stream (first_numbered n (map channel_of cfg.channels)) entries
    pub indexed : IsIndexed world cfg.guides guided p.guides.current

  -- In a program that runs with a lineup of the configured channels, whatever the network answers to
  -- its fetches and however its goroutines are interleaved: the channels are the configured ones; each
  -- number is answered by the best match among the entries that one of the merges so far has published,
  -- those in each playlist's last good copy at that merge; and the guide's index is one that a merge
  -- has published, of the programmes and channels in each guide's last good document at that merge.
  pub Running-IsServed :
      {l : Lineup} {done : List (Action E)} {guided : List (GuideAction E)} {p : Program}
      → new cfg.channels ≡ built l
      → Running world cfg l done guided p
      → IsServed done guided p
  unfolding rebuild
  Running-IsServed {l} e r =
      let w = Running-Shows world cfg l r in
      let b = new-IsBuilt cfg.channels e in
      record {
        entries = w.given;
        published = w.published;
        channels = ap (λ x. x.channels) w.lineup ∙ b.all_channels;
        streams = λ n.
            ap (λ x. stream x n) w.lineup
            ∙ stream-rebuild l w.given n b.indexed
            ∙ ap (λ chs. expected_stream (first_numbered n chs) w.given) b.all_channels;
        indexed = (Running-ShowsGuides world cfg l r).shown;
      }
