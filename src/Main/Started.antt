-- ===== src/Main/Started.antt =====
-- When the program's start goes through.
use iptv2hdhr.Base.{◌≡◌, refl, ap, ◌∙◌, ◌⊎◌, inl, inr, map, Bytes, Unicode}
use iptv2hdhr.Config.Schema.{Config}
use iptv2hdhr.Config.Load.{Loaded, loaded, unreadable, undecodable, invalid, load}
use iptv2hdhr.Config.Load.Runnable.{load-IsValid}
use iptv2hdhr.Fetch.Sources.Cells.{refresh_cells, empty_cells}
use iptv2hdhr.Playlist.Fetcher.{current, parse_playlist}
use iptv2hdhr.Playlist.Fetcher.Merged.{refresh_of, cell_entries, current-refresh_now}
use iptv2hdhr.Lineup.{Lineup, built, new}
use iptv2hdhr.Main.{World, config_failed, started, first_program, start, start_config, start_lineup}

module _ {E : Type 0} ⦃u : Unicode⦄ (world : World E) where
  -- The file's configuration, its lineup, and the program that runs with them.
  pub record IsStarted (file : E ⊎ Bytes) : Type 0 where
    pub config : Config
    pub lineup : Lineup
    pub loads : load world.unmarshal world.suggestion file ≡ loaded config
    pub builds : new config.channels ≡ built lineup
    pub runs : start world file ≡ started (first_program world config lineup)
    pub entries :
        current (first_program world config lineup).playlists
        ≡ cell_entries
            (refresh_cells parse_playlist
              (map (refresh_of world.get_playlist) config.playlists)
              empty_cells)
            config.playlists

  first_entries :
      (cfg : Config) (l : Lineup)
      → current (first_program world cfg l).playlists
        ≡ cell_entries
            (refresh_cells parse_playlist
              (map (refresh_of world.get_playlist) cfg.playlists)
              empty_cells)
            cfg.playlists
  unfolding first_program
  first_entries cfg l = current-refresh_now world.get_playlist cfg.playlists

  start_cases :
      (file : E ⊎ Bytes) (r : Loaded E)
      → load world.unmarshal world.suggestion file ≡ r
      → (start world file ≡ config_failed r) ⊎ IsStarted file
  unfolding start
  start_cases file (loaded cfg) e =
      let (_, _, l, made) = load-IsValid world.unmarshal world.suggestion file cfg e in
      inr (record {
        config = cfg;
        lineup = l;
        loads = e;
        builds = made;
        runs = ap (start_config world) e ∙ ap (start_lineup world cfg) made;
        entries = first_entries cfg l;
      })
  start_cases file (unreadable err) e = inl (ap (start_config world) e)
  start_cases file (undecodable err) e = inl (ap (start_config world) e)
  start_cases file (invalid problem others) e = inl (ap (start_config world) e)

  -- The start stops with what `Load` reports, or goes through with a lineup of the file's channels,
  -- whatever the fetches bring: it never stops at `lineup.New`, or at a source that cannot be fetched.
  -- It then has the entries of the playlists whose fetch brought one that parsed, in the order of the
  -- configuration, and nothing of the others.
  pub start-IsStarted :
      (file : E ⊎ Bytes)
      → (start world file ≡ config_failed (load world.unmarshal world.suggestion file))
        ⊎ IsStarted file
  start-IsStarted file = start_cases file (load world.unmarshal world.suggestion file) refl
