-- ===== src/Server/Links.antt =====
-- The links in the documents that the server hands out, and what it answers to them.
use iptv2hdhr.Base.{
  ℕ, ◌≡◌, ◌≢◌, refl, sym, ap, ◌∙◌, subst, Bool, true, false, inl, inr, Option, none, some, List, [],
  ◌∷◌, ◌++◌, map, Bytes, codes, is_empty, equal, equal_refl, has_prefix, trim_prefix, lookup, All,
  All-append, arith, All-get_elem?, get_elem?, append_assoc, Bool-cases, Option-cases, Unicode,
}
use iptv2hdhr.Config.Schema.{Config}
use iptv2hdhr.Playlist.Entry.{Entry}
use iptv2hdhr.Lineup.{Channel, Lineup, found, channel_by_number, built, new, channel_of}
use iptv2hdhr.Lineup.Lookup.{
  Indexes, new-IsBuilt, first_numbered_of_elem, channel_by_number-first_numbered, All-of_elems,
}
use iptv2hdhr.Lineup.Rebuild.Published.{rebuild_all, rebuild_all-channels}
use iptv2hdhr.Guide.Xmltv.{Programme, Icon, TimeFormat, Time}
use iptv2hdhr.Guide.Sorting.{Sorter}
use iptv2hdhr.Guide.Fetcher.{Index}
use iptv2hdhr.Guide.Listing.{guide_channel}
use iptv2hdhr.Guide.Listing.Covered.{build_guide-channels}
use iptv2hdhr.Hdhr.{discover, lineup_json, lineup_entry, stream_path, base_url_of}
use iptv2hdhr.Hdhr.Tunable.{lineup_json-tunable}
use iptv2hdhr.Server.Urls.{is_path_byte, IsPathText, IsOrigin, UrlPaths}
use iptv2hdhr.StreamProxy.Serve.{
  Admission, channel_not_found, temporarily_unavailable, joined, admit,
}
use iptv2hdhr.LogoProxy.{
  LogoHandler, answered, logo_not_found, channel_logo, begin_logo, logo_number,
}
use iptv2hdhr.Server.{
  Server, Request, Reply, stream, logo, redirect, no_such_page, Encoders, Deps, routes, route_of,
  to_route, streams, logos, lineup_list, longest_match, matched_route, Route, Routed, answer_route,
  matches_pattern, serve, reply_of, guide_of,
}

abbrev pub logo_path : Bytes → Bytes
logo_path number = codes "/logo/" ++ number

-- `path.Clean` has nothing to do on the paths that are handed out.
pub record KeepsPaths (clean_path : Bytes → Bytes) (chs : List Channel) : Type 0 where
  pub lineup : clean_path (codes "/lineup.json") ≡ codes "/lineup.json"
  pub stream_paths : All (λ ch. clean_path (stream_path ch.number) ≡ stream_path ch.number) chs
  pub logo_paths : All (λ ch. clean_path (logo_path ch.number) ≡ logo_path ch.number) chs

module _ {E : Type 0} where
  -- A redirect, a 404 of the server, or one of the handlers.
  abbrev pub is_missing : Reply E → Bool
  is_missing (redirect path) = true
  is_missing no_such_page = true
  is_missing (stream channel_not_found) = true
  is_missing (logo (answered logo_not_found)) = true
  is_missing _ = false

stream-present :
    (E : Type 0) (a : Admission) → a ≢ channel_not_found → is_missing {E = E} (stream a) ≡ false
stream-present E channel_not_found ne = absurd (ne refl)
stream-present E temporarily_unavailable ne = refl
stream-present E (joined i sub) ne = refl

channel_logo-present :
    (E : Type 0) (h : LogoHandler) (number : Bytes) (ch : Channel)
    → is_empty ch.logo ≡ false
    → is_missing (logo (channel_logo {E = E} h number (found ch))) ≡ false
channel_logo-present E h number ch e = rw e (elim (Option-cases (lookup number h.cache)) [
  | inl missing ↦ rw missing refl
  | inr (c, there) ↦ rw there refl
])

pub serve_lem :
    {E : Type 0} (enc : Encoders E) (tf : TimeFormat) (sorter : Sorter Programme) (deps : Deps)
    (s : Server) (r : Request) (route : Routed)
    → matched_route routes r.path (longest_match routes r.path) ≡ route
    → enc.clean_path r.path ≡ r.path
    → serve enc tf sorter deps s r ≡ reply_of enc tf sorter deps s r route
unfolding serve route_of
serve_lem enc tf sorter deps s r route m e = rw (e, equal_refl r.path, m) refl

stream_path-routed :
    (n : Bytes)
    → matched_route routes (stream_path n) (longest_match routes (stream_path n)) ≡ to_route streams
unfolding longest_match matches_pattern has_prefix equal
stream_path-routed n = refl

logo_path-routed :
    (n : Bytes)
    → matched_route routes (logo_path n) (longest_match routes (logo_path n)) ≡ to_route logos
unfolding longest_match matches_pattern has_prefix equal
logo_path-routed n = refl

lineup_path-routed :
    matched_route routes (codes "/lineup.json") (longest_match routes (codes "/lineup.json"))
    ≡ to_route lineup_list
unfolding longest_match matches_pattern has_prefix equal
lineup_path-routed = refl

logo_number_lem : (n : Bytes) → logo_number (logo_path n) ≡ n
unfolding trim_prefix has_prefix
logo_number_lem n = refl

All-map :
    {A B : Type 0} (Q : B → Type 0) (f : A → B) (xs : List A)
    → All (λ a. Q (f a)) xs
    → All Q (map f xs)
All-map Q f [] h = tt
All-map Q f (x ∷ xs) h = (h.0, All-map Q f xs h.1)

module _ {E : Type 0} where
  module _ (enc : Encoders E) (tf : TimeFormat) (sorter : Sorter Programme) (deps : Deps)
      (s : Server) (r : Request) (url_path : Bytes → Bytes) where
    -- A request for the URL is not answered with 404 or a redirect.
    pub record Leads (url : Bytes) : Type 0 where
      pub answered :
          is_missing (serve enc tf sorter deps s (record r { path = url_path url })).1 ≡ false

    abbrev pub LeadsIcon : Option Icon → Type 0
    LeadsIcon none = Unit
    LeadsIcon (some icon) = Leads icon.src

    leads :
        (path : Bytes) (route : Route)
        → matched_route routes path (longest_match routes path) ≡ to_route route
        → url_path (base_url_of deps.cfg r.host ++ path) ≡ path
        → enc.clean_path path ≡ path
        → is_missing (answer_route enc tf sorter deps s (record r { path = path }) route).1 ≡ false
        → Leads (base_url_of deps.cfg r.host ++ path)
    leads path route m at e there = record {
      answered =
          ap (λ p. is_missing (serve enc tf sorter deps s (record r { path = p })).1) at
          ∙ ap (λ x. is_missing x.1)
              (serve_lem enc tf sorter deps s (record r { path = path }) _ m e)
          ∙ there;
    }

    stream-Leads :
        (ch : Channel)
        → url_path (base_url_of deps.cfg r.host ++ stream_path ch.number) ≡ stream_path ch.number
        → enc.clean_path (stream_path ch.number) ≡ stream_path ch.number
        → (admit s.sessions deps.lineup (stream_path ch.number)).1 ≢ channel_not_found
        → Leads (lineup_entry (base_url_of deps.cfg r.host) ch).url
    unfolding lineup_entry
    stream-Leads ch at e ne =
        leads (stream_path ch.number) streams (stream_path-routed ch.number) at e
          (stream-present E _ ne)

    icon-Leads :
        (ch : Channel)
        → url_path (base_url_of deps.cfg r.host ++ logo_path ch.number) ≡ logo_path ch.number
        → enc.clean_path (logo_path ch.number) ≡ logo_path ch.number
        → channel_by_number deps.lineup ch.number ≡ found ch
        → LeadsIcon (guide_channel (base_url_of deps.cfg r.host) ch).icon
    unfolding guide_channel begin_logo
    icon-Leads ch at e there = elim (Bool-cases (is_empty ch.logo)) [
      | inl none_set ↦ rw none_set tt
      | inr set ↦ rw set (
          subst Leads (sym (append_assoc (base_url_of deps.cfg r.host) (codes "/logo/") ch.number))
            (leads (logo_path ch.number) logos (logo_path-routed ch.number) at e (
              rw (logo_number_lem ch.number, there)
                (channel_logo-present E s.cache ch.number ch set))))
    ]

    -- What the server hands out leads somewhere.
    pub record IsLinked : Type 0 where
      pub lineup : Leads (discover deps.cfg r.host).lineup_url
      pub channels : All (λ e. Leads e.url) (lineup_json deps.cfg r.host deps.lineup)
      pub icons : All (λ c. LeadsIcon c.icon) (guide_of enc tf sorter deps r).channels

abbrev pub deps_of : Config → Lineup → Index → Time → Deps
deps_of cfg l idx now = record { cfg = cfg; lineup = l; index = idx; now = now }

rebuilt-found :
    ⦃u : Unicode⦄ (cfg : Config) {l : Lineup} (refreshes : List (List Entry)) (ch : Channel) (i : ℕ)
    → new cfg.channels ≡ built l
    → get_elem? (map channel_of cfg.channels) i ≡ some ch
    → channel_by_number (rebuild_all l refreshes) ch.number ≡ found ch
rebuilt-found cfg {l} refreshes ch i e at =
    let w = new-IsBuilt cfg.channels e in
    let (same_channels, same_index, _) =
      rebuild_all-channels l refreshes (w.published ∙ sym w.all_channels) in
    let indexed : Indexes (rebuild_all l refreshes).number_index
        (rebuild_all l refreshes).channels =
      rw (same_channels, same_index) w.indexed in
    channel_by_number-first_numbered (rebuild_all l refreshes) ch.number indexed
    ∙ first_numbered_of_elem indexed ch.number i
        (ap (λ x. get_elem? x i) (same_channels ∙ w.all_channels) ∙ at) refl

lineup_text : IsPathText (codes "lineup.json")
lineup_text = ground arith

stream_text : IsPathText (codes "stream/")
stream_text = ground arith

logo_text : IsPathText (codes "logo/")
logo_text = ground arith

-- In a server of a lineup that `New` builds, whatever the playlists and the guides have brought,
-- and in every state of its sessions and its logo cache: if the base URL is a scheme and a host, the
-- configured numbers hold only letters, digits, slashes and `-._~`, and `path.Clean` leaves their paths
-- as they are, then a request for the lineup's URL in /discover.json, for the stream URL of an entry of
-- the lineup or for the icon URL of a channel in the guide is not answered with 404 or a redirect,
-- whoever asks.
pub serve-IsLinked :
    {E : Type 0} ⦃u : Unicode⦄ (enc : Encoders E) (tf : TimeFormat) (sorter : Sorter Programme)
    (cfg : Config) {l : Lineup} (refreshes : List (List Entry)) (idx : Index) (now : Time)
    (s : Server) (r : Request) (url_path : Bytes → Bytes)
    → UrlPaths url_path
    → IsOrigin (base_url_of cfg r.host)
    → All (λ ch. IsPathText ch.number) (map channel_of cfg.channels)
    → new cfg.channels ≡ built l
    → KeepsPaths enc.clean_path (map channel_of cfg.channels)
    → IsLinked enc tf sorter (deps_of cfg (rebuild_all l refreshes) idx now) s r url_path
unfolding discover guide_of
serve-IsLinked enc tf sorter cfg {l} refreshes idx now s r url_path urls origin plain e keeps =
    let w = new-IsBuilt cfg.channels e in
    let (same_channels, same_index, same_current) =
      rebuild_all-channels l refreshes (w.published ∙ sym w.all_channels) in
    let deps = deps_of cfg (rebuild_all l refreshes) idx now in
    let base = base_url_of cfg r.host in
    let chs = map channel_of cfg.channels in
    let (listing, tunable) = lineup_json-tunable cfg r.host refreshes e in
    record {
      lineup =
          leads enc tf sorter deps s r url_path (codes "/lineup.json") lineup_list
            lineup_path-routed (urls.behind_origin base (codes "lineup.json") origin lineup_text)
            keeps.lineup refl;
      channels = subst (All (λ x. Leads enc tf sorter deps s r url_path x.url)) (sym listing) (
          All-map (λ x. Leads enc tf sorter deps s r url_path x.url) (lineup_entry base) chs
            (All-of_elems chs (λ ch i at.
              stream-Leads enc tf sorter deps s r url_path ch
                (urls.behind_origin base (codes "stream/" ++ ch.number) origin (
                  All-append (λ c. is_path_byte c ≡ true) (codes "stream/") ch.number stream_text
                    (All-get_elem? (λ (c : Channel). IsPathText c.number) chs i plain at)))
                (All-get_elem?
                  (λ (c : Channel). enc.clean_path (stream_path c.number) ≡ stream_path c.number)
                  chs i keeps.stream_paths at)
                (tunable s.sessions i ch at))));
      icons =
          subst (All (λ c. LeadsIcon enc tf sorter deps s r url_path c.icon))
            (sym (
              build_guide-channels tf sorter idx now base (rebuild_all l refreshes).current
              ∙ ap (map (guide_channel base)) (same_current ∙ w.all_channels)))
            (All-map (λ c. LeadsIcon enc tf sorter deps s r url_path c.icon) (guide_channel base)
              chs
              (All-of_elems chs (λ ch i at.
                icon-Leads enc tf sorter deps s r url_path ch
                  (urls.behind_origin base (codes "logo/" ++ ch.number) origin (
                    All-append (λ c. is_path_byte c ≡ true) (codes "logo/") ch.number logo_text
                      (All-get_elem? (λ (c : Channel). IsPathText c.number) chs i plain at)))
                  (All-get_elem?
                    (λ (c : Channel). enc.clean_path (logo_path c.number) ≡ logo_path c.number) chs
                    i keeps.logo_paths at)
                  (rebuilt-found cfg refreshes ch i e at))));
    }
