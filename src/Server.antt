-- ===== src/Server.antt =====
-- internal/server/server.go: the routes, and the handler of the guide. Documents stand before their
-- encoding as JSON; encoding XML, gzip and the cleaning of paths, which are Go's, are parameters.
pub mod Urls
pub mod Links
pub mod Writer
pub mod Replies
mod Tests
use iptv2hdhr.Base.{
  ℕ, Bool, true, false, ◌⊎◌, inl, inr, Option, none, some, List, [], ◌∷◌, ◌++◌, Bytes, codes, equal,
  has_prefix, contains, length, ltb, ◌==◌, if◌then◌else◌,
}
use iptv2hdhr.Config.Schema.{Config}
use iptv2hdhr.Lineup.{Lineup}
use iptv2hdhr.Guide.Xmltv.{Programme, Document, TimeFormat, Time}
use iptv2hdhr.Guide.Sorting.{Sorter}
use iptv2hdhr.Guide.Fetcher.{Index}
use iptv2hdhr.Guide.Listing.{build_guide, guide_bytes}
use iptv2hdhr.Hdhr.{
  Discover, LineupStatus, LineupEntry, Capability, base_url_of, discover, lineup_status,
  lineup_json, device_xml,
}
use iptv2hdhr.StreamProxy.Handler.{Handler}
use iptv2hdhr.StreamProxy.Serve.{Admission, channel_not_found, admit}
use iptv2hdhr.LogoProxy.{LogoHandler, Begun, answered, logo_not_found, begin_logo}

pub data Route : Type 0 where
  discover_json : Route
  lineup_status_json : Route
  lineup_list : Route
  lineup_post : Route
  device_description : Route
  guide_xml : Route
  streams : Route
  logos : Route

-- The registrations of `New`.
abbrev pub routes : List (Bytes × Route)
routes =
    (codes "/discover.json", discover_json)
    ∷ (codes "/lineup_status.json", lineup_status_json)
    ∷ (codes "/lineup.json", lineup_list)
    ∷ (codes "/lineup.post", lineup_post)
    ∷ (codes "/device.xml", device_description)
    ∷ (codes "/guide.xml", guide_xml)
    ∷ (codes "/stream/", streams)
    ∷ (codes "/logo/", logos)
    ∷ []

abbrev ends_with_slash : Bytes → Bool
ends_with_slash [] = false
ends_with_slash (c ∷ []) = c == 47
ends_with_slash (c ∷ d ∷ s) = ends_with_slash (d ∷ s)

-- A pattern of `http.ServeMux`: one that ends with a slash names all paths below it.
unfoldable pub matches_pattern : Bytes → Bytes → Bool
matches_pattern path pattern =
    if ends_with_slash pattern then has_prefix path pattern else equal path pattern

abbrev pub longer : Bytes × Route → Option (Bytes × Route) → Option (Bytes × Route)
longer r none = some r
longer r (some t) = if ltb (length r.0) (length t.0) then some t else some r

-- The longest pattern that the path matches.
unfoldable pub longest_match : List (Bytes × Route) → Bytes → Option (Bytes × Route)
longest_match [] path = none
longest_match (r ∷ rest) path =
    let other = longest_match rest path in
    if matches_pattern path r.0 then longer r other else other

pub data Routed : Type 0 where
  to_route : Route → Routed
  moved : Bytes → Routed
  unrouted : Routed

abbrev with_slash : Bytes → Option (Bytes × Route) → Routed
with_slash path none = unrouted
with_slash path (some r) =
    if equal r.0 (path ++ codes "/") then moved (path ++ codes "/") else unrouted

abbrev pub matched_route : List (Bytes × Route) → Bytes → Option (Bytes × Route) → Routed
matched_route rs path (some r) = to_route r.1
matched_route rs path none = with_slash path (longest_match rs (path ++ codes "/"))

-- `http.ServeMux`: a path that is not clean is redirected, and so is one to which a registered pattern
-- only adds the slash.
unfoldable pub route_of : (Bytes → Bytes) → Bytes → Routed
route_of clean_path path =
    if equal (clean_path path) path
    then matched_route routes path (longest_match routes path)
    else moved (clean_path path)

pub record Request : Type 0 where
  pub path : Bytes
  pub host : Bytes
  pub accept_encoding : Bytes

pub data GuideAnswer (E : Type 0) : Type 0 where
  plain : Bytes → GuideAnswer E
  gzipped : Bytes → GuideAnswer E
  internal_error : E → GuideAnswer E

pub data Reply (E : Type 0) : Type 0 where
  discovery : Discover → Reply E
  status : LineupStatus → Reply E
  listed : List LineupEntry → Reply E
  scan_accepted : Reply E
  described : Capability → Reply E
  guide : GuideAnswer E → Reply E
  stream : Admission → Reply E
  logo : Begun E → Reply E
  redirect : Bytes → Reply E
  no_such_page : Reply E

-- The server's state: its registry of sessions and the cache of its logos.
pub record Server : Type 0 where
  pub sessions : Handler
  pub cache : LogoHandler

-- What the program reads from Go: `path.Clean` as ServeMux uses it, `xml.MarshalIndent` and gzip.
pub record Encoders (E : Type 0) : Type 0 where
  pub clean_path : Bytes → Bytes
  pub marshal : Document → E ⊎ Bytes
  pub gzip : Bytes → Bytes

-- What `New` is given, with the guide index that is current, and the time.
pub record Deps : Type 0 where
  pub cfg : Config
  pub lineup : Lineup
  pub index : Index
  pub now : Time

module _ {E : Type 0} (enc : Encoders E) (tf : TimeFormat) (sorter : Sorter Programme)
    (deps : Deps) where
  abbrev guide_answer : Request → E ⊎ Bytes → GuideAnswer E
  guide_answer r (inl err) = internal_error err
  guide_answer r (inr text) =
      if contains r.accept_encoding (codes "gzip") then gzipped (enc.gzip text) else plain text

  unfoldable pub guide_of : Request → Document
  guide_of r =
      build_guide tf sorter deps.index deps.now (base_url_of deps.cfg r.host) deps.lineup.current

  -- `guideHandler`; the bytes are `BuildGuideXML`'s.
  unfoldable pub guide_handler : Request → GuideAnswer E
  guide_handler r = guide_answer r (guide_bytes (enc.marshal (guide_of r)))

  abbrev pub answer_route : Server → Request → Route → Server × Reply E
  answer_route s r discover_json = (s, discovery (discover deps.cfg r.host))
  answer_route s r lineup_status_json = (s, status lineup_status)
  answer_route s r lineup_list = (s, listed (lineup_json deps.cfg r.host deps.lineup))
  answer_route s r lineup_post = (s, scan_accepted)
  answer_route s r device_description = (s, described (device_xml deps.cfg r.host))
  answer_route s r guide_xml = (s, guide (guide_handler r))
  answer_route s r streams =
      let (sessions, admission) = admit s.sessions deps.lineup r.path in
      (record s { sessions = sessions }, stream admission)
  answer_route s r logos = (s, logo (begin_logo deps.lineup s.cache r.path))

  abbrev pub reply_of : Server → Request → Routed → Server × Reply E
  reply_of s r (to_route route) = answer_route s r route
  reply_of s r (moved path) = (s, redirect path)
  reply_of s r unrouted = (s, no_such_page)

  -- `ServeHTTP`, up to the bytes that a stream or a fetched logo sends.
  unfoldable pub serve : Server → Request → Server × Reply E
  serve s r = reply_of s r (route_of enc.clean_path r.path)
