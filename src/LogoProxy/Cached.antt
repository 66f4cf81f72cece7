-- ===== src/LogoProxy/Cached.antt =====
-- Logo requests that run beside each other, and what the history of their fetches says of an answer.
use iptv2hdhr.Base.{
  ◌≡◌, refl, sym, ap, ◌∙◌, subst, ◌⊎◌, inl, inr, Option, none, some, List, [], ◌∷◌, ◌++◌, Bytes,
  is_empty, lookup, lookup-insert, equal, equal_iff, All, All-removed, Bool-cases, Option-cases,
  if◌then◌else◌,
}
use iptv2hdhr.Config.Schema.{ChannelConfig}
use iptv2hdhr.Lineup.{
  Channel, Lineup, Found, found, not_found, out_of_range, channel_by_number, built, new,
}
use iptv2hdhr.Lineup.Lookup.{first_numbered, channel_by_number-first_numbered, new-IsBuilt}
use iptv2hdhr.LogoProxy.{
  CachedLogo, LogoHandler, new_logo_handler, LogoNetwork, LogoError, logo_not_found, panics, Begun,
  answered, fetching, logo_number, fetch_logo, channel_logo, cached_or_missing, begin_logo,
  keep_logo,
}

-- The handler, and the requests that are fetching: their numbers and the URLs.
pub record LogoState : Type 0 where
  pub handler : LogoHandler
  pub in_flight : List (Bytes × Bytes)

-- A request comes in; or the fetch of one for `number` ends, with what its network made of it.
pub data LogoEvent (E : Type 0) : Type 0 where
  arrives : Bytes → LogoEvent E
  ends : Bytes → LogoNetwork E → LogoEvent E

module _ {E : Type 0} where
  abbrev pub begun_in_flight : List (Bytes × Bytes) → Begun E → List (Bytes × Bytes)
  begun_in_flight rest (answered a) = rest
  begun_in_flight rest (fetching number url) = (number, url) ∷ rest

  abbrev pub arrived : LogoState → Begun E → LogoState
  arrived s b = record s { in_flight = begun_in_flight s.in_flight b }

  abbrev pub ended : LogoState → List (Bytes × Bytes) → Bytes → Bytes → LogoNetwork E → LogoState
  ended s rest number url net = record {
    handler = (keep_logo s.handler number (fetch_logo net url)).0;
    in_flight = rest;
  }

-- The runs of the handler, the newest event first.
pub data LogoRun {E : Type 0} (l : Lineup) : List (LogoEvent E) → LogoState → Type 0 where
  starts : LogoRun l [] (record { handler = new_logo_handler; in_flight = [] })
  arrive :
      {es : List (LogoEvent E)} {s : LogoState} (path : Bytes)
      → LogoRun l es s
      → LogoRun l (arrives path ∷ es) (arrived s (begin_logo {E = E} l s.handler path))
  finish :
      {es : List (LogoEvent E)} {s : LogoState} (before after : List (Bytes × Bytes))
      (number url : Bytes) (net : LogoNetwork E)
      → s.in_flight ≡ before ++ (number, url) ∷ after
      → LogoRun l es s
      → LogoRun l (ends number net ∷ es) (ended s (before ++ after) number url net)

-- The channel's logo is fetched from `url`.
record IsLogoUrl (l : Lineup) (number url : Bytes) : Type 0 where
  channel : Channel
  configured : channel_by_number l number ≡ found channel
  same_url : channel.logo ≡ url

-- A channel has one logo.
IsLogoUrl-unique :
    (l : Lineup) (number : Bytes) {a b : Bytes}
    → IsLogoUrl l number a
    → IsLogoUrl l number b
    → a ≡ b
IsLogoUrl-unique l number p q =
    let same : p.channel ≡ q.channel = cc in sym p.same_url ∙ ap (λ c. c.logo) same ∙ q.same_url

begun-urls :
    (E : Type 0) (l : Lineup) (h : LogoHandler) (number : Bytes) (rest : List (Bytes × Bytes))
    (f : Found)
    → channel_by_number l number ≡ f
    → All (λ r. IsLogoUrl l r.0 r.1) rest
    → All (λ r. IsLogoUrl l r.0 r.1) (begun_in_flight rest (channel_logo {E = E} h number f))
begun-urls E l h number rest not_found e urls = urls
begun-urls E l h number rest out_of_range e urls = urls
begun-urls E l h number rest (found ch) e urls = elim (Bool-cases (is_empty ch.logo)) [
  | inl none_set ↦ rw none_set urls
  | inr set ↦ rw set (elim (Option-cases (lookup number h.cache)) [
    | inl missing ↦ rw missing (record { channel = ch; configured = e; same_url = refl }, urls)
    | inr (c, there) ↦ rw there urls
  ])
]

module _ {E : Type 0} where
  abbrev pub or_earlier : Option CachedLogo → LogoError E ⊎ CachedLogo → Option CachedLogo
  or_earlier earlier (inl err) = earlier
  or_earlier earlier (inr l) = some l

  -- The newest logo that a fetch of `url` for `number` has brought.
  abbrev pub last_fetched : Bytes → Bytes → List (LogoEvent E) → Option CachedLogo
  last_fetched number url [] = none
  last_fetched number url (arrives path ∷ es) = last_fetched number url es
  last_fetched number url (ends m net ∷ es) =
      let earlier = last_fetched number url es in
      if equal m number then or_earlier earlier (fetch_logo net url) else earlier

  -- What a request for the channel begins with, by the events before it.
  abbrev pub expected_for : Bytes → List (LogoEvent E) → Found → Begun E
  expected_for number es not_found = answered logo_not_found
  expected_for number es out_of_range = answered panics
  expected_for number es (found ch) =
      if is_empty ch.logo
      then answered logo_not_found
      else cached_or_missing number ch.logo (last_fetched number ch.logo es)

  record Follows (l : Lineup) (es : List (LogoEvent E)) (s : LogoState) : Type 0 where
    urls : All (λ r. IsLogoUrl l r.0 r.1) s.in_flight
    cached :
        (number url : Bytes)
        → IsLogoUrl l number url
        → lookup number s.handler.cache ≡ last_fetched number url es

  keep_logo-lookup :
      (h : LogoHandler) (m number : Bytes) (r : LogoError E ⊎ CachedLogo)
      → lookup number (keep_logo h m r).0.cache
        ≡ (if equal m number then or_earlier (lookup number h.cache) r else lookup number h.cache)
  unfolding keep_logo
  keep_logo-lookup h m number (inl err) = elim (Bool-cases (equal m number)) [
    | inl same ↦ rw same refl
    | inr other ↦ rw other refl
  ]
  keep_logo-lookup h m number (inr c) = lookup-insert m number c h.cache

  LogoRun-Follows :
      (l : Lineup) {es : List (LogoEvent E)} {s : LogoState} → LogoRun l es s → Follows l es s
  unfolding begin_logo lookup
  LogoRun-Follows l starts = record { urls = tt; cached = λ number url u. refl }
  LogoRun-Follows l (arrive {es} {s} path run) =
      let f = LogoRun-Follows l run in
      let number = logo_number path in
      record {
        urls = begun-urls E l s.handler number s.in_flight (channel_by_number l number) refl f.urls;
        cached = f.cached;
      }
  LogoRun-Follows l (finish {es} {s} before after m url net e run) =
      let f = LogoRun-Follows l run in
      let (at, rest) =
        All-removed (λ r. IsLogoUrl l r.0 r.1) before after (m, url)
          (subst (All (λ r. IsLogoUrl l r.0 r.1)) e f.urls) in
      record {
        urls = rest;
        cached = λ number u v. elim (Bool-cases (equal m number)) [
          | inl same ↦
              let n : m ≡ number = (equal_iff m number).0 same in
              let w : u ≡ url = IsLogoUrl-unique l number v (subst (λ x. IsLogoUrl l x url) n at) in
              keep_logo-lookup s.handler m number (fetch_logo net url)
              ∙ rw (same, w, f.cached number u v) refl
          | inr other ↦
              keep_logo-lookup s.handler m number (fetch_logo net url)
              ∙ rw other (f.cached number u v)
        ];
      }

  channel_logo-expected :
      (l : Lineup) {es : List (LogoEvent E)} {s : LogoState} (number : Bytes) (f : Found)
      → Follows l es s
      → channel_by_number l number ≡ f
      → channel_logo s.handler number f ≡ expected_for number es f
  channel_logo-expected l number not_found w e = refl
  channel_logo-expected l number out_of_range w e = refl
  channel_logo-expected l {es} {s} number (found ch) w e = elim (Bool-cases (is_empty ch.logo)) [
    | inl none_set ↦ rw none_set refl
    | inr set ↦
        rw (set, w.cached number ch.logo (record { channel = ch; configured = e; same_url = refl }))
          refl
  ]

  -- However the requests' fetches are interleaved, on a lineup that `New` has built: a request for a
  -- number that no channel has, or whose channel has no logo, is answered with 404; any other one is
  -- answered at once with the logo that the newest good fetch of that channel's logo URL for it has
  -- brought, if there was one; and otherwise fetches that URL.
  pub begin_logo-expected :
      (cfg : List ChannelConfig) {l : Lineup} {es : List (LogoEvent E)} {s : LogoState}
      (path : Bytes)
      → new cfg ≡ built l
      → LogoRun l es s
      → begin_logo l s.handler path
        ≡ expected_for (logo_number path) es (first_numbered (logo_number path) l.channels)
  unfolding begin_logo
  begin_logo-expected cfg {l} {es} path b run =
      let number = logo_number path in
      channel_logo-expected l number (channel_by_number l number) (LogoRun-Follows l run) refl
      ∙ ap (expected_for number es)
          (channel_by_number-first_numbered l number (new-IsBuilt cfg b).indexed)
