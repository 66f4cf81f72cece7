-- ===== src/LogoProxy.antt =====
-- internal/logoproxy/logoproxy.go: the channels' logos, fetched once and kept. The handler
-- has no lock while it fetches, so that requests run beside each other; the network is a parameter of
-- each.
pub mod Cached
mod Tests
use iptv2hdhr.Base.{
  ℕ, Bool, true, false, not, ◌⊎◌, inl, inr, Option, none, some, Bytes, codes, is_empty, trim_prefix,
  Dict, lookup, insert, ◌==◌, if◌then◌else◌, List, [], ◌∷◌,
}
use iptv2hdhr.Lineup.{Channel, Lineup, Found, found, not_found, out_of_range, channel_by_number}

pub record CachedLogo : Type 0 where
  pub bytes : Bytes
  pub content_type : Bytes

-- `cache` is the handler's only state.
pub record LogoHandler : Type 0 where
  pub cache : Dict CachedLogo

-- `New`
abbrev pub new_logo_handler : LogoHandler
new_logo_handler = record { cache = [] }

pub record LogoResponse (E : Type 0) : Type 0 where
  pub status : ℕ
  pub content_type : Bytes
  pub body : E ⊎ Bytes

-- `http.NewRequestWithContext` (an error, or none), and `client.Do` of the request with the program's
-- User-Agent.
pub record LogoNetwork (E : Type 0) : Type 0 where
  pub request_error : Bytes → Option E
  pub do_request : Bytes → E ⊎ LogoResponse E

pub data LogoError (E : Type 0) : Type 0 where
  bad_request : E → LogoError E
  unreachable : E → LogoError E
  unexpected_status : ℕ → LogoError E
  unreadable : E → LogoError E

-- The answers: 404, 502, a logo, and the panic of an index out of range.
pub data Answer (E : Type 0) : Type 0 where
  logo_not_found : Answer E
  bad_gateway : LogoError E → Answer E
  logo : CachedLogo → Answer E
  panics : Answer E

pub data Begun (E : Type 0) : Type 0 where
  answered : Answer E → Begun E
  fetching : Bytes → Bytes → Begun E

abbrev pub logo_number : Bytes → Bytes
logo_number path = trim_prefix path (codes "/logo/")

module _ {E : Type 0} where
  abbrev pub body_logo : Bytes → E ⊎ Bytes → LogoError E ⊎ CachedLogo
  body_logo content_type (inl err) = inl (unreadable err)
  body_logo content_type (inr text) = inr (record {
    bytes = text;
    content_type = if is_empty content_type then codes "application/octet-stream" else content_type;
  })

  abbrev pub response_logo : E ⊎ LogoResponse E → LogoError E ⊎ CachedLogo
  response_logo (inl err) = inl (unreachable err)
  response_logo (inr resp) =
      if not (resp.status == 200)
      then inl (unexpected_status resp.status)
      else body_logo resp.content_type resp.body

  abbrev request_logo : LogoNetwork E → Bytes → Option E → LogoError E ⊎ CachedLogo
  request_logo net url (some err) = inl (bad_request err)
  request_logo net url none = response_logo (net.do_request url)

  -- `fetch`
  unfoldable pub fetch_logo : LogoNetwork E → Bytes → LogoError E ⊎ CachedLogo
  fetch_logo net url = request_logo net url (net.request_error url)

  -- What a request does before it contacts anyone: it is answered, or its logo has to be fetched.
  abbrev pub cached_or_missing : Bytes → Bytes → Option CachedLogo → Begun E
  cached_or_missing number url (some l) = answered (logo l)
  cached_or_missing number url none = fetching number url

  abbrev pub channel_logo : LogoHandler → Bytes → Found → Begun E
  channel_logo h number not_found = answered logo_not_found
  channel_logo h number out_of_range = answered panics
  channel_logo h number (found ch) =
      if is_empty ch.logo
      then answered logo_not_found
      else cached_or_missing number ch.logo (lookup number h.cache)

  -- `ServeHTTP` up to the first unlock.
  unfoldable pub begin_logo : Lineup → LogoHandler → Bytes → Begun E
  begin_logo l h path =
      let number = logo_number path in channel_logo h number (channel_by_number l number)

  -- `ServeHTTP` behind `fetch`.
  unfoldable pub keep_logo : LogoHandler → Bytes → LogoError E ⊎ CachedLogo → LogoHandler × Answer E
  keep_logo h number (inl err) = (h, bad_gateway err)
  keep_logo h number (inr l) = (record { cache = insert number l h.cache }, logo l)

  abbrev pub end_logo : LogoNetwork E → LogoHandler → Begun E → LogoHandler × Answer E
  end_logo net h (answered a) = (h, a)
  end_logo net h (fetching number url) = keep_logo h number (fetch_logo net url)

  -- `ServeHTTP` of a request that no other one runs beside.
  unfoldable pub serve_logo : LogoNetwork E → Lineup → LogoHandler → Bytes → LogoHandler × Answer E
  serve_logo net l h path = end_logo net h (begin_logo l h path)
