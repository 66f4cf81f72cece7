-- ===== src/Server/Replies.antt =====
-- What each handler writes: internal/hdhr/handlers.go (`writeJSON`, `writeXML`), `guideHandler` of
-- internal/server/server.go, and `ServeHTTP` of internal/streamproxy and internal/logoproxy. The
-- encoders and the texts of errors are parameters.
pub mod Expected
pub mod Answered
mod Tests
use iptv2hdhr.Base.{ℕ, ◌⊎◌, inl, inr, Option, none, some, List, [], ◌∷◌, ◌++◌, Bytes, codes}
use iptv2hdhr.Config.Defaults.{decimal}
use iptv2hdhr.Guide.Listing.{xml_header}
use iptv2hdhr.Hdhr.{Discover, LineupStatus, LineupEntry, Capability}
use iptv2hdhr.StreamProxy.Serve.{Admission, channel_not_found, temporarily_unavailable, joined}
use iptv2hdhr.LogoProxy.{
  CachedLogo, LogoError, bad_request, unreachable, unexpected_status, unreadable, Answer,
  logo_not_found, bad_gateway, logo, panics, Begun, answered, fetching,
}
use iptv2hdhr.Server as Routes
use iptv2hdhr.Server.{
  Reply, discovery, status, listed, scan_accepted, described, guide, stream, redirect, no_such_page,
  GuideAnswer, plain, gzipped, internal_error,
}
use iptv2hdhr.Server.Writer.{Action, set_header, write_header, write, flush, http_error}

-- `json.MarshalIndent` and `xml.MarshalIndent` of each document, `Error` of an error, and what
-- `http.ServeMux` writes to redirect to a path.
pub record Texts (E : Type 0) : Type 0 where
  pub discover_json : Discover → E ⊎ Bytes
  pub status_json : LineupStatus → E ⊎ Bytes
  pub lineup_json : List LineupEntry → E ⊎ Bytes
  pub device_xml : Capability → E ⊎ Bytes
  pub error_text : E → Bytes
  pub redirect_actions : Bytes → List Action

-- What becomes of a request that has joined a session: the client leaves before the startup is over,
-- the startup fails, or chunks of output are sent under a content type.
pub data Sending : Type 0 where
  left_early : Sending
  upstream_failed : Sending
  sending : Bytes → List Bytes → Sending

abbrev pub content_type_header : Bytes → Action
content_type_header value = set_header (codes "Content-Type") value

unfoldable pub chunk_actions : List Bytes → List Action
chunk_actions [] = []
chunk_actions (chunk ∷ chunks) = write chunk ∷ flush ∷ chunk_actions chunks

module _ {E : Type 0} (texts : Texts E) where
  abbrev pub encoded : E ⊎ Bytes → (Bytes → List Action) → List Action
  encoded (inl err) write_out = http_error (texts.error_text err) 500
  encoded (inr b) write_out = write_out b

  -- `writeJSON`
  unfoldable pub write_json : E ⊎ Bytes → List Action
  write_json b = content_type_header (codes "application/json") ∷ encoded b (λ b. write b ∷ [])

  -- `writeXML`
  unfoldable pub write_xml : E ⊎ Bytes → List Action
  write_xml b =
      content_type_header (codes "application/xml")
      ∷ encoded b (λ b. write xml_header ∷ write b ∷ [])

  abbrev pub guide_actions : GuideAnswer E → List Action
  guide_actions (internal_error err) = http_error (texts.error_text err) 500
  guide_actions (plain text) = content_type_header (codes "application/xml") ∷ write text ∷ []
  guide_actions (gzipped text) =
      content_type_header (codes "application/xml")
      ∷ set_header (codes "Content-Encoding") (codes "gzip")
      ∷ write text
      ∷ []

  abbrev pub sending_actions : Sending → List Action
  sending_actions left_early = []
  sending_actions upstream_failed = http_error (codes "upstream error") 503
  sending_actions (sending content_type chunks) =
      content_type_header content_type ∷ write_header 200 ∷ chunk_actions chunks

  abbrev pub stream_actions : Admission → Sending → List Action
  stream_actions channel_not_found s = http_error (codes "channel not found") 404
  stream_actions temporarily_unavailable s =
      http_error (codes "channel temporarily unavailable") 503
  stream_actions (joined i sub) s = sending_actions s

  -- The errors of `fetch`.
  abbrev pub logo_error_text : Bytes → LogoError E → Bytes
  logo_error_text url (bad_request err) = texts.error_text err
  logo_error_text url (unreachable err) = texts.error_text err
  logo_error_text url (unreadable err) = texts.error_text err
  logo_error_text url (unexpected_status code) =
      codes "fetching " ++ (url ++ (codes ": unexpected status " ++ decimal code))

  abbrev pub logo_error_actions : Bytes → LogoError E → List Action
  logo_error_actions url err = http_error (codes "fetching logo: " ++ logo_error_text url err) 502

  abbrev pub logo_actions : CachedLogo → List Action
  logo_actions l = content_type_header l.content_type ∷ write l.bytes ∷ []

  abbrev pub fetched_actions : Bytes → LogoError E ⊎ CachedLogo → List Action
  fetched_actions url (inl err) = logo_error_actions url err
  fetched_actions url (inr l) = logo_actions l

  -- `none` is a panic, after which `ServeHTTP` does not log. `begin_logo` never answers by a 502.
  abbrev pub begun_actions : Begun E → LogoError E ⊎ CachedLogo → Option (List Action)
  begun_actions (answered panics) f = none
  begun_actions (answered logo_not_found) f = some (http_error (codes "logo not found") 404)
  begun_actions (answered (bad_gateway err)) f = some (logo_error_actions [] err)
  begun_actions (answered (logo l)) f = some (logo_actions l)
  begun_actions (fetching number url) f = some (fetched_actions url f)

  -- What is written for a reply, with what becomes of a stream, and what a fetch of a logo returns.
  unfoldable pub reply_actions : Reply E → Sending → LogoError E ⊎ CachedLogo → Option (List Action)
  unfolding write_json write_xml
  reply_actions (discovery d) s f = some (write_json (texts.discover_json d))
  reply_actions (status d) s f = some (write_json (texts.status_json d))
  reply_actions (listed d) s f = some (write_json (texts.lineup_json d))
  reply_actions scan_accepted s f = some (write_header 200 ∷ [])
  reply_actions (described d) s f = some (write_xml (texts.device_xml d))
  reply_actions (guide a) s f = some (guide_actions a)
  reply_actions (stream a) s f = some (stream_actions a s)
  reply_actions (Routes.logo b) s f = begun_actions b f
  reply_actions (redirect path) s f = some (texts.redirect_actions path)
  reply_actions no_such_page s f = some (http_error (codes "404 page not found") 404)
