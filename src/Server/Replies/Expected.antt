-- ===== src/Server/Replies/Expected.antt =====
-- What a client is to get for each reply, described apart from the handlers.
use iptv2hdhr.Base.{ℕ, ◌⊎◌, inl, inr, Option, none, some, List, [], ◌∷◌, ◌++◌, Bytes, codes}
use iptv2hdhr.Guide.Listing.{xml_header}
use iptv2hdhr.StreamProxy.Serve.{Admission, channel_not_found, temporarily_unavailable, joined}
use iptv2hdhr.LogoProxy.{CachedLogo, LogoError, bad_gateway, logo, Begun, answered, fetching}
use iptv2hdhr.Server as Routes
use iptv2hdhr.Server.{
  Reply, discovery, status, listed, scan_accepted, described, guide, stream, redirect, no_such_page,
  GuideAnswer, plain, gzipped, internal_error,
}
use iptv2hdhr.Server.Replies.{Texts, Sending, left_early, upstream_failed, sending, logo_error_text}

-- A response: its status, its content type and its encoding, if they are set, and its body.
pub record Expected : Type 0 where
  pub code : ℕ
  pub content_type : Option Bytes
  pub encoding : Option Bytes
  pub body : Bytes

abbrev pub content : Bytes → Bytes → Expected
content content_type body = record {
  code = 200;
  content_type = some content_type;
  encoding = none;
  body = body;
}

abbrev pub error_page : ℕ → Bytes → Expected
error_page code text = record {
  code = code;
  content_type = some (codes "text/plain; charset=utf-8");
  encoding = none;
  body = text ++ codes "\n";
}

abbrev pub concat : List Bytes → Bytes
concat [] = []
concat (b ∷ bs) = b ++ concat bs

module _ {E : Type 0} (texts : Texts E) where
  abbrev pub document : Bytes → Bytes → E ⊎ Bytes → Expected
  document content_type before (inl err) = error_page 500 (texts.error_text err)
  document content_type before (inr b) = content content_type (before ++ b)

  abbrev pub expected_guide : GuideAnswer E → Expected
  expected_guide (internal_error err) = error_page 500 (texts.error_text err)
  expected_guide (plain text) = content (codes "application/xml") text
  expected_guide (gzipped text) = record (content (codes "application/xml") text) {
    encoding = some (codes "gzip");
  }

  abbrev pub expected_stream : Admission → Sending → Expected
  expected_stream channel_not_found s = error_page 404 (codes "channel not found")
  expected_stream temporarily_unavailable s =
      error_page 503 (codes "channel temporarily unavailable")
  expected_stream (joined i sub) left_early = record {
    code = 200;
    content_type = none;
    encoding = none;
    body = [];
  }
  expected_stream (joined i sub) upstream_failed = error_page 503 (codes "upstream error")
  expected_stream (joined i sub) (sending content_type chunks) =
      content content_type (concat chunks)

  abbrev pub expected_logo : Begun E → LogoError E ⊎ CachedLogo → Expected
  expected_logo (answered (bad_gateway err)) f =
      error_page 502 (codes "fetching logo: " ++ logo_error_text texts [] err)
  expected_logo (answered (logo l)) f = content l.content_type l.bytes
  expected_logo (answered _) f = error_page 404 (codes "logo not found")
  expected_logo (fetching number url) (inl err) =
      error_page 502 (codes "fetching logo: " ++ logo_error_text texts url err)
  expected_logo (fetching number url) (inr l) = content l.content_type l.bytes

  -- What a client gets, by the reply to its request. A redirect is the router's own
  -- answer, of which nothing is expected here.
  abbrev pub expected : Reply E → Sending → LogoError E ⊎ CachedLogo → Option Expected
  expected (discovery d) s f = some (document (codes "application/json") [] (texts.discover_json d))
  expected (status d) s f = some (document (codes "application/json") [] (texts.status_json d))
  expected (listed d) s f = some (document (codes "application/json") [] (texts.lineup_json d))
  expected scan_accepted s f =
      some (record { code = 200; content_type = none; encoding = none; body = [] })
  expected (described d) s f =
      some (document (codes "application/xml") xml_header (texts.device_xml d))
  expected (guide a) s f = some (expected_guide a)
  expected (stream a) s f = some (expected_stream a s)
  expected (Routes.logo b) s f = some (expected_logo b f)
  expected (redirect path) s f = none
  expected no_such_page s f = some (error_page 404 (codes "404 page not found"))
