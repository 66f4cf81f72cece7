-- ===== src/Server/Replies/Answered.antt =====
-- The responses that clients get, and the status that is logged of each.
use iptv2hdhr.Base.{
  ℕ, ◌≡◌, refl, ap, subst, ◌∙◌, sym, true, ◌⊎◌, inl, inr, some, List, [], ◌∷◌, ◌++◌, Bytes, codes,
  Dict, lookup, insert, equal, append_assoc, append-nil,
}
use iptv2hdhr.Guide.Listing.{xml_header}
use iptv2hdhr.StreamProxy.Serve.{Admission, channel_not_found, temporarily_unavailable, joined}
use iptv2hdhr.LogoProxy.{
  CachedLogo, LogoError, logo_not_found, bad_gateway, logo, panics, Begun, answered, fetching,
}
use iptv2hdhr.Server as Routes
use iptv2hdhr.Server.{
  Reply, discovery, status, listed, scan_accepted, described, guide, stream, redirect, no_such_page,
  GuideAnswer, plain, gzipped, internal_error,
}
use iptv2hdhr.Server.Writer.{
  Action, write, http_error, StatusWriter, forward_all, new_status_writer, finished,
}
use iptv2hdhr.Server.Replies.Expected.{
  Expected, content, error_page, concat, document, expected_guide, expected_stream, expected_logo,
  expected,
}
use iptv2hdhr.Server.Replies.{
  Texts, Sending, left_early, upstream_failed, sending, content_type_header, chunk_actions,
  write_json, write_xml, guide_actions, sending_actions, stream_actions, logo_error_text,
  begun_actions, reply_actions,
}

-- What the actions send is the response, and the status that `statusWriter` has for the log is the one
-- that is sent.
pub record Answers (acts : List Action) (x : Expected) : Type 0 where
  pub header : Dict Bytes
  pub sent :
      (finished (forward_all (new_status_writer true) acts).inner).sent ≡ some (x.code, header)
  pub content_type : lookup (codes "Content-Type") header ≡ x.content_type
  pub encoding : lookup (codes "Content-Encoding") header ≡ x.encoding
  pub body : (forward_all (new_status_writer true) acts).inner.body ≡ x.body
  pub logged : (forward_all (new_status_writer true) acts).status ≡ x.code

given :
    {acts other : List Action} {x : Expected}
    → Answers acts x
    → some acts ≡ some other
    → Answers other x
given {acts} {other} {x} a e = subst (λ l. Answers l x) (some_eq acts other e) a
  where
    some_eq : (a b : List Action) → some a ≡ some b → a ≡ b
    some_eq a b e = cc

expecting :
    {acts : List Action} {x y : Expected} → Answers acts x → some x ≡ some y → Answers acts y
expecting {acts} {x} {y} a e = subst (Answers acts) (some_eq x y e) a
  where
    some_eq : (a b : Expected) → some a ≡ some b → a ≡ b
    some_eq a b e = cc

http_error-Answers :
    (text : Bytes) (code : ℕ) → Answers (http_error text code) (error_page code text)
unfolding forward_all insert equal lookup
http_error-Answers text code = record {
  header = _;
  sent = refl;
  content_type = refl;
  encoding = refl;
  body = refl;
  logged = refl;
}

-- `http.Error` replaces the content type.
typed_error-Answers :
    (content_type text : Bytes) (code : ℕ)
    → Answers (content_type_header content_type ∷ http_error text code) (error_page code text)
unfolding forward_all insert equal lookup
typed_error-Answers content_type text code = record {
  header = _;
  sent = refl;
  content_type = refl;
  encoding = refl;
  body = refl;
  logged = refl;
}

content-Answers :
    (content_type body : Bytes)
    → Answers (content_type_header content_type ∷ write body ∷ []) (content content_type body)
unfolding forward_all insert equal lookup
content-Answers content_type body = record {
  header = _;
  sent = refl;
  content_type = refl;
  encoding = refl;
  body = refl;
  logged = refl;
}

module _ {E : Type 0} (texts : Texts E) where
  write_json-Answers :
      (b : E ⊎ Bytes)
      → Answers (write_json texts b) (document texts (codes "application/json") [] b)
  unfolding write_json
  write_json-Answers (inl err) = typed_error-Answers _ (texts.error_text err) 500
  write_json-Answers (inr b) = content-Answers (codes "application/json") b

  write_xml-Answers :
      (b : E ⊎ Bytes)
      → Answers (write_xml texts b) (document texts (codes "application/xml") xml_header b)
  unfolding write_xml forward_all insert equal lookup
  write_xml-Answers (inl err) = typed_error-Answers _ (texts.error_text err) 500
  write_xml-Answers (inr b) = record {
    header = _;
    sent = refl;
    content_type = refl;
    encoding = refl;
    body = refl;
    logged = refl;
  }

  guide-Answers : (a : GuideAnswer E) → Answers (guide_actions texts a) (expected_guide texts a)
  unfolding forward_all insert equal lookup
  guide-Answers (internal_error err) = http_error-Answers (texts.error_text err) 500
  guide-Answers (plain text) = content-Answers (codes "application/xml") text
  guide-Answers (gzipped text) = record {
    header = _;
    sent = refl;
    content_type = refl;
    encoding = refl;
    body = refl;
    logged = refl;
  }

abbrev sent_writer : Dict Bytes → ℕ × Dict Bytes → ℕ → Bytes → StatusWriter
sent_writer header sent code body = record {
  inner = record { header = header; sent = some sent; body = body };
  flushes = true;
  status = code;
}

chunk_actions_lem :
    (header : Dict Bytes) (sent : ℕ × Dict Bytes) (code : ℕ) (body : Bytes) (chunks : List Bytes)
    → forward_all (sent_writer header sent code body) (chunk_actions chunks)
      ≡ sent_writer header sent code (body ++ concat chunks)
unfolding forward_all chunk_actions
chunk_actions_lem header sent code body [] =
    ap (sent_writer header sent code) (sym (append-nil body))
chunk_actions_lem header sent code body (chunk ∷ chunks) =
    chunk_actions_lem header sent code (body ++ chunk) chunks
    ∙ ap (sent_writer header sent code) (append_assoc body chunk (concat chunks))

module _ {E : Type 0} (texts : Texts E) where
  sending-Answers :
      (i sub : ℕ) (s : Sending)
      → Answers (sending_actions texts s) (expected_stream texts (joined i sub) s)
  unfolding forward_all insert equal lookup
  sending-Answers i sub left_early = record {
    header = [];
    sent = refl;
    content_type = refl;
    encoding = refl;
    body = refl;
    logged = refl;
  }
  sending-Answers i sub upstream_failed = http_error-Answers (codes "upstream error") 503
  sending-Answers i sub (sending content_type chunks) =
      let header : Dict Bytes = (codes "Content-Type", content_type) ∷ [] in
      let same = chunk_actions_lem header (200, header) 200 [] chunks in
      record {
        header = header;
        sent = ap (λ w. (finished w.inner).sent) same;
        content_type = refl;
        encoding = refl;
        body = ap (λ w. w.inner.body) same;
        logged = ap (λ w. w.status) same;
      }

  stream-Answers :
      (a : Admission) (s : Sending) → Answers (stream_actions texts a s) (expected_stream texts a s)
  stream-Answers channel_not_found s = http_error-Answers (codes "channel not found") 404
  stream-Answers temporarily_unavailable s =
      http_error-Answers (codes "channel temporarily unavailable") 503
  stream-Answers (joined i sub) s = sending-Answers i sub s

  -- The actions of a handler that does not panic.
  logo-Answers :
      (b : Begun E) (f : LogoError E ⊎ CachedLogo) {acts : List Action}
      → begun_actions texts b f ≡ some acts
      → Answers acts (expected_logo texts b f)
  logo-Answers (answered logo_not_found) f e =
      given (http_error-Answers (codes "logo not found") 404) e
  logo-Answers (answered (bad_gateway err)) f e =
      given (http_error-Answers (codes "fetching logo: " ++ logo_error_text texts [] err) 502) e
  logo-Answers (answered (logo l)) f e = given (content-Answers l.content_type l.bytes) e
  logo-Answers (answered panics) f e = cc
  logo-Answers (fetching number url) (inl err) e =
      given (http_error-Answers (codes "fetching logo: " ++ logo_error_text texts url err) 502) e
  logo-Answers (fetching number url) (inr l) e = given (content-Answers l.content_type l.bytes) e

  -- Each reply of the server but the router's redirects reaches the client with the status, the content
  -- type, the content encoding and the body that are expected of it, also where an encoder or a fetch
  -- fails, and however many chunks a stream sends; and the status that is logged is the one that was
  -- sent.
  pub reply_actions-Answers :
      (r : Reply E) (s : Sending) (f : LogoError E ⊎ CachedLogo) {acts : List Action} {x : Expected}
      → reply_actions texts r s f ≡ some acts
      → expected texts r s f ≡ some x
      → Answers acts x
  unfolding reply_actions forward_all insert equal lookup
  reply_actions-Answers (discovery d) s f e x = expecting (given (write_json-Answers texts _) e) x
  reply_actions-Answers (status d) s f e x = expecting (given (write_json-Answers texts _) e) x
  reply_actions-Answers (listed d) s f e x = expecting (given (write_json-Answers texts _) e) x
  reply_actions-Answers scan_accepted s f e x =
      expecting
        (given
          (record {
            header = [];
            sent = refl;
            content_type = refl;
            encoding = refl;
            body = refl;
            logged = refl;
          })
          e)
        x
  reply_actions-Answers (described d) s f e x = expecting (given (write_xml-Answers texts _) e) x
  reply_actions-Answers (guide a) s f e x = expecting (given (guide-Answers texts a) e) x
  reply_actions-Answers (stream a) s f e x = expecting (given (stream-Answers a s) e) x
  reply_actions-Answers (Routes.logo b) s f e x = expecting (logo-Answers b f e) x
  reply_actions-Answers (redirect path) s f e x = cc
  reply_actions-Answers no_such_page s f e x =
      expecting (given (http_error-Answers (codes "404 page not found") 404) e) x
