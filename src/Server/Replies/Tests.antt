-- ===== src/Server/Replies/Tests.antt =====
-- A document whose encoder fails, after the content type has been set.
use iptv2hdhr.Base.{ℕ, refl, inl, inr, [], ◌∷◌, codes}
use iptv2hdhr.Hdhr.{lineup_status}
use iptv2hdhr.Server.{status}
use iptv2hdhr.Server.Writer.{http_error}
use iptv2hdhr.Server.Replies.{Texts, left_early, content_type_header, reply_actions, write_json}
use iptv2hdhr.Server.Replies.Expected.{error_page}
use iptv2hdhr.Server.Replies.Answered.{Answers, reply_actions-Answers}

abbrev texts : Texts ℕ
texts = record {
  discover_json = λ d. inl 1;
  status_json = λ d. inl 1;
  lineup_json = λ d. inl 1;
  device_xml = λ d. inl 1;
  error_text = λ err. codes "no";
  redirect_actions = λ path. [];
}

reply_actions-Answers_example :
    Answers
      (content_type_header (codes "application/json") ∷ http_error (codes "no") 500)
      (error_page 500 (codes "no"))
unfolding reply_actions write_json
reply_actions-Answers_example =
    reply_actions-Answers texts (status lineup_status) left_early
      (inr (record { bytes = []; content_type = [] })) refl refl
