-- ===== src/Fetch/Outcomes.antt =====
-- Where the result of a fetch comes from.
use iptv2hdhr.Base.{
  ◌≡◌, ◌≢◌, refl, subst, ◌∷◌, is_empty, sym, ap, ◌∙◌, ◌⊎◌, inl, inr, true, false, none, some, [],
  Bytes, arith, ◌==◌, ==_iff, Bool-cases, Option-cases, Sum-cases,
}
use iptv2hdhr.Fetch.{
  FetchError, FetchResult, Request, Response, World, file_url_path, status_ok, status_not_modified,
  is_gzip, gunzipped, with_validators, maybe_gunzip, fetched, read_local, response_result,
  get_conditional,
}

-- A request with the validators that are not empty in its headers, and else as it was built.
pub record HasValidators (etag last_modified : Bytes) (built sent : Request) : Type 0 where
  pub same_url : sent.url ≡ built.url
  pub if_none_match : is_empty etag ≡ false → sent.if_none_match ≡ some etag
  pub no_etag : is_empty etag ≡ true → sent.if_none_match ≡ built.if_none_match
  pub if_modified_since :
      is_empty last_modified ≡ false → sent.if_modified_since ≡ some last_modified
  pub no_last_modified :
      is_empty last_modified ≡ true → sent.if_modified_since ≡ built.if_modified_since

with_validators-HasValidators :
    (etag last_modified : Bytes) (req : Request)
    → HasValidators etag last_modified req (with_validators etag last_modified req)
with_validators-HasValidators etag last_modified req = record {
  same_url = refl;
  if_none_match = λ e. rw e refl;
  no_etag = λ e. rw e refl;
  if_modified_since = λ e. rw e refl;
  no_last_modified = λ e. rw e refl;
}

module _ {E : Type 0} (w : World E) where
  -- A text that begins with the bytes 1f and 8b is unzipped, and any other is left as it is.
  abbrev pub Unzips : Bytes → Bytes → Type 0
  Unzips text out =
      ((rest : Bytes) × (text ≡ 0x1f ∷ 0x8b ∷ rest) × (w.gunzip text ≡ inr out))
      ⊎ (((rest : Bytes) → text ≢ 0x1f ∷ 0x8b ∷ rest) × (out ≡ text))

  unzipped : (text : Bytes) (r : E ⊎ Bytes) {out : Bytes} → gunzipped r ≡ inr out → r ≡ inr out
  unzipped text (inl err) e = cc
  unzipped text (inr s) e = cc

  maybe_gunzip-Unzips :
      (text : Bytes) {out : Bytes} → maybe_gunzip w text ≡ inr out → Unzips text out
  unfolding maybe_gunzip
  maybe_gunzip-Unzips [] e = inr (λ rest c. cc, cc)
  maybe_gunzip-Unzips (a ∷ []) e = inr (λ rest c. cc, cc)
  maybe_gunzip-Unzips (a ∷ b ∷ s) e = elim (Bool-cases (is_gzip (a ∷ b ∷ s))) [
    | inl zipped ↦ inl (s, magic zipped, unzipped (a ∷ b ∷ s) _ (rw zipped at e))
    | inr other ↦ inr (λ rest c. no (sym other ∙ ap is_gzip c), plain (rw other at e))
  ]
    where
      no : false ≡ true → ⊥
      no d = cc

      plain : {x out : Bytes} → ◌≡◌ {A = FetchError E ⊎ Bytes} (inr x) (inr out) → out ≡ x
      plain d = cc

      magic : is_gzip (a ∷ b ∷ s) ≡ true → a ∷ b ∷ s ≡ 0x1f ∷ 0x8b ∷ s
      magic z =
          let ea : a ≡ 0x1f = ground (arith, z, ==_iff a 0x1f) in
          let eb : b ≡ 0x8b = ground (arith, z, ==_iff b 0x8b) in
          ap (λ x. x ∷ b ∷ s) ea ∙ ap (λ x. 0x1f ∷ x ∷ s) eb

  -- The result holds a text, unzipped if need be, and is not "not modified".
  pub record IsFresh (text : Bytes) (r : FetchResult) : Type 0 where
    pub unzipped : Unzips text r.data'
    pub is_new : r.not_modified ≡ false

  -- The file's text, without validators.
  pub record FromFile (path : Bytes) (r : FetchResult) : Type 0 where
    pub text : Bytes
    pub read : w.read_file path ≡ inr text
    pub fresh : IsFresh text r
    pub no_etag : r.etag ≡ []
    pub no_last_modified : r.last_modified ≡ []

  -- The answer is 304 and there is no text, or it is 200 and the text is its body.
  abbrev pub IsAnswer : Response E → FetchResult → Type 0
  IsAnswer resp r =
      ((resp.status ≡ status_not_modified) × (r.not_modified ≡ true) × (r.data' ≡ []))
      ⊎ ((resp.status ≡ status_ok) × (text : Bytes) × (resp.body ≡ inr text) × IsFresh text r)

  -- What the server answers to the request with the caller's validators, with the answer's own.
  pub record FromServer (raw_url etag last_modified : Bytes) (r : FetchResult) : Type 0 where
    pub req : Request
    pub built : w.new_request raw_url ≡ inr req
    pub resp : Response E
    pub sent : Request
    pub validators : HasValidators etag last_modified req sent
    pub answered : w.do_request sent ≡ inr resp
    pub answer : IsAnswer resp r
    pub same_etag : r.etag ≡ resp.etag
    pub same_last_modified : r.last_modified ≡ resp.last_modified

  fetched_cases :
      (etag last_modified text : Bytes) {r : FetchResult}
      → fetched etag last_modified (maybe_gunzip w text) ≡ inr r
      → IsFresh text r × (r.etag ≡ etag) × (r.last_modified ≡ last_modified)
  fetched_cases etag last_modified text {r} e = elim (Sum-cases (maybe_gunzip w text)) [
    | inl (err, bad) ↦ ground arith
    | inr (out, good) ↦
        let same : r ≡ record {
          data' = out;
          not_modified = false;
          etag = etag;
          last_modified = last_modified;
        } =
          ground (arith, e) in
        (
          record {
            unzipped =
                subst (Unzips text) (sym (ap (λ x. x.data') same)) (maybe_gunzip-Unzips text good);
            is_new = ap (λ x. x.not_modified) same;
          },
          ap (λ x. x.etag) same,
          ap (λ x. x.last_modified) same,
        )
  ]

  read_local_cases :
      (path : Bytes) {r : FetchResult} → read_local w (w.read_file path) ≡ inr r → FromFile path r
  unfolding read_local
  read_local_cases path {r} e = elim (Sum-cases (w.read_file path)) [
    | inl (err, bad) ↦ ground arith
    | inr (text, good) ↦
        let (fresh, etag, modified) = fetched_cases [] [] text (ground (arith, e)) in
        record {
          text = text;
          read = good;
          fresh = fresh;
          no_etag = etag;
          no_last_modified = modified;
        }
  ]

  answer_cases :
      (resp : Response E) {r : FetchResult}
      → response_result w (inr resp) ≡ inr r
      → IsAnswer resp r × (r.etag ≡ resp.etag) × (r.last_modified ≡ resp.last_modified)
  unfolding response_result
  answer_cases resp {r} e = elim (Bool-cases (resp.status == status_not_modified)) [
    | inl old ↦
        let same : r ≡ record {
          data' = [];
          not_modified = true;
          etag = resp.etag;
          last_modified = resp.last_modified;
        } =
          ground (arith, e) in
        (
          inl (
            (==_iff resp.status status_not_modified).0 old,
            ap (λ x. x.not_modified) same,
            ap (λ x. x.data') same,
          ),
          ap (λ x. x.etag) same,
          ap (λ x. x.last_modified) same,
        )
    | inr new ↦ elim (Bool-cases (resp.status == status_ok)) [
      | inl ok ↦ elim (Sum-cases resp.body) [
        | inl (err, bad) ↦ ground arith
        | inr (text, good) ↦
            let (fresh, etag, modified) =
              fetched_cases resp.etag resp.last_modified text (ground (arith, e)) in
            (inr ((==_iff resp.status status_ok).0 ok, text, good, fresh), etag, modified)
      ]
      | inr other ↦ ground arith
    ]
  ]

  refused : (err : E) {r : FetchResult} → response_result w (inl err) ≢ inr r
  unfolding response_result
  refused err e = ground arith

  -- A result that `GetConditional` returns for a file: URL is the file's whole text, whatever the
  -- validators, and never "not modified". For any other URL it comes from the answer to a request that
  -- has the given validators, where they are not empty, as If-None-Match and If-Modified-Since; it
  -- carries the answer's own validators, and is "not modified" and without a text exactly for status
  -- 304, else the body of an answer with status 200. A text that begins with the bytes 1f and 8b is
  -- unzipped, and any other is left as it is.
  pub get_conditional-origin :
      (raw_url etag last_modified : Bytes) {r : FetchResult}
      → get_conditional w raw_url etag last_modified ≡ inr r
      → ((path : Bytes) × (file_url_path raw_url ≡ some path) × FromFile path r)
        ⊎ ((file_url_path raw_url ≡ none) × FromServer raw_url etag last_modified r)
  unfolding get_conditional
  get_conditional-origin raw_url etag last_modified {r} e =
      elim (Option-cases (file_url_path raw_url)) [
        | inr (path, local) ↦ inl (path, local, read_local_cases path (ground (arith, e)))
        | inl remote ↦ elim (Sum-cases (w.new_request raw_url)) [
          | inl (err, bad) ↦ ground arith
          | inr (req, made) ↦
              elim (Sum-cases (w.do_request (with_validators etag last_modified req))) [
                | inl (err, bad) ↦ absurd (refused err {r = r} (ground (arith, e)))
                | inr (resp, came) ↦
                    let (answer, same, modified) = answer_cases resp (ground (arith, e)) in
                    inr (
                      remote,
                      record {
                        req = req;
                        built = made;
                        resp = resp;
                        sent = with_validators etag last_modified req;
                        validators = with_validators-HasValidators etag last_modified req;
                        answered = came;
                        answer = answer;
                        same_etag = same;
                        same_last_modified = modified;
                      },
                    )
              ]
        ]
      ]
