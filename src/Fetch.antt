-- ===== src/Fetch.antt =====
-- internal/fetchutil/fetchutil.go: conditional fetches over HTTP or from files. The client, the files
-- and gzip are the parameter `World`.
pub mod Sources
pub mod Outcomes
mod Tests
use iptv2hdhr.Base.{
  ℕ, Bool, true, false, not, ◌&&◌, ◌||◌, ◌⊎◌, inl, inr, Option, none, some, List, [], ◌∷◌, Bytes,
  codes, is_empty, has_prefix, trim_prefix, ◌==◌, if◌then◌else◌,
}

-- `Result`
pub record FetchResult : Type 0 where
  pub data' : Bytes
  pub not_modified : Bool
  pub etag : Bytes
  pub last_modified : Bytes

-- The request's URL and its two conditional headers; `none` is a header that is not set.
pub record Request : Type 0 where
  pub url : Bytes
  pub if_none_match : Option Bytes
  pub if_modified_since : Option Bytes

-- `etag` and `last_modified` are `resp.Header.Get`, empty for a header that is not there; `body` is
-- `io.ReadAll(resp.Body)`.
pub record Response (E : Type 0) : Type 0 where
  pub status : ℕ
  pub etag : Bytes
  pub last_modified : Bytes
  pub body : E ⊎ Bytes

-- `os.ReadFile`, `http.NewRequestWithContext`, `client.Do`, and gzip's reader over all of a text.
pub record World (E : Type 0) : Type 0 where
  pub read_file : Bytes → E ⊎ Bytes
  pub new_request : Bytes → E ⊎ Request
  pub do_request : Request → E ⊎ Response E
  pub gunzip : Bytes → E ⊎ Bytes

pub data FetchError (E : Type 0) : Type 0 where
  reading_file : E → FetchError E
  building_request : E → FetchError E
  fetching : E → FetchError E
  unexpected_status : ℕ → FetchError E
  reading_body : E → FetchError E
  decompressing : E → FetchError E

-- `fileURLPath`; `none` is ok=false.
unfoldable pub file_url_path : Bytes → Option Bytes
file_url_path raw_url =
    if has_prefix raw_url (codes "file://")
    then some (trim_prefix raw_url (codes "file://"))
    else none

abbrev pub is_gzip : Bytes → Bool
is_gzip [] = false
is_gzip (a ∷ []) = false
is_gzip (a ∷ b ∷ s) = a == 0x1f && b == 0x8b

abbrev pub status_ok : ℕ
status_ok = 200

abbrev pub status_not_modified : ℕ
status_not_modified = 304

-- `req.Header.Set` of each validator that is known.
abbrev pub with_validators : Bytes → Bytes → Request → Request
with_validators etag last_modified req = record req {
  if_none_match = if is_empty etag then req.if_none_match else some etag;
  if_modified_since = if is_empty last_modified then req.if_modified_since else some last_modified;
}

module _ {E : Type 0} where
  abbrev pub gunzipped : E ⊎ Bytes → FetchError E ⊎ Bytes
  gunzipped (inl err) = inl (decompressing err)
  gunzipped (inr out) = inr out

  -- `MaybeGunzip`
  unfoldable pub maybe_gunzip : World E → Bytes → FetchError E ⊎ Bytes
  maybe_gunzip w text = if is_gzip text then gunzipped (w.gunzip text) else inr text

  abbrev pub fetched : Bytes → Bytes → FetchError E ⊎ Bytes → FetchError E ⊎ FetchResult
  fetched etag last_modified (inl err) = inl err
  fetched etag last_modified (inr text) =
      inr
        (record { data' = text; not_modified = false; etag = etag; last_modified = last_modified })

  -- The branch of `GetConditional` for a file.
  unfoldable pub read_local : World E → E ⊎ Bytes → FetchError E ⊎ FetchResult
  read_local w (inl err) = inl (reading_file err)
  read_local w (inr text) = fetched [] [] (maybe_gunzip w text)

  abbrev pub body_result : World E → Response E → E ⊎ Bytes → FetchError E ⊎ FetchResult
  body_result w resp (inl err) = inl (reading_body err)
  body_result w resp (inr text) = fetched resp.etag resp.last_modified (maybe_gunzip w text)

  -- What `GetConditional` makes of the answer.
  unfoldable pub response_result : World E → E ⊎ Response E → FetchError E ⊎ FetchResult
  response_result w (inl err) = inl (fetching err)
  response_result w (inr resp) =
      if resp.status == status_not_modified
      then inr (record {
        data' = [];
        not_modified = true;
        etag = resp.etag;
        last_modified = resp.last_modified;
      })
      else if not (resp.status == status_ok)
      then inl (unexpected_status resp.status)
      else body_result w resp resp.body

  abbrev pub send : World E → Bytes → Bytes → E ⊎ Request → FetchError E ⊎ FetchResult
  send w etag last_modified (inl err) = inl (building_request err)
  send w etag last_modified (inr req) =
      response_result w (w.do_request (with_validators etag last_modified req))

  -- `GetConditional`
  unfoldable pub get_conditional : World E → Bytes → Bytes → Bytes → FetchError E ⊎ FetchResult
  get_conditional w raw_url etag last_modified = elim (file_url_path raw_url) [
    | some path ↦ read_local w (w.read_file path)
    | none ↦ send w etag last_modified (w.new_request raw_url)
  ]
