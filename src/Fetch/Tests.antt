-- ===== src/Fetch/Tests.antt =====
-- Fetches from a small world of one file and one server.
use iptv2hdhr.Base.{
  ◌≡◌, ◌⊎◌, inl, inr, refl, true, false, none, some, [], ◌∷◌, Bytes, codes, has_prefix, trim_prefix,
}
use iptv2hdhr.Fetch.{
  FetchResult, Request, Response, World, file_url_path, maybe_gunzip, read_local, response_result,
  get_conditional,
}
use iptv2hdhr.Fetch.Outcomes.{FromFile, FromServer, get_conditional-origin}

-- The server knows one ETag; gzip's reader drops the two magic bytes.
abbrev answer : Request → Bytes ⊎ Response Bytes
answer req = elim req.if_none_match [
  | none ↦ inr (record {
    status = 200;
    etag = codes "v1";
    last_modified = [];
    body = inr (0x1f ∷ 0x8b ∷ codes "tv");
  })
  | some tag ↦ inr (record { status = 304; etag = tag; last_modified = []; body = inr [] })
]

abbrev world : World Bytes
world = record {
  read_file = λ path. inr path;
  new_request = λ url. inr (record { url = url; if_none_match = none; if_modified_since = none });
  do_request = answer;
  gunzip = λ text. elim text [
    | [] ↦ inl (codes "EOF")
    | a ∷ rest ↦ elim rest [ [] ↦ inl (codes "EOF") | b ∷ s ↦ inr s ]
  ];
}

abbrev first : FetchResult
first = record { data' = codes "tv"; not_modified = false; etag = codes "v1"; last_modified = [] }

first_lem : get_conditional world (codes "http://a") [] [] ≡ inr first
unfolding get_conditional file_url_path has_prefix response_result maybe_gunzip
first_lem = refl

again_lem :
    get_conditional world (codes "http://a") (codes "v1") []
    ≡ inr (record { data' = []; not_modified = true; etag = codes "v1"; last_modified = [] })
unfolding get_conditional file_url_path has_prefix response_result
again_lem = refl

file_lem :
    get_conditional world (codes "file:///x") (codes "v1") []
    ≡ inr (record { data' = codes "/x"; not_modified = false; etag = []; last_modified = [] })
unfolding get_conditional file_url_path has_prefix trim_prefix read_local maybe_gunzip
file_lem = refl

get_conditional-origin_example :
    ((path : Bytes) × (file_url_path (codes "http://a") ≡ some path) × FromFile world path first)
    ⊎ ((file_url_path (codes "http://a") ≡ none) × FromServer world (codes "http://a") [] [] first)
get_conditional-origin_example = get_conditional-origin world (codes "http://a") [] [] first_lem
