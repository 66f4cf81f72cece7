-- ===== src/Fetch/Sources.antt =====
-- What internal/playlist/fetcher.go and internal/guide/fetcher.go share: the last good copy of each
-- source by its name, and `refreshSource`. `D` is the parsed document, and `parse` gives `none` for an
-- error.
pub mod Cells
use iptv2hdhr.Base.{
  Bool, true, false, ◌⊎◌, inl, inr, Option, none, some, List, [], ◌∷◌, Bytes, Dict, insert,
  get_or_zero, if◌then◌else◌,
}
use iptv2hdhr.Fetch.{FetchError, FetchResult}

-- The maps of a fetcher.
pub record Kept (D : Type 0) : Type 0 where
  pub last_good : Dict D
  pub etags : Dict Bytes
  pub last_modifieds : Dict Bytes

abbrev pub no_copies : {D : Type 0} → Kept D
no_copies = record { last_good = []; etags = []; last_modifieds = [] }

-- A fetch by URL and the two validators.
abbrev pub Get : Type 0 → Type 0
Get E = Bytes → Bytes → Bytes → FetchError E ⊎ FetchResult

unfoldable pub store : {D : Type 0} → Bytes → FetchResult → Kept D → Option D → Kept D
store name result k none = k
store name result k (some doc) = record {
  last_good = insert name doc k.last_good;
  etags = insert name result.etag k.etags;
  last_modifieds = insert name result.last_modified k.last_modifieds;
}

module _ {E D : Type 0} (parse : Bytes → Option D) where
  unfoldable pub keep : Bytes → Kept D → FetchError E ⊎ FetchResult → Kept D
  keep name k (inl err) = k
  keep name k (inr result) =
      if result.not_modified then k else store name result k (parse result.data')

  -- `refreshSource`
  unfoldable pub refresh_source : Get E → Bytes → Bytes → Kept D → Kept D
  refresh_source get name url k =
      keep name k (get url (get_or_zero name k.etags) (get_or_zero name k.last_modifieds))
