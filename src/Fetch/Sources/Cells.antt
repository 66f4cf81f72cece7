-- ===== src/Fetch/Sources/Cells.antt =====
-- The three maps of a fetcher as one cell for each source.
use iptv2hdhr.Base.{
  ◌≡◌, refl, ◌⊎◌, inl, inr, Option, none, some, List, [], ◌∷◌, Bytes, arith, lookup, lookup-insert,
  equal, get_or_zero, if◌then◌else◌, Bool-cases,
}
use iptv2hdhr.Fetch.{FetchError, FetchResult}
use iptv2hdhr.Fetch.Sources.{Kept, Get, no_copies, store, keep, refresh_source}

-- A good copy of a source, with the validators that came with it.
pub record Copy (D : Type 0) : Type 0 where
  pub content : D
  pub etag : Bytes
  pub last_modified : Bytes

abbrev pub content_of : {D : Type 0} → Option (Copy D) → Option D
content_of none = none
content_of (some c) = some c.content

abbrev pub etag_of : {D : Type 0} → Option (Copy D) → Bytes
etag_of none = []
etag_of (some c) = c.etag

abbrev pub last_modified_of : {D : Type 0} → Option (Copy D) → Bytes
last_modified_of none = []
last_modified_of (some c) = c.last_modified

-- The cell of each source by its name.
abbrev pub Cells : Type 0 → Type 0
Cells D = Bytes → Option (Copy D)

abbrev pub empty_cells : {D : Type 0} → Cells D
empty_cells name = none

pub record Represents {D : Type 0} (k : Kept D) (cells : Cells D) : Type 0 where
  pub contents : (n : Bytes) → lookup n k.last_good ≡ content_of (cells n)
  pub etags : (n : Bytes) → get_or_zero n k.etags ≡ etag_of (cells n)
  pub last_modifieds : (n : Bytes) → get_or_zero n k.last_modifieds ≡ last_modified_of (cells n)

-- One refresh of a source: its name, its URL, and how the network answers then.
pub record Refresh (E : Type 0) : Type 0 where
  pub name : Bytes
  pub url : Bytes
  pub get : Get E

abbrev pub copy_with : {D : Type 0} → FetchResult → Option (Copy D) → Option D → Option (Copy D)
copy_with r old none = old
copy_with r old (some doc) =
    some (record { content = doc; etag = r.etag; last_modified = r.last_modified })

module _ {E D : Type 0} (parse : Bytes → Option D) where
  -- A fetch replaces a cell's copy if it brings a new text that parses.
  abbrev pub copy_after : FetchError E ⊎ FetchResult → Option (Copy D) → Option (Copy D)
  copy_after (inl err) old = old
  copy_after (inr r) old = if r.not_modified then old else copy_with r old (parse r.data')

  -- The copy of the refreshed source is asked for by its own validators; other cells stay.
  abbrev pub cells_after : Refresh E → Cells D → Cells D
  cells_after r cells n =
      if equal r.name n
      then copy_after (r.get r.url (etag_of (cells r.name)) (last_modified_of (cells r.name)))
          (cells n)
      else cells n

  abbrev pub refresh_kept : List (Refresh E) → Kept D → Kept D
  refresh_kept [] k = k
  refresh_kept (r ∷ rs) k = refresh_kept rs (refresh_source parse r.get r.name r.url k)

  abbrev pub refresh_cells : List (Refresh E) → Cells D → Cells D
  refresh_cells [] cells = cells
  refresh_cells (r ∷ rs) cells = refresh_cells rs (cells_after r cells)

module _ {D : Type 0} where
  same_cells :
      (name : Bytes) (k : Kept D) (cells : Cells D)
      → Represents k cells
      → Represents k (λ n. if equal name n then cells n else cells n)
  same_cells name k cells w = record {
    contents = λ n. ground (arith, w.contents n);
    etags = λ n. ground (arith, w.etags n);
    last_modifieds = λ n. ground (arith, w.last_modifieds n);
  }

  store-Represents :
      (name : Bytes) (r : FetchResult) (k : Kept D) (cells : Cells D) (o : Option D)
      → Represents k cells
      → Represents
          (store name r k o)
          (λ n. if equal name n then copy_with r (cells n) o else cells n)
  unfolding store
  store-Represents name r k cells none w = same_cells name k cells w
  store-Represents name r k cells (some doc) w = record {
    contents = λ n. ground (arith, w.contents n, lookup-insert name n doc k.last_good);
    etags = λ n. ground (arith, w.etags n, lookup-insert name n r.etag k.etags);
    last_modifieds = λ n.
        ground (arith, w.last_modifieds n, lookup-insert name n r.last_modified k.last_modifieds);
  }

module _ {E D : Type 0} (parse : Bytes → Option D) where
  keep-Represents :
      (name : Bytes) (o : FetchError E ⊎ FetchResult) (k : Kept D) (cells : Cells D)
      → Represents k cells
      → Represents
          (keep parse name k o)
          (λ n. if equal name n then copy_after parse o (cells n) else cells n)
  unfolding keep store
  keep-Represents name (inl err) k cells w = same_cells name k cells w
  keep-Represents name (inr r) k cells w = elim (Bool-cases r.not_modified) [
    | inl old ↦ rw old (same_cells name k cells w)
    | inr new ↦ rw new (store-Represents name r k cells (parse r.data') w)
  ]

  refresh_source-Represents :
      (r : Refresh E) (k : Kept D) (cells : Cells D)
      → Represents k cells
      → Represents (refresh_source parse r.get r.name r.url k) (cells_after parse r cells)
  unfolding refresh_source
  refresh_source-Represents r k cells w =
      rw (w.etags r.name, w.last_modifieds r.name)
        (keep-Represents r.name
          (r.get r.url (etag_of (cells r.name)) (last_modified_of (cells r.name))) k cells w)

  pub refresh_kept-Represents :
      (rs : List (Refresh E)) (k : Kept D) (cells : Cells D)
      → Represents k cells
      → Represents (refresh_kept parse rs k) (refresh_cells parse rs cells)
  refresh_kept-Represents [] k cells w = w
  refresh_kept-Represents (r ∷ rs) k cells w =
      refresh_kept-Represents rs _ _ (refresh_source-Represents r k cells w)

pub no_copies-Represents : {D : Type 0} → Represents {D = D} no_copies empty_cells
no_copies-Represents = record {
  contents = λ n. unfold lookup in refl;
  etags = λ n. unfold lookup in refl;
  last_modifieds = λ n. unfold lookup in refl;
}
