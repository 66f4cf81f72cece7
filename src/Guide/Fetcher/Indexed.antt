-- ===== src/Guide/Fetcher/Indexed.antt =====
-- What the merged index holds.
use iptv2hdhr.Base.{
  ◌≡◌, refl, sym, ap, ◌∙◌, inl, inr, Option, none, some, List, [], ◌∷◌, ◌++◌, append_assoc,
  append-nil, arith, Bytes, Dict, lookup, lookup-insert, equal, equal_iff, if◌then◌else◌,
  Bool-cases,
}
use mathlib.Core.List.{Permᴰ}
use iptv2hdhr.Config.Schema.{GuideSource}
use iptv2hdhr.Fetch.Sources.{Kept}
use iptv2hdhr.Fetch.Sources.Cells.{Cells, Represents, content_of}
use iptv2hdhr.Guide.Xmltv.{Programme, GuideChannel, Document, TimeFormat}
use iptv2hdhr.Guide.Sorting.{Sorter}
use iptv2hdhr.Guide.Fetcher.{
  Index, keep_first, add_channels, listed_programmes, add_programme, add_programmes, add_document,
  add_sources, earlier, sort_lists,
}

-- The programmes of a channel id, in their order.
abbrev pub programmes_on : Bytes → List Programme → List Programme
programmes_on id [] = []
programmes_on id (p ∷ ps) =
    let rest = programmes_on id ps in if equal p.channel id then p ∷ rest else rest

-- The first channel with the id.
abbrev pub first_channel : Bytes → List GuideChannel → Option GuideChannel
first_channel id [] = none
first_channel id (ch ∷ chs) = if equal ch.id id then some ch else first_channel id chs

abbrev pub programmes_in : Option Document → List Programme
programmes_in none = []
programmes_in (some doc) = doc.programmes

abbrev pub channels_in : Option Document → List GuideChannel
channels_in none = []
channels_in (some doc) = doc.channels

-- The programmes and the channels of the sources' last good documents, in the order of the
-- configuration.
abbrev pub source_programmes : Cells Document → List GuideSource → List Programme
source_programmes cells [] = []
source_programmes cells (src ∷ srcs) =
    programmes_in (content_of (cells src.name)) ++ source_programmes cells srcs

abbrev pub source_channels : Cells Document → List GuideSource → List GuideChannel
source_channels cells [] = []
source_channels cells (src ∷ srcs) =
    channels_in (content_of (cells src.name)) ++ source_channels cells srcs

pub programmes_on-append :
    (id : Bytes) (ps qs : List Programme)
    → programmes_on id (ps ++ qs) ≡ programmes_on id ps ++ programmes_on id qs
programmes_on-append id [] qs = refl
programmes_on-append id (p ∷ ps) qs = elim (Bool-cases (equal p.channel id)) [
  | inl same ↦ rw same (ap (◌∷◌ p) (programmes_on-append id ps qs))
  | inr other ↦ rw other (programmes_on-append id ps qs)
]

add_programme-listed :
    (id : Bytes) (p : Programme) (d : Dict (List Programme))
    → listed_programmes (lookup id (add_programme p d))
      ≡ listed_programmes (lookup id d) ++ programmes_on id (p ∷ [])
add_programme-listed id p d = elim (Bool-cases (equal p.channel id)) [
  | inl same ↦
      let at : p.channel ≡ id = (equal_iff p.channel id).0 same in
      rw
        (
          same,
          lookup-insert p.channel id (listed_programmes (lookup p.channel d) ++ p ∷ []) d,
          same,
        )
        (ap (λ n. listed_programmes (lookup n d) ++ p ∷ []) at)
  | inr other ↦
      rw
        (
          other,
          lookup-insert p.channel id (listed_programmes (lookup p.channel d) ++ p ∷ []) d,
          other,
        )
        (sym (append-nil _))
]

add_programmes-listed :
    (id : Bytes) (ps : List Programme) (d : Dict (List Programme))
    → listed_programmes (lookup id (add_programmes ps d))
      ≡ listed_programmes (lookup id d) ++ programmes_on id ps
unfolding add_programmes
add_programmes-listed id [] d = sym (append-nil _)
add_programmes-listed id (p ∷ ps) d =
    add_programmes-listed id ps (add_programme p d)
    ∙ rw (add_programme-listed id p d) (
        append_assoc (listed_programmes (lookup id d)) (programmes_on id (p ∷ []))
          (programmes_on id ps)
        ∙ ap (◌++◌ (listed_programmes (lookup id d))) (sym (programmes_on-append id (p ∷ []) ps)))

abbrev pub or_else : Option GuideChannel → Option GuideChannel → Option GuideChannel
or_else none b = b
or_else (some a) b = some a

add_channels-first :
    (id : Bytes) (chs : List GuideChannel) (meta : Dict GuideChannel)
    → lookup id (add_channels chs meta) ≡ or_else (lookup id meta) (first_channel id chs)
unfolding add_channels
add_channels-first id [] meta = ground arith
add_channels-first id (ch ∷ chs) meta = ground (
  arith,
  add_channels-first id chs (keep_first (lookup ch.id meta) ch meta),
  lookup-insert ch.id id ch meta,
  equal_iff ch.id id,
)

first_channel-append :
    (id : Bytes) (a b : List GuideChannel)
    → first_channel id (a ++ b) ≡ or_else (first_channel id a) (first_channel id b)
first_channel-append id [] b = refl
first_channel-append id (ch ∷ a) b = ground (arith, first_channel-append id a b)

or_else_assoc : (a b c : Option GuideChannel) → or_else (or_else a b) c ≡ or_else a (or_else b c)
or_else_assoc none b c = refl
or_else_assoc (some a) b c = refl

-- What an index holds under an id, beside what a list of programmes and channels adds.
pub record Holds (id : Bytes) (before after : Index) (ps : List Programme) (chs : List GuideChannel)
    : Type 0 where
  pub programmes :
      listed_programmes (lookup id after.programmes_by_channel_id)
      ≡ listed_programmes (lookup id before.programmes_by_channel_id) ++ programmes_on id ps
  pub meta :
      lookup id after.channel_meta ≡ or_else (lookup id before.channel_meta) (first_channel id chs)

or_else-none : (a : Option GuideChannel) → a ≡ or_else a none
or_else-none none = refl
or_else-none (some a) = refl

Holds-refl : (id : Bytes) (i : Index) → Holds id i i [] []
Holds-refl id i = record { programmes = sym (append-nil _); meta = or_else-none _ }

Holds-trans :
    (id : Bytes) (i j k : Index) (ps qs : List Programme) (a b : List GuideChannel)
    → Holds id i j ps a
    → Holds id j k qs b
    → Holds id i k (ps ++ qs) (a ++ b)
Holds-trans id i j k ps qs a b u v = record {
  programmes =
      v.programmes
      ∙ rw (u.programmes, programmes_on-append id ps qs)
          (append_assoc _ (programmes_on id ps) (programmes_on id qs));
  meta =
      v.meta
      ∙ rw (u.meta, first_channel-append id a b)
          (or_else_assoc _ (first_channel id a) (first_channel id b));
}

add_document-Holds :
    (id : Bytes) (o : Option Document) (i : Index)
    → Holds id i (add_document o i) (programmes_in o) (channels_in o)
add_document-Holds id none i = Holds-refl id i
add_document-Holds id (some doc) i = record {
  programmes = add_programmes-listed id doc.programmes i.programmes_by_channel_id;
  meta = add_channels-first id doc.channels i.channel_meta;
}

pub add_sources-Holds :
    (id : Bytes) (k : Kept Document) (cells : Cells Document) (srcs : List GuideSource) (i : Index)
    → Represents k cells
    → Holds id i (add_sources k srcs i) (source_programmes cells srcs) (source_channels cells srcs)
unfolding add_sources
add_sources-Holds id k cells [] i w = Holds-refl id i
add_sources-Holds id k cells (src ∷ srcs) i w = rw (w.contents src.name) (
    Holds-trans id i (add_document (content_of (cells src.name)) i) _
      (programmes_in (content_of (cells src.name))) (source_programmes cells srcs)
      (channels_in (content_of (cells src.name))) (source_channels cells srcs)
      (add_document-Holds id (content_of (cells src.name)) i)
      (add_sources-Holds id k cells srcs (add_document (content_of (cells src.name)) i) w))

Permᴰ-nil : {xs ys : List Programme} → Permᴰ xs ys → xs ≡ [] → ys ≡ []
Permᴰ-nil Permᴰ.nil h = refl
Permᴰ-nil (Permᴰ.cons e p) h = cc
Permᴰ-nil (Permᴰ.swap e f) h = cc
Permᴰ-nil (Permᴰ.trans p q) h = Permᴰ-nil q (Permᴰ-nil p h)

module _ (tf : TimeFormat) (sorter : Sorter Programme) where
  abbrev sorted : List Programme → List Programme
  sorted ps = sorter.sort_slice (earlier tf) ps

  pub sort_lists-listed :
      (id : Bytes) (d : Dict (List Programme))
      → listed_programmes (lookup id (sort_lists tf sorter d))
        ≡ sorted (listed_programmes (lookup id d))
  unfolding sort_lists lookup
  sort_lists-listed id [] = sym (Permᴰ-nil (sorter.permutes (earlier tf) []) refl)
  sort_lists-listed id ((n, ps) ∷ d) = elim (Bool-cases (equal n id)) [
    | inl same ↦ rw same refl
    | inr other ↦ rw other (sort_lists-listed id d)
  ]
