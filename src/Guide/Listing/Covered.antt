-- ===== src/Guide/Listing/Covered.antt =====
-- What the guide lists for the channels of a lineup.
use iptv2hdhr.Base.{
  ℕ, zero, suc, ◌≡◌, refl, sym, ap, ◌∙◌, subst, inl, inr, false, some, List, [], ◌∷◌, ◌++◌, map,
  append_assoc, append-nil, arith, Bytes, equal, equal_iff, All, get_elem?, All-get_elem?,
}
use iptv2hdhr.Config.Schema.{ChannelConfig}
use iptv2hdhr.Lineup.{Channel, Lineup, Snapshot, built, new, channel_of}
use iptv2hdhr.Lineup.Lookup.{Distinct, new-IsBuilt}
use iptv2hdhr.Guide.Xmltv.{Programme, Document, TimeFormat, Time}
use iptv2hdhr.Guide.Sorting.{Sorter}
use iptv2hdhr.Guide.Fetcher.{Index}
use iptv2hdhr.Guide.Fetcher.Indexed.{programmes_on, programmes_on-append}
use iptv2hdhr.Guide.Filler.{filler_block, real_programmes}
use iptv2hdhr.Guide.Filler.Placed.{IsPlaced, build_channel_programmes-IsPlaced}
use iptv2hdhr.Guide.Listing.{guide_channel, channel_programmes, add_listings, build_guide}

programmes_on_same :
    (id : Bytes) (ps : List Programme) → All (λ p. p.channel ≡ id) ps → programmes_on id ps ≡ ps
programmes_on_same id [] h = refl
programmes_on_same id (p ∷ ps) h =
    rw ((equal_iff p.channel id).1 h.0) (ap (◌∷◌ p) (programmes_on_same id ps h.1))

programmes_on_other :
    (id other : Bytes) (ps : List Programme)
    → All (λ p. p.channel ≡ other) ps
    → equal other id ≡ false
    → programmes_on id ps ≡ []
programmes_on_other id other [] h ne = refl
programmes_on_other id other (p ∷ ps) h ne = rw (h.0, ne) (programmes_on_other id other ps h.1 ne)

trivially : {A : Type 0} (xs : List A) → All {0, 0} (λ _. Unit) xs
trivially [] = tt
trivially (x ∷ xs) = (tt, trivially xs)

map-All :
    {A : Type 0} {P Q : A → Type 0} (f : (a : A) → P a → Q a) (xs : List A) → All P xs → All Q xs
map-All f [] h = tt
map-All f (x ∷ xs) h = (f x h.0, map-All f xs h.1)

module _ (tf : TimeFormat) (sorter : Sorter Programme) (idx : Index) (now : Time) where
  placed_channel :
      (id name : Bytes) (p : Programme) → IsPlaced tf id name (λ _. Unit) p → p.channel ≡ id
  unfolding filler_block
  placed_channel id name p (inl (cursor, end, same, le)) = rw same refl
  placed_channel id name p (inr (q, _, same)) = ap (λ x. x.channel) same

  channel_programmes_own :
      (ch : Channel)
      → All (λ p. p.channel ≡ ch.channel_id) (channel_programmes tf sorter idx now ch)
  channel_programmes_own ch = map-All (placed_channel ch.channel_id ch.name) _ (
      build_channel_programmes-IsPlaced tf sorter (some idx.programmes_by_channel_id) ch.tvg_id
        ch.channel_id ch.name now (λ _. Unit)
        (trivially (real_programmes (some idx.programmes_by_channel_id) ch.tvg_id)))

  abbrev all_listed : List Channel → List Programme
  all_listed [] = []
  all_listed (ch ∷ chs) = channel_programmes tf sorter idx now ch ++ all_listed chs

  add_listings_programmes :
      (base : Bytes) (chs : List Channel) (doc : Document)
      → (add_listings tf sorter idx now base chs doc).programmes ≡ doc.programmes ++ all_listed chs
  unfolding add_listings
  add_listings_programmes base [] doc = sym (append-nil _)
  add_listings_programmes base (ch ∷ chs) doc =
      add_listings_programmes base chs _
      ∙ append_assoc doc.programmes (channel_programmes tf sorter idx now ch) (all_listed chs)

  add_listings_channels :
      (base : Bytes) (chs : List Channel) (doc : Document)
      → (add_listings tf sorter idx now base chs doc).channels
        ≡ doc.channels ++ map (guide_channel base) chs
  unfolding add_listings
  add_listings_channels base [] doc = sym (append-nil _)
  add_listings_channels base (ch ∷ chs) doc =
      add_listings_channels base chs _
      ∙ append_assoc doc.channels (guide_channel base ch ∷ []) (map (guide_channel base) chs)

  pub build_guide-channels :
      (base : Bytes) (snap : Snapshot)
      → (build_guide tf sorter idx now base snap).channels ≡ map (guide_channel base) snap.channels
  unfolding build_guide
  build_guide-channels base snap = add_listings_channels base snap.channels _

  misses :
      (id : Bytes) (chs : List Channel)
      → All (λ ch. equal ch.channel_id id ≡ false) chs
      → programmes_on id (all_listed chs) ≡ []
  misses id [] h = refl
  misses id (ch ∷ chs) h =
      programmes_on-append id (channel_programmes tf sorter idx now ch) (all_listed chs)
      ∙ rw (programmes_on_other id ch.channel_id _ (channel_programmes_own ch) h.0)
          (misses id chs h.1)

  -- No id twice.
  abbrev DistinctIds : List Channel → Type 0
  DistinctIds [] = Unit
  DistinctIds (ch ∷ chs) = All (λ d. equal d.channel_id ch.channel_id ≡ false) chs × DistinctIds chs

  equal_comm : (a b : Bytes) → equal a b ≡ equal b a
  equal_comm a b = ground (arith, equal_iff a b, equal_iff b a)

  listed_once :
      (chs : List Channel) (i : ℕ) {ch : Channel}
      → DistinctIds chs
      → get_elem? chs i ≡ some ch
      → programmes_on ch.channel_id (all_listed chs) ≡ channel_programmes tf sorter idx now ch
  listed_once [] i d e = cc
  listed_once (c ∷ chs) zero {ch} d e =
      let same : c ≡ ch = cc in
      subst
        (λ x.
          programmes_on x.channel_id (all_listed (c ∷ chs))
          ≡ channel_programmes tf sorter idx now x)
        same
        (programmes_on-append c.channel_id (channel_programmes tf sorter idx now c) (all_listed chs)
          ∙ rw
              (
                programmes_on_same c.channel_id _ (channel_programmes_own c),
                misses c.channel_id chs d.0,
              )
              (append-nil _))
  listed_once (c ∷ chs) (suc i) {ch} d e =
      let other : equal ch.channel_id c.channel_id ≡ false =
        All-get_elem? (λ (x : Channel). equal x.channel_id c.channel_id ≡ false) chs i d.0 e in
      programmes_on-append ch.channel_id (channel_programmes tf sorter idx now c) (all_listed chs)
      ∙ rw
          (programmes_on_other ch.channel_id c.channel_id _ (channel_programmes_own c)
            (equal_comm c.channel_id ch.channel_id ∙ other))
          (listed_once chs i d.1 e)

  slots_apart :
      (c : ChannelConfig) (cfg : List ChannelConfig)
      → All (λ d. equal (channel_of c).number d.number ≡ false) (map channel_of cfg)
      → All (λ d. equal d.channel_id (channel_of c).channel_id ≡ false) (map channel_of cfg)
  unfolding equal
  slots_apart c [] h = tt
  slots_apart c (d ∷ cfg) h = (equal_comm d.number c.number ∙ h.0, slots_apart c cfg h.1)

  DistinctIds-of_numbers :
      (cfg : List ChannelConfig) → Distinct (map channel_of cfg) → DistinctIds (map channel_of cfg)
  DistinctIds-of_numbers [] d = tt
  DistinctIds-of_numbers (c ∷ cfg) d = (slots_apart c cfg d.0, DistinctIds-of_numbers cfg d.1)

  -- The guide of a lineup that `New` builds has one entry for each channel, in their order, and under
  -- each channel's id exactly the programmes that `BuildChannelProgrammes` makes for it.
  pub build_guide-programmes_on :
      (base : Bytes) (cfg : List ChannelConfig) {l : Lineup}
      → new cfg ≡ built l
      → ((build_guide tf sorter idx now base l.current).channels
          ≡ map (guide_channel base) (map channel_of cfg))
        × ((i : ℕ) (ch : Channel)
            → get_elem? (map channel_of cfg) i ≡ some ch
            → programmes_on ch.channel_id (build_guide tf sorter idx now base l.current).programmes
              ≡ channel_programmes tf sorter idx now ch)
  unfolding build_guide
  build_guide-programmes_on base cfg {l} e =
      let w = new-IsBuilt cfg e in
      let distinct = subst Distinct w.all_channels w.indexed.distinct in
      (
        add_listings_channels base l.current.channels _ ∙ ap (map (guide_channel base)) w.published,
        λ i ch at.
            ap (programmes_on ch.channel_id)
              (add_listings_programmes base l.current.channels _ ∙ ap all_listed w.published)
            ∙ listed_once (map channel_of cfg) i (DistinctIds-of_numbers cfg distinct) at,
      )
