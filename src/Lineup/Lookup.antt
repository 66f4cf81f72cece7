-- ===== src/Lineup/Lookup.antt =====
-- The index from numbers to channels: `New` builds it, and every lookup relies on it.
use iptv2hdhr.Base.{
  ℕ, zero, suc, ◌≡◌, refl, ap, sym, subst, All-get_elem?, false, ◌⊎◌, inl, inr, ◌↔◌, none, some,
  List, [], ◌∷◌, ◌++◌, map, arith, Bytes, Dict, lookup, insert, lookup-insert, equal, equal_iff,
  equal_refl, length, get_elem?, get_elem?-append, get_elem?-append_left, append_assoc, append-nil,
  All, All-append, Option-cases, Bool-cases, if◌then◌else◌,
}
use iptv2hdhr.Config.Schema.{ChannelConfig}
use iptv2hdhr.Lineup.{
  Channel, Lineup, built, channel_of, lineup_of, build, new, Found, found, not_found,
  channel_by_number,
}

-- No number twice.
abbrev pub Distinct : List Channel → Type 0
Distinct [] = Unit
Distinct (c ∷ cs) = All (λ d. equal c.number d.number ≡ false) cs × Distinct cs

-- The index gives each number the place of its channel.
pub record Indexes (index : Dict ℕ) (chs : List Channel) : Type 0 where
  pub points :
      (n : Bytes) (i : ℕ)
      → lookup n index ≡ some i
      → (c : Channel) × (get_elem? chs i ≡ some c) × (c.number ≡ n)
  pub covers : (c : Channel) (i : ℕ) → get_elem? chs i ≡ some c → lookup c.number index ≡ some i
  pub distinct : Distinct chs

Distinct-concat :
    (cs : List Channel) (c : Channel)
    → Distinct cs
    → All (λ d. equal d.number c.number ≡ false) cs
    → Distinct (cs ++ c ∷ [])
Distinct-concat [] c h k = (tt, tt)
Distinct-concat (d ∷ cs) c h k =
    (All-append _ cs (c ∷ []) h.0 (k.0, tt), Distinct-concat cs c h.1 k.1)

get_elem?-concat_cases :
    (cs : List Channel) (c d : Channel) (i : ℕ)
    → get_elem? (cs ++ c ∷ []) i ≡ some d
    → (get_elem? cs i ≡ some d) ⊎ ((i ≡ length cs) × (d ≡ c))
get_elem?-concat_cases [] c d zero h = ground arith
get_elem?-concat_cases [] c d (suc i) h = cc
get_elem?-concat_cases (e ∷ cs) c d zero h = inl h
get_elem?-concat_cases (e ∷ cs) c d (suc i) h = elim (get_elem?-concat_cases cs c d i h) [
  | inl k ↦ inl k
  | inr (k, e') ↦ inr (ap suc k, e')
]

pub All-of_elems :
    {P : Channel → Type 0} (cs : List Channel)
    → ((c : Channel) (i : ℕ) → get_elem? cs i ≡ some c → P c)
    → All P cs
All-of_elems [] h = tt
All-of_elems (c ∷ cs) h = (h c 0 refl, All-of_elems cs (λ d i. h d (suc i)))

module _ {index : Dict ℕ} {chs : List Channel} (w : Indexes index chs) (c : Channel)
    (fresh : lookup c.number index ≡ none) where
  ne_fresh : (d : Channel) (i : ℕ) → get_elem? chs i ≡ some d → equal d.number c.number ≡ false
  ne_fresh d i e = ground (arith, w.covers d i e, equal_iff d.number c.number)

  extend-Indexes : Indexes (insert c.number (length chs) index) (chs ++ c ∷ [])
  extend-Indexes = record {
    points = λ n i e. elim (Bool-cases (equal c.number n)) [
      | inl same ↦ (
        c,
        ground (arith, get_elem?-append chs [] c, lookup-insert c.number n (length chs) index),
        (equal_iff c.number n).0 same,
      )
      | inr other ↦
          let old : lookup n index ≡ some i =
            ground (arith, lookup-insert c.number n (length chs) index) in
          let (d, at, num) = w.points n i old in (d, get_elem?-append_left chs (c ∷ []) i at, num)
    ];
    covers = λ d i e. elim (get_elem?-concat_cases chs c d i e) [
      | inl old ↦ ground (
        arith,
        lookup-insert c.number d.number (length chs) index,
        w.covers d i old,
        equal_iff c.number d.number,
      )
      | inr (last, same) ↦
          rw (same, lookup-insert c.number c.number (length chs) index, equal_refl c.number, last)
    ];
    distinct = Distinct-concat chs c w.distinct (All-of_elems chs ne_fresh);
  }

-- What `New` returns for the channels that are left, given the index so far.
pub record IsBuilt (chs : List Channel) (l : Lineup) : Type 0 where
  pub all_channels : l.channels ≡ chs
  pub published : l.current.channels ≡ chs
  pub no_streams : l.current.streams ≡ []
  pub indexed : Indexes l.number_index l.channels

build-IsBuilt :
    (cfg : List ChannelConfig) (chs : List Channel) (index : Dict ℕ) {l : Lineup}
    → Indexes index chs
    → build cfg chs index ≡ built l
    → IsBuilt (chs ++ map channel_of cfg) l
unfolding build
build-IsBuilt [] chs index {l} w e =
    let same : lineup_of chs index ≡ l = cc in
    rw (← same, append-nil)
      (record { all_channels = refl; published = refl; no_streams = refl; indexed = w })
build-IsBuilt (ch ∷ cfg) chs index w e = elim (Option-cases (lookup ch.number index)) [
  | inl fresh ↦ rw (← append_assoc chs (channel_of ch ∷ []) (map channel_of cfg)) (
      build-IsBuilt cfg (chs ++ channel_of ch ∷ []) (insert ch.number (length chs) index)
        (extend-Indexes w (channel_of ch) fresh) (ground arith))
  | inr (i, taken) ↦ ground arith
]

Indexes-empty : Indexes [] []
Indexes-empty = record {
  points = λ n i e. absurd (unfold lookup in cc);
  covers = λ c i e. cc;
  distinct = tt;
}

-- A lineup that `New` builds has the configured channels in their order, an index that leads from
-- each number to its channel and back, and a snapshot with these channels and no streams.
pub new-IsBuilt :
    (cfg : List ChannelConfig) {l : Lineup} → new cfg ≡ built l → IsBuilt (map channel_of cfg) l
unfolding new
new-IsBuilt cfg e = build-IsBuilt cfg [] [] Indexes-empty e

Distinct-split :
    (cs : List Channel) (d : Channel) (ds : List Channel) (i : ℕ) {c : Channel}
    → Distinct (cs ++ d ∷ ds)
    → get_elem? cs i ≡ some c
    → equal c.number d.number ≡ false
Distinct-split [] d ds i h e = cc
Distinct-split (b ∷ cs) d ds zero h e = ground (
  arith,
  All-get_elem? (λ (x : Channel). equal b.number x.number ≡ false) (cs ++ d ∷ ds) (length cs) h.0
      (get_elem?-append cs ds d),
)
Distinct-split (b ∷ cs) d ds (suc i) h e = Distinct-split cs d ds i h.1 e

build-total :
    (cfg : List ChannelConfig) (chs : List Channel) (index : Dict ℕ)
    → Indexes index chs
    → Distinct (chs ++ map channel_of cfg)
    → (l : Lineup) × (build cfg chs index ≡ built l)
unfolding build
build-total [] chs index w d = (lineup_of chs index, refl)
build-total (ch ∷ cfg) chs index w d = elim (Option-cases (lookup ch.number index)) [
  | inl fresh ↦
      rw (fresh, build)
        (build-total cfg (chs ++ channel_of ch ∷ []) (insert ch.number (length chs) index)
          (extend-Indexes w (channel_of ch) fresh)
          (rw (append_assoc chs (channel_of ch ∷ []) (map channel_of cfg)) d))
  | inr (i, taken) ↦
      let (c, at, num) = w.points ch.number i taken in
      absurd (
        ground (
          arith,
          Distinct-split chs (channel_of ch) (map channel_of cfg) i d at,
          equal_iff c.number ch.number,
        ))
]

-- `New` succeeds exactly when no channel number is configured twice.
pub new-Distinct :
    (cfg : List ChannelConfig)
    → ((l : Lineup) × (new cfg ≡ built l)) ↔ Distinct (map channel_of cfg)
unfolding new
new-Distinct cfg = (
  λ s. let w = new-IsBuilt cfg s.1 in subst Distinct w.all_channels w.indexed.distinct,
  build-total cfg [] [] Indexes-empty,
)

-- The first channel with the number.
abbrev pub first_numbered : Bytes → List Channel → Found
first_numbered n [] = not_found
first_numbered n (c ∷ cs) = if equal c.number n then found c else first_numbered n cs

first_numbered-hit :
    (n : Bytes) (cs : List Channel) (i : ℕ) {c : Channel}
    → Distinct cs
    → get_elem? cs i ≡ some c
    → c.number ≡ n
    → first_numbered n cs ≡ found c
first_numbered-hit n [] i d e h = cc
first_numbered-hit n (b ∷ cs) zero d e h = ground (arith, equal_iff b.number n)
first_numbered-hit n (b ∷ cs) (suc i) {c} d e h = ground (
  arith,
  first_numbered-hit n cs i d.1 e h,
  All-get_elem? (λ (x : Channel). equal b.number x.number ≡ false) cs i d.0 e,
)

first_numbered-miss :
    (n : Bytes) (cs : List Channel)
    → ((c : Channel) (i : ℕ) → get_elem? cs i ≡ some c → equal c.number n ≡ false)
    → first_numbered n cs ≡ not_found
first_numbered-miss n [] h = refl
first_numbered-miss n (b ∷ cs) h = rw (h b 0 refl) (first_numbered-miss n cs (λ c i. h c (suc i)))

module _ {index : Dict ℕ} {chs : List Channel} (w : Indexes index chs) where
  pub first_numbered_of_none :
      (n : Bytes) → lookup n index ≡ none → first_numbered n chs ≡ not_found
  first_numbered_of_none n e =
      first_numbered-miss n chs λ c i at. ground (arith, w.covers c i at, equal_iff c.number n)

  pub first_numbered_of_elem :
      (n : Bytes) (i : ℕ) {c : Channel}
      → get_elem? chs i ≡ some c
      → c.number ≡ n
      → first_numbered n chs ≡ found c
  first_numbered_of_elem n i at num = first_numbered-hit n chs i w.distinct at num

-- `ChannelByNumber` gives the first channel with the number, and never indexes out of range, on a
-- lineup whose index fits its channels.
pub channel_by_number-first_numbered :
    (l : Lineup) (n : Bytes)
    → Indexes l.number_index l.channels
    → channel_by_number l n ≡ first_numbered n l.channels
unfolding channel_by_number
channel_by_number-first_numbered l n w = elim (Option-cases (lookup n l.number_index)) [
  | inl e ↦ rw (e, channel_by_number) (sym (first_numbered_of_none w n e))
  | inr (i, e) ↦
      let (c, at, num) = w.points n i e in
      rw (e, channel_by_number) (rw at (sym (first_numbered_of_elem w n i at num)))
]
