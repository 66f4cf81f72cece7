-- ===== src/Config/Load/Runnable.antt =====
-- What the rest of the program may rely on once `Load` has succeeded.
use iptv2hdhr.Base.{◌≡◌, ◌⊎◌, inl, inr, subst, Option, List, [], ◌∷◌, Bytes, arith, Sum-cases}
use iptv2hdhr.Config.Schema.{Config}
use iptv2hdhr.Config.Defaults.{apply_defaults}
use iptv2hdhr.Config.Defaults.Settled.{IsSettled, apply_defaults-IsSettled}
use iptv2hdhr.Config.Validate.{Problem, validate}
use iptv2hdhr.Config.Validate.Rules.{IsValid, validate-IsValid}
use iptv2hdhr.Config.Load.{loaded, load, validated}
use iptv2hdhr.Lineup.{Lineup, built, new}
use iptv2hdhr.Lineup.Lookup.{new-Distinct}

module _ {E : Type 0} (unmarshal : Bytes → E ⊎ Config) (suggestion : Option Bytes) where
  validated_cases :
      (raw c : Config) (ps : List Problem)
      → validated {E = E} raw ps ≡ loaded c
      → (raw ≡ c) × (ps ≡ [])
  validated_cases raw c [] e = ground arith
  validated_cases raw c (p ∷ ps) e = cc

  load_cases :
      (file : E ⊎ Bytes) (c : Config)
      → load unmarshal suggestion file ≡ loaded c
      → (raw : Config) × (apply_defaults raw ≡ c) × (validate suggestion c ≡ [])
  unfolding load
  load_cases (inl err) c e = cc
  load_cases (inr text) c e = elim (Sum-cases (unmarshal text)) [
    | inl (err, bad) ↦ ground arith
    | inr (raw, good) ↦
        let (same, clean) = validated_cases (apply_defaults raw) c _ (ground (arith, e)) in
        (raw, same, subst (λ x. validate suggestion x ≡ []) same clean)
  ]

  -- A configuration that `Load` returns has its defaults filled in and is valid, and `New` builds a
  -- lineup from its channels, so that the program's start does not stop there.
  pub load-IsValid :
      (file : E ⊎ Bytes) (c : Config)
      → load unmarshal suggestion file ≡ loaded c
      → IsSettled c × IsValid c × (l : Lineup) × (new c.channels ≡ built l)
  load-IsValid file c e =
      let (raw, same, clean) = load_cases file c e in
      let valid = (validate-IsValid suggestion c).0 clean in
      let (l, made) = (new-Distinct c.channels).1 valid.numbers in
      (subst IsSettled same (apply_defaults-IsSettled raw).0, valid, l, made)
