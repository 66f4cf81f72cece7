-- ===== src/Base/Maps.antt =====
-- Go's maps with string keys, as association lists. A nil map reads like an empty one, and is the
-- empty list here.
use mathlib.Core.Path.{◌≡◌, refl}
use mathlib.Core.Option.{Option, none, some}
use mathlib.Core.List.{List, [], ◌∷◌}
use native.Mathlib.Omega.{arith}
use iptv2hdhr.Base.Tests.{if◌then◌else◌}
use iptv2hdhr.Base.Text.{Bytes, equal, equal_iff}

abbrev pub Dict {ℓ} : Type ℓ → Type ℓ
Dict V = List (Bytes × V)

module _ {ℓ} {V : Type ℓ} where
  -- val, ok := m[key]
  unfoldable pub lookup : Bytes → Dict V → Option V
  lookup key [] = none
  lookup key ((name, val) ∷ rest) = if equal name key then some val else lookup key rest

  -- m[key] = val
  unfoldable pub insert : Bytes → V → Dict V → Dict V
  insert key val [] = (key, val) ∷ []
  insert key val ((name, old) ∷ rest) =
      if equal name key then (name, val) ∷ rest else (name, old) ∷ insert key val rest

  -- delete(m, key)
  unfoldable pub remove : Bytes → Dict V → Dict V
  remove key [] = []
  remove key ((name, val) ∷ rest) =
      let others = remove key rest in if equal name key then others else (name, val) ∷ others

  pub lookup-insert :
      (key name : Bytes) (val : V) (d : Dict V)
      → lookup name (insert key val d) ≡ (if equal key name then some val else lookup name d)
  unfolding lookup insert
  lookup-insert key name val [] = refl
  lookup-insert key name val ((x, old) ∷ rest) = ground (
    arith,
    lookup-insert key name val rest,
    equal_iff x name,
    equal_iff x key,
    equal_iff key name,
  )

  pub lookup-remove :
      (key name : Bytes) (d : Dict V)
      → lookup name (remove key d) ≡ (if equal key name then none else lookup name d)
  unfolding lookup remove
  lookup-remove key name [] = ground arith
  lookup-remove key name ((x, val) ∷ rest) =
      ground
        (arith, lookup-remove key name rest, equal_iff x name, equal_iff x key, equal_iff key name)

-- m[k] where a missing key reads as the zero value.
abbrev pub get_or_zero : Bytes → Dict Bytes → Bytes
get_or_zero k m = elim (lookup k m) [ none ↦ [] | some v ↦ v ]
