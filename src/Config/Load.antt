-- ===== src/Config/Load.antt =====
-- internal/config/config.go: `Load`. Reading the file (`os.ReadFile`) and decoding YAML
-- (`yaml.Unmarshal`) are parameters, with any type of errors.
pub mod Runnable
use iptv2hdhr.Base.{◌⊎◌, inl, inr, Option, List, [], ◌∷◌, Bytes}
use iptv2hdhr.Config.Schema.{Config}
use iptv2hdhr.Config.Defaults.{apply_defaults}
use iptv2hdhr.Config.Validate.{Problem, validate}

pub data Loaded (E : Type 0) : Type 0 where
  loaded : Config → Loaded E
  unreadable : E → Loaded E
  undecodable : E → Loaded E
  invalid : Problem → List Problem → Loaded E

abbrev pub validated : {E : Type 0} → Config → List Problem → Loaded E
validated c [] = loaded c
validated c (p ∷ ps) = invalid p ps

module _ {E : Type 0} (unmarshal : Bytes → E ⊎ Config) (suggestion : Option Bytes) where
  unfoldable pub load : E ⊎ Bytes → Loaded E
  load (inl err) = unreadable err
  load (inr data') = elim (unmarshal data') [
    | inl err ↦ undecodable err
    | inr c ↦ validated (apply_defaults c) (validate suggestion (apply_defaults c))
  ]
