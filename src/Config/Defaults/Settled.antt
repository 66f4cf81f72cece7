-- ===== src/Config/Defaults/Settled.antt =====
-- The defaults fill what is missing, and only that.
use iptv2hdhr.Base.{ℕ, ◌+◌, ◌≡◌, refl, ap, false, List, [], ◌∷◌, arith, Bytes, is_empty, All}
use iptv2hdhr.Base.Int.{ℤ}
use iptv2hdhr.Config.Schema.{Config, PlaylistSource, GuideSource}
use iptv2hdhr.Config.Defaults.{
  is_zero, text_or, int_or, device_defaults, playlist_defaults, guide_defaults, apply_defaults,
}

-- No field that has a default is left at its zero value.
pub record IsSettled (c : Config) : Type 0 where
  pub friendly_name : is_empty c.device.friendly_name ≡ false
  pub manufacturer : is_empty c.device.manufacturer ≡ false
  pub model_number : is_empty c.device.model_number ≡ false
  pub tuner_count : is_zero c.device.tuner_count ≡ false
  pub http_port : is_zero c.device.http_port ≡ false
  pub playlists :
      All (λ p. (is_empty p.name ≡ false) × (is_zero p.refresh_interval ≡ false)) c.playlists
  pub guides : All (λ g. (is_empty g.name ≡ false) × (is_zero g.refresh_interval ≡ false)) c.guides

text_or_set : (d s : Bytes) → is_empty d ≡ false → is_empty (text_or d s) ≡ false
text_or_set d [] h = h
text_or_set d (c ∷ s) h = refl

int_or_set : (d n : ℤ) → is_zero d ≡ false → is_zero (int_or d n) ≡ false
int_or_set d n h = ground arith

playlists_settled :
    (i : ℕ) (ps : List PlaylistSource)
    → All
        (λ p. (is_empty p.name ≡ false) × (is_zero p.refresh_interval ≡ false))
        (playlist_defaults i ps)
unfolding playlist_defaults
playlists_settled i [] = tt
playlists_settled i (p ∷ ps) = (
  (text_or_set _ p.name refl, int_or_set _ p.refresh_interval refl),
  playlists_settled (i + 1) ps,
)

guides_settled :
    (i : ℕ) (gs : List GuideSource)
    → All
        (λ g. (is_empty g.name ≡ false) × (is_zero g.refresh_interval ≡ false))
        (guide_defaults i gs)
unfolding guide_defaults
guides_settled i [] = tt
guides_settled i (g ∷ gs) =
    ((text_or_set _ g.name refl, int_or_set _ g.refresh_interval refl), guides_settled (i + 1) gs)

apply_defaults_settles : (c : Config) → IsSettled (apply_defaults c)
unfolding apply_defaults device_defaults
apply_defaults_settles c = record {
  friendly_name = text_or_set _ c.device.friendly_name refl;
  manufacturer = text_or_set _ c.device.manufacturer refl;
  model_number = text_or_set _ c.device.model_number refl;
  tuner_count = int_or_set _ c.device.tuner_count refl;
  http_port = int_or_set _ c.device.http_port refl;
  playlists = playlists_settled 0 c.playlists;
  guides = guides_settled 0 c.guides;
}

playlists_kept :
    (i : ℕ) (ps : List PlaylistSource)
    → All (λ p. (is_empty p.name ≡ false) × (is_zero p.refresh_interval ≡ false)) ps
    → playlist_defaults i ps ≡ ps
unfolding playlist_defaults
playlists_kept i [] h = refl
playlists_kept i (p ∷ ps) h = rw (h.0.0, h.0.1) (ap (◌∷◌ p) (playlists_kept (i + 1) ps h.1))

guides_kept :
    (i : ℕ) (gs : List GuideSource)
    → All (λ g. (is_empty g.name ≡ false) × (is_zero g.refresh_interval ≡ false)) gs
    → guide_defaults i gs ≡ gs
unfolding guide_defaults
guides_kept i [] h = refl
guides_kept i (g ∷ gs) h = rw (h.0.0, h.0.1) (ap (◌∷◌ g) (guides_kept (i + 1) gs h.1))

settled_kept : (c : Config) → IsSettled c → apply_defaults c ≡ c
unfolding apply_defaults device_defaults
settled_kept c s =
    rw (s.friendly_name, s.manufacturer, s.model_number, s.tuner_count, s.http_port)
      (λ i. record c {
        playlists = playlists_kept 0 c.playlists s.playlists i;
        guides = guides_kept 0 c.guides s.guides i;
      })

-- The defaults leave no defaulted field at its zero value, and change a configuration exactly if it
-- has such a field: applied again, they change nothing.
pub apply_defaults-IsSettled :
    (c : Config) → IsSettled (apply_defaults c) × (IsSettled c → apply_defaults c ≡ c)
apply_defaults-IsSettled c = (apply_defaults_settles c, settled_kept c)
