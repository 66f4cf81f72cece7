-- ===== src/Config/DeviceId/Suggested.antt =====
-- The device id that `Validate` suggests.
use iptv2hdhr.Base.{
  ℕ, ◌+◌, ◌/◌, ◌%◌, ◌<◌, ◌≡◌, refl, ap, subst, true, ◌||◌, Option, some, List, [], ◌∷◌, arith,
  Bytes, length, length-append, is_empty,
}
use iptv2hdhr.Base.Int.{pos, ltb_ℤ}
use iptv2hdhr.Config.Schema.{Config}
use iptv2hdhr.Config.Validate.{
  Problem, report, is_hex_digit, matches_device_id, device_id_problems, device_problems, validate,
  is_nil, playlist_problems, guide_problems, channel_problems,
}
use iptv2hdhr.Base.Net.Escapes.{hex_digit}
use iptv2hdhr.Config.DeviceId.{Random, device_id_of, generate_device_id}

-- What `rand.Read` gives are bytes.
pub record AreBytes (r : Random) : Type 0 where
  pub lt0 : r.b0 < 256
  pub lt1 : r.b1 < 256
  pub lt2 : r.b2 < 256
  pub lt3 : r.b3 < 256

hex_digit-accepted : (x : ℕ) → x < 16 → is_hex_digit (hex_digit x) ≡ true
unfolding is_hex_digit
hex_digit-accepted x lt = ground arith

hex_byte-accepted :
    (b : ℕ)
    → b < 256
    → (is_hex_digit (hex_digit (b / 16)) ≡ true) × (is_hex_digit (hex_digit (b % 16)) ≡ true)
hex_byte-accepted b lt =
    (hex_digit-accepted (b / 16) (omega arith), hex_digit-accepted (b % 16) (omega arith))

device_id_of-accepted : (r : Random) → AreBytes r → matches_device_id (device_id_of r) ≡ true
unfolding matches_device_id
device_id_of-accepted r w =
    let (a0, a1) = hex_byte-accepted r.b0 w.lt0 in
    let (b0, b1) = hex_byte-accepted r.b1 w.lt1 in
    let (c0, c1) = hex_byte-accepted r.b2 w.lt2 in
    let (d0, d1) = hex_byte-accepted r.b3 w.lt3 in rw (a0, a1, b0, b1, c0, c1, d0, d1) refl

abbrev with_device_id : Config → Bytes → Config
with_device_id c id = record c { device = record c.device { device_id = id } }

-- The problems that are not about the device id.
other_problems : Config → ℕ
other_problems c =
    length (
      report (ltb_ℤ c.device.http_port (pos 1) || ltb_ℤ (pos 65535) c.device.http_port)
        (Problem.bad_http_port c.device.http_port))
    + (length (
          report (ltb_ℤ c.device.tuner_count (pos 1))
            (Problem.bad_tuner_count c.device.tuner_count))
        + (length (report (is_nil c.playlists) Problem.no_playlists)
            + (length (playlist_problems 0 c.playlists)
                + (length (guide_problems 0 c.guides)
                    + (length (report (is_nil c.channels) Problem.no_channels)
                        + length (channel_problems [] 0 c.channels))))))

length-validate :
    (suggestion : Option Bytes) (c : Config)
    → length (validate suggestion c)
      ≡ length (device_id_problems suggestion c.device.device_id) + other_problems c
unfolding validate device_problems other_problems
length-validate suggestion c = simp length-append (omega arith)

none_left : {A : Type 0} (xs : List A) → length xs ≡ 0 → xs ≡ []
none_left [] e = refl
none_left (x ∷ xs) e = absurd (omega (arith, e))

suggestion_fits :
    (random : Random) (id : Bytes)
    → AreBytes random
    → generate_device_id (some random) ≡ some id
    → matches_device_id id ≡ true
unfolding generate_device_id
suggestion_fits random id w e =
    let same : device_id_of random ≡ id = cc in
    subst (λ s. matches_device_id s ≡ true) same (device_id_of-accepted random w)

accepted_id :
    (suggestion : Option Bytes) (id : Bytes)
    → matches_device_id id ≡ true
    → device_id_problems suggestion id ≡ []
unfolding device_id_problems matches_device_id
accepted_id suggestion [] e = cc
accepted_id suggestion (c ∷ id) e = rw e refl

missing_id :
    (suggestion : Option Bytes) (id : Bytes)
    → is_empty id ≡ true
    → device_id_problems suggestion id ≡ Problem.device_id_missing suggestion ∷ []
unfolding device_id_problems
missing_id suggestion id e = rw e refl

same_others : (c : Config) (id : Bytes) → other_problems (with_device_id c id) ≡ other_problems c
unfolding other_problems
same_others c id = refl

-- If a configuration has no device id, and that is the only problem of it, it is valid with the id that
-- `Validate` suggests, whatever random bytes that is made of.
pub validate-suggested :
    (c : Config) (random : Random) (id : Bytes) (suggestion : Option Bytes)
    → AreBytes random
    → generate_device_id (some random) ≡ some id
    → is_empty c.device.device_id ≡ true
    → validate (some id) c ≡ Problem.device_id_missing (some id) ∷ []
    → validate suggestion (with_device_id c id) ≡ []
validate-suggested c random id suggestion w e unset only = none_left _ (
    omega (
      arith,
      length-validate (some id) c,
      ap length (missing_id (some id) c.device.device_id unset),
      ap length only,
      length-validate suggestion (with_device_id c id),
      same_others c id,
      ap length (accepted_id suggestion id (suggestion_fits random id w e)),
    ))
