-- ===== src/Ssdp.antt =====
-- internal/ssdp/ssdp.go: what `Advertise` gives to the SSDP library, and the goroutine that repeats
-- it. What the library answers to each announcement is an event.
pub mod Goodbye
mod Tests
use iptv2hdhr.Base.{
  ℕ, ◌*◌, ◌⊎◌, inl, inr, Bool, true, false, Option, none, some, List, [], ◌∷◌, ◌++◌, Bytes, codes,
}

pub record Advertisement : Type 0 where
  pub search_target : Bytes
  pub usn : Bytes
  pub location : Bytes
  pub server : Bytes
  pub max_age : ℕ

abbrev pub root_device : Bytes
root_device = codes "upnp:rootdevice"

-- The arguments of `ssdp.Advertise`.
unfoldable pub advertisement_of : Bytes → Bytes → Bytes → Advertisement
advertisement_of device_id location server = record {
  search_target = root_device;
  usn = codes "uuid:" ++ (device_id ++ codes "::upnp:rootdevice");
  location = location;
  server = server;
  max_age = 1800;
}

-- How often the goroutine announces the device, in seconds.
abbrev pub alive_period : ℕ
alive_period = 300

-- The goroutine's calls of the library: `Alive`, `Bye` and `Close`.
pub data Call : Type 0 where
  alive : Call
  bye : Call
  close : Call

-- The goroutine waits at its select, or it has returned.
pub data Place : Type 0 where
  announcing : Place
  returned : Place

-- `calls` is what the goroutine has called; `ticking` whether the ticker runs.
pub record Advertiser : Type 0 where
  pub place : Place
  pub calls : List Call
  pub ticking : Bool

abbrev pub new_advertiser : Advertiser
new_advertiser = record { place = announcing; calls = []; ticking = true }

-- What the select receives: a tick, with the error or none that `Alive` then answers; or the end of
-- the context.
pub data Event (E : Type 0) : Type 0 where
  ticked : Option E → Event E
  context_done : Event E

-- The return, and the deferred `ticker.Stop`.
abbrev pub leave : Advertiser → List Call → Advertiser
leave a made = record { place = returned; calls = a.calls ++ made; ticking = false }

module _ {E : Type 0} where
  abbrev pub announced : Advertiser → Option E → Advertiser
  announced a none = record a { calls = a.calls ++ alive ∷ [] }
  announced a (some err) = leave a (alive ∷ [])

  abbrev pub receive_event : Advertiser → Event E → Advertiser
  receive_event a (ticked answer) = announced a answer
  receive_event a context_done = leave a (bye ∷ close ∷ [])

  abbrev pub receive_at : Place → Advertiser → Event E → Advertiser
  receive_at announcing a e = receive_event a e
  receive_at returned a e = a

  -- A round of the goroutine's loop; none after it has returned.
  unfoldable pub receive : Advertiser → Event E → Advertiser
  receive a e = receive_at a.place a e

  unfoldable pub receive_all : Advertiser → List (Event E) → Advertiser
  receive_all a [] = a
  receive_all a (e ∷ es) = receive_all (receive a e) es

-- `Advertise`: the library takes the advertisement or answers with an error; a goroutine is started
-- only if it takes it.
unfoldable pub start_advertiser :
    {E : Type 0} → (Advertisement → Option E) → Advertisement → E ⊎ Advertiser
start_advertiser library ad = elim (library ad) [ some err ↦ inl err | none ↦ inr new_advertiser ]
