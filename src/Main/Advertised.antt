-- ===== src/Main/Advertised.antt =====
-- The device that is advertised is the one that the server describes.
use iptv2hdhr.Base.{
  ◌≡◌, refl, ap, subst, ◌⊎◌, inl, inr, false, true, Bytes, codes, ◌++◌, is_empty, equal, has_prefix,
  if◌then◌else◌, arith, sym,
}
use iptv2hdhr.Guide.Xmltv.{Programme, TimeFormat}
use iptv2hdhr.Guide.Sorting.{Sorter}
use iptv2hdhr.Hdhr.{Capability, device_xml, base_url_of}
use iptv2hdhr.Ssdp.{Advertisement, advertisement_of}
use iptv2hdhr.Server.{
  Server, Request, Encoders, Deps, described, serve, routes, matched_route, longest_match,
  matches_pattern, to_route, device_description,
}
use iptv2hdhr.Server.Links.{serve_lem}
use iptv2hdhr.Config.Schema.{Config}
use iptv2hdhr.Main.{int_text, address_base, advertised, advertise}

-- A base URL that is configured, which the server's documents have, too; or the outbound address with
-- the port.
pub record IsBase {E : Type 0} (ip : E ⊎ Bytes) (cfg : Config) (host base : Bytes) : Type 0 where
  pub configured : is_empty cfg.device.base_url ≡ false → base ≡ base_url_of cfg host
  pub outbound :
      is_empty cfg.device.base_url ≡ true
      → (address : Bytes) × (ip ≡ inr address)
        × (base ≡ codes "http://" ++ (address ++ (codes ":" ++ int_text cfg.device.http_port)))

-- What the server answers at the advertised location, to whoever asks.
pub record IsDescribed {E : Type 0} (enc : Encoders E) (tf : TimeFormat) (sorter : Sorter Programme)
    (deps : Deps) (s : Server) (r : Request) (ip : E ⊎ Bytes) (ad : Advertisement) : Type 0 where
  pub base : Bytes
  pub path : Bytes
  pub located : ad.location ≡ base ++ path
  pub from_config_or_address : IsBase ip deps.cfg r.host base
  pub description : Capability
  pub answered : (serve enc tf sorter deps s (record r { path = path })).1 ≡ described description
  pub same_device : ad.usn ≡ description.device.udn ++ codes "::upnp:rootdevice"

device_path-routed :
    matched_route routes (codes "/device.xml") (longest_match routes (codes "/device.xml"))
    ≡ to_route device_description
unfolding longest_match matches_pattern has_prefix equal
device_path-routed = refl

module _ {E : Type 0} (enc : Encoders E) (tf : TimeFormat) (sorter : Sorter Programme) (deps : Deps)
    (s : Server) (r : Request) (ip : E ⊎ Bytes) where
  at_base :
      (base : Bytes)
      → enc.clean_path (codes "/device.xml") ≡ codes "/device.xml"
      → IsBase ip deps.cfg r.host base
      → IsDescribed enc tf sorter deps s r ip (
          advertisement_of deps.cfg.device.device_id
            (base ++ codes "/device.xml")
            (codes "iptv2hdhr/1.0"))
  unfolding advertisement_of device_xml
  at_base base clean same = record {
    base = base;
    path = codes "/device.xml";
    located = refl;
    from_config_or_address = same;
    description = device_xml deps.cfg r.host;
    answered =
        ap (λ x. x.1)
          (serve_lem enc tf sorter deps s (record r { path = codes "/device.xml" }) _
            device_path-routed clean);
    same_device = refl;
  }

  ad_of :
      (base : Bytes) {ad : Advertisement}
      → advertised {E = E} deps.cfg (inr base) ≡ inr ad
      → advertisement_of deps.cfg.device.device_id
          (base ++ codes "/device.xml")
          (codes "iptv2hdhr/1.0")
        ≡ ad
  ad_of base e = cc

  based-IsDescribed :
      (b : E ⊎ Bytes) {ad : Advertisement}
      → enc.clean_path (codes "/device.xml") ≡ codes "/device.xml"
      → ((base : Bytes) → b ≡ inr base → IsBase ip deps.cfg r.host base)
      → advertised deps.cfg b ≡ inr ad
      → IsDescribed enc tf sorter deps s r ip ad
  based-IsDescribed (inl err) clean same e = cc
  based-IsDescribed (inr base) clean same e =
      subst (IsDescribed enc tf sorter deps s r ip) (ad_of base e)
        (at_base base clean (same base refl))

  address_IsBase :
      (ip' : E ⊎ Bytes) (base : Bytes)
      → ip ≡ ip'
      → address_base deps.cfg ip' ≡ inr base
      → (address : Bytes) × (ip ≡ inr address)
        × (base ≡ codes "http://" ++ (address ++ (codes ":" ++ int_text deps.cfg.device.http_port)))
  address_IsBase (inl err) base same e = cc
  address_IsBase (inr address) base same e = (address, same, inr_eq _ base (sym e))
    where
      inr_eq : (a b : Bytes) → ◌≡◌ {A = E ⊎ Bytes} (inr b) (inr a) → b ≡ a
      inr_eq a b e = cc

  chosen-IsBase :
      (base : Bytes)
      → (if is_empty deps.cfg.device.base_url
          then address_base deps.cfg ip
          else inr deps.cfg.device.base_url)
        ≡ inr base
      → IsBase ip deps.cfg r.host base
  unfolding base_url_of
  chosen-IsBase base e = record {
    configured = λ set.
        let same : deps.cfg.device.base_url ≡ base = ground (arith, e, set) in
        rw (set, base_url_of) (sym same);
    outbound = λ unset. address_IsBase ip base refl (rw unset at e);
  }

  -- If an advertisement goes out, its location is a path behind the configured base URL or, if none is
  -- configured, behind `http://`, the outbound address, a colon and the port; and at that path the
  -- server, if `path.Clean` leaves the path as it is, describes a device whose UDN is the one that is
  -- advertised. A configured base URL is the description's, too.
  pub advertise-IsDescribed :
      {ad : Advertisement}
      → enc.clean_path (codes "/device.xml") ≡ codes "/device.xml"
      → advertise deps.cfg ip ≡ inr ad
      → IsDescribed enc tf sorter deps s r ip ad
  unfolding advertise
  advertise-IsDescribed clean e = based-IsDescribed _ clean chosen-IsBase e
