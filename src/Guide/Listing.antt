-- ===== src/Guide/Listing.antt =====
-- internal/guide/merge.go: `BuildGuideXML`, up to the encoding of the document as XML, which is Go's.
pub mod Covered
use iptv2hdhr.Base.{
  ◌⊎◌, inl, inr, Option, none, some, List, [], ◌∷◌, ◌++◌, Bytes, codes, is_empty, if◌then◌else◌,
}
use iptv2hdhr.Lineup.{Channel, Snapshot}
use iptv2hdhr.Guide.Xmltv.{Programme, GuideChannel, Icon, Document, TimeFormat, Time}
use iptv2hdhr.Guide.Sorting.{Sorter}
use iptv2hdhr.Guide.Fetcher.{Index}
use iptv2hdhr.Guide.Filler.{build_channel_programmes}

unfoldable pub guide_channel : Bytes → Channel → GuideChannel
guide_channel base ch = record {
  id = ch.channel_id;
  display_name = ch.name ∷ [];
  icon =
      if is_empty ch.logo
      then none
      else some (record { src = base ++ codes "/logo/" ++ ch.number });
}

module _ (tf : TimeFormat) (sorter : Sorter Programme) (idx : Index) (now : Time) where
  abbrev pub channel_programmes : Channel → List Programme
  channel_programmes ch =
      build_channel_programmes tf sorter (some idx.programmes_by_channel_id) ch.tvg_id ch.channel_id
        ch.name now

  -- The loop over the channels.
  unfoldable pub add_listings : Bytes → List Channel → Document → Document
  add_listings base [] doc = doc
  add_listings base (ch ∷ chs) doc = add_listings base chs (record {
    channels = doc.channels ++ guide_channel base ch ∷ [];
    programmes = doc.programmes ++ channel_programmes ch;
  })

  -- `BuildGuideXML`
  unfoldable pub build_guide : Bytes → Snapshot → Document
  build_guide base snap =
      add_listings base snap.channels (record { channels = []; programmes = [] })

-- `xml.Header`
abbrev pub xml_header : Bytes
xml_header = codes "<?xml version=\"1.0\" encoding=\"UTF-8\"?>\n"

-- The end of `BuildGuideXML`: the encoded document behind the header.
unfoldable pub guide_bytes : {E : Type 0} → E ⊎ Bytes → E ⊎ Bytes
guide_bytes (inl err) = inl err
guide_bytes (inr out) = inr (xml_header ++ out)
