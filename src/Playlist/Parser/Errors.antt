-- ===== src/Playlist/Parser/Errors.antt =====
-- When `Parse` refuses its input.
use iptv2hdhr.Base.{◌≡◌, ◌↔◌, ◌⊎◌, arith, Bytes, codes, Unicode}
use iptv2hdhr.Base.TextLaws.{IsInfix, contains_iff}
use iptv2hdhr.Playlist.Parser.{parse, is_media_playlist, failed, not_extended_m3u}

module _ ⦃u : Unicode⦄ where
  -- `Parse` reports ErrNotExtendedM3U exactly when one of the two HLS tags stands somewhere in the
  -- input, or #EXTM3U stands nowhere in it.
  pub parse-not_extended_m3u :
      (src : Bytes)
      → (parse src ≡ failed not_extended_m3u) ↔ (
          IsInfix (codes "#EXT-X-TARGETDURATION") src
          ⊎ IsInfix (codes "#EXT-X-MEDIA-SEQUENCE") src
          ⊎ ¬ IsInfix (codes "#EXTM3U") src)
  unfolding parse is_media_playlist
  parse-not_extended_m3u src = (to, from)
    where
      to :
          parse src ≡ failed not_extended_m3u
          → IsInfix (codes "#EXT-X-TARGETDURATION") src
            ⊎ IsInfix (codes "#EXT-X-MEDIA-SEQUENCE") src
            ⊎ ¬ IsInfix (codes "#EXTM3U") src
      to h = ground (
        arith,
        contains_iff src (codes "#EXT-X-TARGETDURATION"),
        contains_iff src (codes "#EXT-X-MEDIA-SEQUENCE"),
        contains_iff src (codes "#EXTM3U"),
      )

      from :
          IsInfix (codes "#EXT-X-TARGETDURATION") src
            ⊎ IsInfix (codes "#EXT-X-MEDIA-SEQUENCE") src
            ⊎ ¬ IsInfix (codes "#EXTM3U") src
          → parse src ≡ failed not_extended_m3u
      from h = ground (
        arith,
        contains_iff src (codes "#EXT-X-TARGETDURATION"),
        contains_iff src (codes "#EXT-X-MEDIA-SEQUENCE"),
        contains_iff src (codes "#EXTM3U"),
      )
