-- ===== src/StreamProxy/Upstream/Tests.antt =====
-- The arguments for two headers.
use iptv2hdhr.Base.{◌≡◌, refl, true, false, [], ◌∷◌, arith, Bytes, codes, Dict, equal}
use mathlib.Core.List.{Permᴰ}
use iptv2hdhr.Guide.Sorting.Insertion.{insertion}
use iptv2hdhr.StreamProxy.Upstream.{
  fold_key, ffmpeg_args, ffmpeg_header_args, agent_of, extra_lines, is_user_agent,
}
use iptv2hdhr.StreamProxy.Upstream.Arguments.{ffmpeg_args-same}

abbrev headers : Dict Bytes
headers = (codes "Referer", codes "r") ∷ (codes "User-Agent", codes "u") ∷ []

abbrev others : Dict Bytes
others = (codes "User-Agent", codes "u") ∷ (codes "Referer", codes "r") ∷ []

-- The long s reads as an s.
is_user_agent_lem :
    (is_user_agent (codes "USER-agent") ≡ true)
    × (is_user_agent (b'u' ∷ 0xc5 ∷ 0xbf ∷ codes "er-agent") ≡ true)
    × (is_user_agent (codes "Referer") ≡ false)
unfolding fold_key equal
is_user_agent_lem = (refl, refl, refl)

ffmpeg_header_args_lem :
    ffmpeg_header_args (insertion Bytes) headers
    ≡ codes "-user_agent" ∷ codes "u" ∷ codes "-headers" ∷ codes "Referer: r\r\n" ∷ []
unfolding ffmpeg_header_args agent_of extra_lines fold_key equal insertion
ffmpeg_header_args_lem = refl

ffmpeg_args-same_example :
    ffmpeg_args (insertion Bytes) (record { url = codes "u"; headers = headers })
    ≡ ffmpeg_args (insertion Bytes) (record { url = codes "u"; headers = others })
unfolding fold_key equal
ffmpeg_args-same_example =
    ffmpeg_args-same (insertion Bytes) (insertion Bytes) (codes "u") (Permᴰ.swap refl refl)
      (omega arith)
