-- ===== src/StreamProxy/Upstream/Arguments.antt =====
-- The arguments of ffmpeg, and the order in which Go reads the map of headers.
use iptv2hdhr.Base.{
  ℕ, suc, ◌≤◌, ◌≡◌, refl, ◌∙◌, subst, inl, inr, [], ◌∷◌, arith, Bytes, Dict, Bool-cases,
  if◌then◌else◌,
}
use mathlib.Core.List.{Permᴰ}
use iptv2hdhr.Guide.Sorting.{Sorter}
use iptv2hdhr.Guide.Sorting.Texts.{count, sort_slice-same}
use iptv2hdhr.StreamProxy.Upstream.{
  upstream_user_agent, is_user_agent, agent_of, extra_lines, ffmpeg_header_args, ffmpeg_args,
}

-- How many of the headers are taken for the User-Agent.
abbrev pub agent_count : Dict Bytes → ℕ
agent_count [] = 0
agent_count ((k, v) ∷ headers) =
    let rest = agent_count headers in if is_user_agent k then suc rest else rest

agent_count-Permᴰ : {hs gs : Dict Bytes} → Permᴰ hs gs → agent_count hs ≡ agent_count gs
agent_count-Permᴰ Permᴰ.nil = refl
agent_count-Permᴰ (Permᴰ.cons e p) = rw (e, agent_count-Permᴰ p) refl
agent_count-Permᴰ (Permᴰ.swap {a' = c} {b' = d} {l = l} e f) = rw (e, f) (ground arith)
agent_count-Permᴰ (Permᴰ.trans p q) = agent_count-Permᴰ p ∙ agent_count-Permᴰ q

extra_lines-Permᴰ :
    (s : Bytes) {hs gs : Dict Bytes}
    → Permᴰ hs gs
    → count s (extra_lines hs) ≡ count s (extra_lines gs)
unfolding extra_lines
extra_lines-Permᴰ s Permᴰ.nil = refl
extra_lines-Permᴰ s (Permᴰ.cons {b = h} e p) = rw e (ground (arith, extra_lines-Permᴰ s p))
extra_lines-Permᴰ s (Permᴰ.swap {a' = c} {b' = d} {l = l} e f) = rw (e, f) (ground arith)
extra_lines-Permᴰ s (Permᴰ.trans p q) = extra_lines-Permᴰ s p ∙ extra_lines-Permᴰ s q

swapped_agents :
    (g h : Bytes × Bytes) (headers : Dict Bytes) (agent : Bytes)
    → agent_count (h ∷ g ∷ headers) ≤ 1
    → agent_of (h ∷ g ∷ headers) agent ≡ agent_of (g ∷ h ∷ headers) agent
unfolding agent_of
swapped_agents g h headers agent le = elim (Bool-cases (is_user_agent g.0)) [
  | inr other ↦ rw other refl
  | inl first ↦ elim (Bool-cases (is_user_agent h.0)) [
    | inr other ↦ rw other refl
    | inl second ↦ absurd (ground (arith, le, first, second))
  ]
]

agent_of-Permᴰ :
    {hs gs : Dict Bytes} (agent : Bytes)
    → Permᴰ hs gs
    → agent_count hs ≤ 1
    → agent_of hs agent ≡ agent_of gs agent
unfolding agent_of
agent_of-Permᴰ agent Permᴰ.nil le = refl
agent_of-Permᴰ agent (Permᴰ.cons {b = h} e p) le = rw e (agent_of-Permᴰ _ p (ground (arith, le)))
agent_of-Permᴰ agent (Permᴰ.swap {a = a} {a' = c} {b' = d} {l = l} e f) le =
    rw (e, f)
      (swapped_agents c d l agent (
        subst (λ x. agent_count (x ∷ c ∷ l) ≤ 1) e (subst (λ x. agent_count (a ∷ x ∷ l) ≤ 1) f le)))
agent_of-Permᴰ agent (Permᴰ.trans p q) le =
    agent_of-Permᴰ agent p le ∙ agent_of-Permᴰ agent q (omega (arith, agent_count-Permᴰ p, le))

-- Go reads the headers in any order, and sorts their lines with a sort that is not stable: if at most
-- one of the names reads as User-Agent, ffmpeg gets the same arguments every time.
pub ffmpeg_args-same :
    (sorter other : Sorter Bytes) (url : Bytes) {hs gs : Dict Bytes}
    → Permᴰ hs gs
    → agent_count hs ≤ 1
    → ffmpeg_args sorter (record { url = url; headers = hs })
      ≡ ffmpeg_args other (record { url = url; headers = gs })
unfolding ffmpeg_args ffmpeg_header_args
ffmpeg_args-same sorter other url {hs} {gs} p le =
    rw
      (
        agent_of-Permᴰ upstream_user_agent p le,
        sort_slice-same sorter other (extra_lines hs) (extra_lines gs) (λ s. extra_lines-Permᴰ s p),
      )
      refl
