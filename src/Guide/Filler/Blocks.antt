-- ===== src/Guide/Filler/Blocks.antt =====
-- Filler covers its gap exactly, in blocks of at most six hours.
use iptv2hdhr.Base.{
  ℕ, zero, suc, ◌-◌, ◌*◌, ◌%◌, ◌≤◌, ◌<◌, ◌≡◌, sym, ap, ◌∙◌, inl, inr, some, List, [], ◌∷◌, ◌++◌,
  arith, ltb, Bytes, Bool-cases, ltb→lt,
}
use iptv2hdhr.Guide.Xmltv.{Programme, TimeFormat, Time, second}
use iptv2hdhr.Guide.Filler.{
  filler_block, filler_from, filler_blocks, block_end, max_filler_block_duration, time_of, gap,
}

-- The programmes follow one another without gap or overlap from one time to another, each of
-- positive length.
abbrev pub Covers : TimeFormat → Time → Time → List Programme → Type 0
Covers tf from to [] = from ≡ to
Covers tf from to (p ∷ ps) =
    (tf.parse_time p.start ≡ some from)
    × (tf.parse_time p.stop ≡ some (time_of tf p.stop))
    × (from < time_of tf p.stop)
    × Covers tf (time_of tf p.stop) to ps

pub Covers-append :
    (tf : TimeFormat) (from middle to : Time) (ps qs : List Programme)
    → Covers tf from middle ps
    → Covers tf middle to qs
    → Covers tf from to (ps ++ qs)
Covers-append tf from middle to [] qs h k = rw h k
Covers-append tf from middle to (p ∷ ps) qs h k =
    (h.0, h.1, h.2, Covers-append tf (time_of tf p.stop) middle to ps qs h.3 k)

-- A time on a whole second, within the range of the format.
pub record IsWhole (tf : TimeFormat) (t : Time) : Type 0 where
  pub whole : t % second ≡ 0
  pub in_range : t < tf.last

pub parse-format_whole :
    (tf : TimeFormat) (t : Time) → IsWhole tf t → tf.parse_time (tf.format_time t) ≡ some t
parse-format_whole tf t w = tf.parse-format t w.in_range ∙ ap some (omega (arith, w.whole))

pub time_of-format : (tf : TimeFormat) (t : Time) → IsWhole tf t → time_of tf (tf.format_time t) ≡ t
unfolding time_of
time_of-format tf t w = rw (parse-format_whole tf t w, time_of)

module _ (tf : TimeFormat) (channel_id channel_name : Bytes) where
  block_end-IsWhole :
      (cursor end : Time)
      → IsWhole tf cursor
      → IsWhole tf end
      → cursor < end
      → IsWhole tf (block_end cursor end)
  block_end-IsWhole cursor end c e lt = record {
    whole = ground (arith, c.whole, e.whole);
    in_range = ground (arith, e.in_range);
  }

  -- Each block takes at least one of the whole blocks that fit into the gap.
  filler_from-Covers :
      (fuel : ℕ) (cursor end : Time)
      → IsWhole tf cursor
      → IsWhole tf end
      → cursor ≤ end
      → end - cursor ≤ fuel * max_filler_block_duration
      → Covers tf cursor end (filler_from tf channel_id channel_name fuel cursor end)
  unfolding filler_from filler_block
  filler_from-Covers zero cursor end c e le h = omega arith
  filler_from-Covers (suc fuel) cursor end c e le h = elim (Bool-cases (ltb cursor end)) [
    | inl more ↦
        let lt : cursor < end = ltb→lt cursor end more in
        let next = block_end-IsWhole cursor end c e lt in
        rw more (
          parse-format_whole tf cursor c,
          parse-format_whole tf (block_end cursor end) next
              ∙ ap some (sym (time_of-format tf _ next)),
          rw (time_of-format tf (block_end cursor end) next) (ground arith),
          rw (time_of-format tf (block_end cursor end) next) (
              filler_from-Covers fuel (block_end cursor end) end next e (ground arith)
                (ground arith)),
        )
    | inr done ↦ rw done (ground arith)
  ]

  filler_blocks-Covers :
      (start end : Time)
      → IsWhole tf start
      → IsWhole tf end
      → start ≤ end
      → Covers tf start end (filler_blocks tf channel_id channel_name start end)
  unfolding filler_blocks
  filler_blocks-Covers start end s e le = elim (Bool-cases (ltb start end)) [
    | inl more ↦ rw more (filler_from-Covers _ start end s e le (omega arith))
    | inr done ↦ rw done (ground arith)
  ]

  pub gap-Covers :
      (cursor start : Time)
      → IsWhole tf cursor
      → IsWhole tf start
      → cursor ≤ start
      → Covers tf cursor start (gap tf channel_id channel_name cursor start)
  unfolding gap
  gap-Covers cursor start c s le = elim (Bool-cases (ltb cursor start)) [
    | inl more ↦ rw more (filler_blocks-Covers cursor start c s le)
    | inr done ↦ rw done (ground arith)
  ]
