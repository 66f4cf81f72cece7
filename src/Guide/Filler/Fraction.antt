-- ===== src/Guide/Filler/Fraction.antt =====
-- A clock with a fraction of a second: the guide ends with a filler block of no length.
use iptv2hdhr.Base.{
  ℕ, ◌+◌, ◌*◌, ◌/◌, ◌%◌, ◌≤◌, ◌<◌, ◌≡◌, ◌≢◌, refl, ap, ◌∙◌, false, [], ◌∷◌, ◌++◌, arith, ltb,
  lt→ltb, if◌then◌else◌, Bytes, text_lt, suc, zero,
}
use iptv2hdhr.Guide.Xmltv.{TimeFormat, Time, second, Programme}
use iptv2hdhr.Guide.Filler.{
  filler_block, filler_blocks, filler_from, max_filler_block_duration, fill, gap, time_of,
}

-- Texts that neither stands before the other are equal.
text_lt_antisym : (s t : Bytes) → text_lt s t ≡ false → text_lt t s ≡ false → s ≡ t
unfolding text_lt
text_lt_antisym [] [] h k = refl
text_lt_antisym [] (d ∷ t) h k = cc
text_lt_antisym (c ∷ s) [] h k = cc
text_lt_antisym (c ∷ s) (d ∷ t) h k = ground (arith, text_lt_antisym s t)

-- A time and its whole second have one text.
format-whole_second :
    (tf : TimeFormat) (t : Time)
    → t < tf.last
    → tf.format_time (t / second * second) ≡ tf.format_time t
format-whole_second tf t lt =
    text_lt_antisym _ _ (tf.text_lt-format (t / second * second) t (omega arith) lt ∙ ground arith)
      (tf.text_lt-format t (t / second * second) lt (omega arith) ∙ ground arith)

time_of-format_floor :
    (tf : TimeFormat) (t : Time) → t < tf.last → time_of tf (tf.format_time t) ≡ t / second * second
unfolding time_of
time_of-format_floor tf t lt = rw (tf.parse-format t lt, time_of)

module _ (tf : TimeFormat) (channel_id channel_name : Bytes) where
  filler_from_done :
      (fuel : ℕ) (end : Time) → filler_from tf channel_id channel_name fuel end end ≡ []
  unfolding filler_from
  filler_from_done zero end = refl
  filler_from_done (suc fuel) end = ground arith

  -- A gap of at most one block.
  gap_short :
      (cursor end : Time)
      → cursor < end
      → end < cursor + max_filler_block_duration
      → gap tf channel_id channel_name cursor end
        ≡ filler_block tf channel_id channel_name cursor end ∷ []
  unfolding gap filler_blocks filler_from
  gap_short cursor end lt near =
      rw (lt→ltb cursor end lt)
        (rw (lt→ltb end (cursor + max_filler_block_duration) near) (rw (filler_from_done _ end)))

  -- When the end of the window has a fraction of a second (it has that of `now`) and the last
  -- programme is clipped to it, the programme's timestamp loses the fraction, the cursor stays behind
  -- the end, and one more filler programme is emitted that starts and stops at the same timestamp.
  pub fill_zero_length :
      (window_end cursor : Time) (p : Programme)
      → window_end < tf.last
      → window_end % second ≢ 0
      → p.stop ≡ tf.format_time window_end
      → cursor ≤ window_end / second * second
      → (q : Programme) × (fill tf channel_id channel_name window_end cursor (p ∷ [])
          ≡ gap tf channel_id channel_name cursor (time_of tf p.start)
            ++ (record p { channel = channel_id } ∷ q ∷ []))
        × (q.start ≡ q.stop)
  unfolding fill
  fill_zero_length window_end cursor p lt odd clipped le = (
    filler_block tf channel_id channel_name whole window_end,
    ap
          (λ t.
            gap tf channel_id channel_name cursor (time_of tf p.start)
            ++ (record p { channel = channel_id }
                ∷ gap tf channel_id channel_name (if ltb cursor t then t else cursor) window_end))
          stop
        ∙ rw (later cursor whole le) (rw (gap_short whole window_end (grind arith) (omega arith))),
    unfold filler_block in format-whole_second tf window_end lt,
  )
    where
      whole : Time
      whole = window_end / second * second

      stop : time_of tf p.stop ≡ whole
      stop = ap (time_of tf) clipped ∙ time_of-format_floor tf window_end lt

      later : (a b : Time) → a ≤ b → (if ltb a b then b else a) ≡ b
      later a b h = ground arith
