-- ===== src/Guide/Filler/Coverage.antt =====
-- The programmes that `BuildChannelProgrammes` returns cover the guide window.
use iptv2hdhr.Base.{
  ◌+◌, ◌-◌, ◌≤◌, ◌<◌, ◌%◌, ◌≡◌, sym, ap, ◌∙◌, false, not, ◌&&◌, inl, inr, Option, some, List, [],
  ◌∷◌, arith, ltb, lt→ltb, Bytes, Bool-cases, All,
}
use iptv2hdhr.Guide.Sorting.{Sorter}
use iptv2hdhr.Guide.Xmltv.{Programme, TimeFormat, Time, second}
use iptv2hdhr.Guide.Filler.{
  time_of, dedup, dedup_from, starts_before, clip_to_window, fill, gap, build_channel_programmes,
  real_programmes, Schedule, guide_lookback, guide_lookahead,
}
use iptv2hdhr.Guide.Filler.Blocks.{
  IsWhole, Covers, Covers-append, gap-Covers, parse-format_whole, time_of-format,
}
use iptv2hdhr.Guide.Filler.Clip.{HasWholeTimes, IsClipped, clip_all-IsClipped, All-Permᴰ}

module _ (tf : TimeFormat) (ws we : Time) (e : IsWhole tf we)
    (channel_id channel_name : Bytes) where
  clipped_start : {p : Programme} (c : IsClipped tf ws we p) → time_of tf p.start ≡ c.start
  clipped_start c = ap (time_of tf) c.start_text ∙ time_of-format tf c.start c.start_whole

  clipped_stop : {p : Programme} (c : IsClipped tf ws we p) → time_of tf p.stop ≡ c.stop
  clipped_stop c = ap (time_of tf) c.stop_text ∙ time_of-format tf c.stop c.stop_whole

  -- One programme that starts at or behind the cursor, its gap, and what follows.
  fill_step :
      (cursor : Time) (p : Programme) (ps : List Programme)
      → IsWhole tf cursor
      → (c : IsClipped tf ws we p) → cursor ≤ c.start
      → Covers tf c.stop we (fill tf channel_id channel_name we c.stop ps)
      → Covers tf cursor we (fill tf channel_id channel_name we cursor (p ∷ ps))
  unfolding fill
  fill_step cursor p ps w c le rest =
      rw (clipped_start c, clipped_stop c)
        (rw (lt→ltb cursor c.stop (omega (arith, c.positive))) (
          Covers-append tf cursor c.start we (gap tf channel_id channel_name cursor c.start) _
            (gap-Covers tf channel_id channel_name cursor c.start w c.start_whole le)
            (
              ap tf.parse_time c.start_text ∙ parse-format_whole tf c.start c.start_whole,
              ap tf.parse_time c.stop_text
                  ∙ parse-format_whole tf c.stop c.stop_whole
                  ∙ ap some (sym (clipped_stop c)),
              rw (clipped_stop c) c.positive,
              rw (clipped_stop c) rest,
            )))

  reached :
      (cursor : Time) {p : Programme} (c : IsClipped tf ws we p)
      → (not (ltb cursor (time_of tf p.start)) && ltb (time_of tf p.start) cursor) ≡ false
      → cursor ≤ c.start
  reached cursor c keep = ground (arith, clipped_start c)

  fill-dedup_from :
      (cursor : Time) (ps : List Programme)
      → IsWhole tf cursor
      → cursor ≤ we
      → All (IsClipped tf ws we) ps
      → Covers tf cursor we (fill tf channel_id channel_name we cursor (dedup_from tf cursor ps))
  unfolding dedup_from
  fill-dedup_from cursor [] w le h =
      unfold fill in gap-Covers tf channel_id channel_name cursor we w e le
  fill-dedup_from cursor (p ∷ ps) w le h =
      elim (Bool-cases (not (ltb cursor (time_of tf p.start)) && ltb (time_of tf p.start) cursor)) [
        | inl skip ↦ rw skip (fill-dedup_from cursor ps w le h.1)
        | inr keep ↦
            rw (keep, clipped_stop h.0)
              (fill_step cursor p (dedup_from tf h.0.stop ps) w h.0 (reached cursor h.0 keep)
                (fill-dedup_from h.0.stop ps h.0.stop_whole h.0.before_end h.1))
      ]

  fill-dedup :
      (ps : List Programme)
      → IsWhole tf ws
      → ws ≤ we
      → All (IsClipped tf ws we) ps
      → Covers tf ws we (fill tf channel_id channel_name we ws (dedup tf ps))
  unfolding dedup
  fill-dedup [] w le h = unfold fill in gap-Covers tf channel_id channel_name ws we w e le
  fill-dedup (p ∷ ps) w le h = rw (clipped_stop h.0) (
      fill_step ws p (dedup_from tf h.0.stop ps) w h.0 h.0.after_start
        (fill-dedup_from h.0.stop ps h.0.stop_whole h.0.before_end h.1))

-- For a clock on a whole second, and sources whose timestamps carry no fractions, the programmes of
-- a channel run from one hour before now to 24 hours after now, without a gap or an overlap, each of
-- positive length, whatever the sources list and in whatever order.
pub build_channel_programmes-Covers :
    (tf : TimeFormat) (sorter : Sorter Programme) (index : Option Schedule)
    (tvg_id channel_id channel_name : Bytes) (now : Time)
    → guide_lookback ≤ now
    → now + guide_lookahead < tf.last
    → now % second ≡ 0
    → All (HasWholeTimes tf) (real_programmes index tvg_id)
    → Covers tf
        (now - guide_lookback)
        (now + guide_lookahead)
        (build_channel_programmes tf sorter index tvg_id channel_id channel_name now)
unfolding build_channel_programmes clip_to_window
build_channel_programmes-Covers tf sorter index tvg_id channel_id channel_name now ge lt w h =
    fill-dedup tf ws we e channel_id channel_name _ s (omega arith) (
      All-Permᴰ (IsClipped tf ws we) (sorter.permutes starts_before _)
        (clip_all-IsClipped tf ws we s e (omega arith) (real_programmes index tvg_id) h))
  where
    ws : Time
    ws = now - guide_lookback

    we : Time
    we = now + guide_lookahead

    s : IsWhole tf ws
    s = record { whole = omega arith; in_range = omega arith }

    e : IsWhole tf we
    e = record { whole = omega arith; in_range = omega arith }
