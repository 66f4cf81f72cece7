-- ===== src/StreamProxy/Session/Recent.antt =====
-- The prebuffer holds the end of the session's output, from a packet boundary on, within its bound.
use iptv2hdhr.Base.{
  ℕ, ◌+◌, ◌-◌, ◌%◌, ◌≤◌, ◌<◌, ◌≡◌, sym, ap, ◌∙◌, true, false, inl, inr, ◌++◌, arith, ltb, length,
  length-append, length-drop, drop, drop-append_short, drop-drop, Bytes, Bool-cases,
}
use iptv2hdhr.StreamProxy.Subscriber.{ts_packet_size}
use iptv2hdhr.StreamProxy.Session.{Prebuffer, join_prebuffer_size, trim_end, keep_recent}

-- What the prebuffer `p` is of the output so far.
pub record KeepsEnd (p : Prebuffer) (output : Bytes) : Type 0 where
  pub aligned : p.recent_start % ts_packet_size ≡ 0
  pub position : p.recent_start + length p.recent ≡ length output
  pub end_of_output : p.recent ≡ drop p.recent_start output
  pub bounded : length p.recent ≤ join_prebuffer_size

trim_end-bounds :
    (p : Prebuffer) (excess : ℕ)
    → (trim_end p excess % ts_packet_size ≡ 0)
      × (p.recent_start + excess ≤ trim_end p excess)
      × (trim_end p excess < p.recent_start + excess + ts_packet_size)
unfolding trim_end
trim_end-bounds p excess = ground arith

-- The slice that trims the prebuffer never reaches past its end.
pub trim-le-length :
    (p : Prebuffer) (recent : Bytes)
    → 0 < length recent - join_prebuffer_size
    → trim_end p (length recent - join_prebuffer_size) - p.recent_start ≤ length recent
trim-le-length p recent h = omega (arith, trim_end-bounds p (length recent - join_prebuffer_size))

-- A broadcast keeps this up for the output with the new chunk: the trimmed prebuffer still starts on
-- a packet boundary of the output, ends with the output, and is no longer than its limit.
pub keep_recent-KeepsEnd :
    (p : Prebuffer) (output chunk : Bytes)
    → KeepsEnd p output
    → KeepsEnd (keep_recent p chunk) (output ++ chunk)
unfolding keep_recent
keep_recent-KeepsEnd p output chunk w = elim (Bool-cases (ltb 0 excess)) [
  | inl long ↦ rw long (record {
    aligned = bounds.0;
    position =
        omega (arith, all_position, over long, bounds, length-drop (end - p.recent_start) recent);
    end_of_output =
        ap (drop (end - p.recent_start)) all_end
        ∙ drop-drop (end - p.recent_start) p.recent_start (output ++ chunk)
        ∙ ap (λ n. drop n (output ++ chunk)) (omega (arith, bounds));
    bounded = omega (arith, over long, bounds, length-drop (end - p.recent_start) recent);
  })
  | inr short ↦ rw short (record {
    aligned = w.aligned;
    position = all_position;
    end_of_output = all_end;
    bounded = under short;
  })
]
  where
    recent : Bytes
    recent = p.recent ++ chunk

    excess : ℕ
    excess = length recent - join_prebuffer_size

    end : ℕ
    end = trim_end p excess

    bounds :
        (end % ts_packet_size ≡ 0)
        × (p.recent_start + excess ≤ end)
        × (end < p.recent_start + excess + ts_packet_size)
    bounds = trim_end-bounds p excess

    over : ltb 0 excess ≡ true → 0 < excess
    over h = ground arith

    under : ltb 0 excess ≡ false → length recent ≤ join_prebuffer_size
    under h = ground arith

    all_position : p.recent_start + length recent ≡ length (output ++ chunk)
    all_position =
        omega (arith, w.position, length-append p.recent chunk, length-append output chunk)

    all_end : recent ≡ drop p.recent_start (output ++ chunk)
    all_end =
        ap (λ q. q ++ chunk) w.end_of_output
        ∙ sym (drop-append_short p.recent_start output chunk (omega (arith, w.position)))
