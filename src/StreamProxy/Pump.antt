-- ===== src/StreamProxy/Pump.antt =====
-- internal/streamproxy/session.go: `pump`, between whose broadcasts nothing else is modelled. The
-- reader's answers are a list; the list's end is a read that has not returned yet.
use iptv2hdhr.Base.{
  ℕ, refl, Bool, inl, inr, List, [], ◌∷◌, ◌++◌, append_assoc, append-nil, Bytes, Bool-cases, ==_iff,
  if◌then◌else◌,
}
use iptv2hdhr.StreamProxy.Session.Recent.{KeepsEnd, keep_recent-KeepsEnd}
use iptv2hdhr.StreamProxy.Handler.{Handler, broadcast}

-- What a call of `r.Read` gives: the bytes read, and whether there was an error, which may be io.EOF.
pub record ReadResult : Type 0 where
  pub bytes : Bytes
  pub failed : Bool

abbrev pub broadcast_some : Handler → ℕ → Bytes → Handler
broadcast_some h i [] = h
broadcast_some h i (c ∷ chunk) = broadcast h i (c ∷ chunk)

unfoldable pub pump : Handler → ℕ → List ReadResult → Handler
pump h i [] = h
pump h i (r ∷ rs) =
    let rest = pump (broadcast_some h i r.bytes) i rs in
    if r.failed then broadcast_some h i r.bytes else rest

-- What the reader gives up to its first error, with the bytes that come along with it.
abbrev pub output_of : List ReadResult → Bytes
output_of [] = []
output_of (r ∷ rs) = let rest = output_of rs in if r.failed then r.bytes else r.bytes ++ rest

broadcast_some-KeepsEnd :
    (h : Handler) (i : ℕ) (output chunk : Bytes)
    → KeepsEnd (h.session i).prebuffer output
    → KeepsEnd ((broadcast_some h i chunk).session i).prebuffer (output ++ chunk)
unfolding broadcast
broadcast_some-KeepsEnd h i output [] w = rw (append-nil output) w
broadcast_some-KeepsEnd h i output (c ∷ chunk) w =
    rw ((==_iff i i).1 refl) (keep_recent-KeepsEnd (h.session i).prebuffer output (c ∷ chunk) w)

-- However the upstream cuts its output into reads, the prebuffer of a session that pumps it holds the
-- end of the whole output, from a packet boundary on and within its limit, and `pump` stops with the
-- first error, whose bytes still count.
pump-KeepsEnd :
    (h : Handler) (i : ℕ) (output : Bytes) (rs : List ReadResult)
    → KeepsEnd (h.session i).prebuffer output
    → KeepsEnd ((pump h i rs).session i).prebuffer (output ++ output_of rs)
unfolding pump
pump-KeepsEnd h i output [] w = rw (append-nil output) w
pump-KeepsEnd h i output (r ∷ rs) w =
    let first = broadcast_some-KeepsEnd h i output r.bytes w in
    elim (Bool-cases r.failed) [
      | inl last ↦ rw last first
      | inr more ↦
          rw (more, ← append_assoc output r.bytes (output_of rs))
            (pump-KeepsEnd (broadcast_some h i r.bytes) i (output ++ r.bytes) rs first)
    ]
