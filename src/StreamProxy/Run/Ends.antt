-- ===== src/StreamProxy/Run/Ends.antt =====
-- A session that is run comes to its end.
use iptv2hdhr.Base.{
  ℕ, Bool, not, ◌≡◌, ◌≢◌, refl, subst, sym, ap, ◌∙◌, true, false, inl, inr, some, List, [], ◌∷◌,
  arith, Bytes, lookup, leb, ==_iff, Unicode, Bool-cases, Option-cases, Sum-cases,
}
use iptv2hdhr.Guide.Sorting.{Sorter}
use iptv2hdhr.Lineup.{Stream}
use iptv2hdhr.StreamProxy.Handler.{
  Handler, stop, stopped, deregister, fail, start_output, broadcast,
}
use iptv2hdhr.StreamProxy.Handler.Registered.{deregister-kept}
use iptv2hdhr.StreamProxy.Handler.Clients.{IsIn, stop_ends_clients}
use iptv2hdhr.StreamProxy.Pump.{ReadResult, pump, broadcast_some}
use iptv2hdhr.StreamProxy.Upstream.{
  Network, UpstreamRequest, UpstreamResponse, FfmpegRun, is_hls, ffmpeg_args,
}
use iptv2hdhr.StreamProxy.Run.{
  Ran, past_body, returned, reaps, reaped, has_end, failed, streamed, read_with_timeout,
  remux_result, run_remux, respond, run_body, finish, finish_ran, run_session,
}

-- Every stream that the upstream or ffmpeg begins fails or ends some time; and ffmpeg, once its output
-- has ended or it has been killed, closes its stderr and exits.
pub record UpstreamEnds {E : Type 0} (net : Network E) : Type 0 where
  pub responses :
      (req : UpstreamRequest) (resp : UpstreamResponse)
      → net.do_request req ≡ inr resp
      → has_end resp.reads ≡ true
  pub runs : (args : List Bytes) → has_end (net.ffmpeg args).reads ≡ true
  pub reaps : (args : List Bytes) (killed : Bool) → reaps (net.ffmpeg args) killed ≡ true

-- What is left of the session `i` of `h`.
pub record IsEnded (h : Handler) (i : ℕ) (h' : Handler) : Type 0 where
  pub ready : (h'.session i).ready ≡ true
  pub closed : (h'.session i).closed ≡ true
  pub no_timer : (h'.session i).idle_timer ≡ false
  pub no_subs : (h'.session i).subs ≡ []
  pub deregistered : lookup (h.session i).number h'.sessions ≢ some i
  pub clients_told : (k : ℕ) → IsIn k (h.session i).subs → (h'.sub k).closed ≡ true

-- The session is ready, and else as it was, but for its output.
record IsPastStartup (h : Handler) (i : ℕ) (h' : Handler) : Type 0 where
  ready : (h'.session i).ready ≡ true
  same_closed : (h'.session i).closed ≡ (h.session i).closed
  same_subs : (h'.session i).subs ≡ (h.session i).subs
  same_number : (h'.session i).number ≡ (h.session i).number

-- A round of the body that leaves these fields alone.
record Keeps (h : Handler) (i : ℕ) (h' : Handler) : Type 0 where
  ready : (h'.session i).ready ≡ (h.session i).ready
  closed : (h'.session i).closed ≡ (h.session i).closed
  subs : (h'.session i).subs ≡ (h.session i).subs
  number : (h'.session i).number ≡ (h.session i).number

broadcast_some-Keeps : (h : Handler) (i : ℕ) (chunk : Bytes) → Keeps h i (broadcast_some h i chunk)
unfolding broadcast
broadcast_some-Keeps h i [] = record { ready = refl; closed = refl; subs = refl; number = refl }
broadcast_some-Keeps h i (c ∷ chunk) = ground (arith, ==_iff i i)

pump-Keeps : (h : Handler) (i : ℕ) (rs : List ReadResult) → Keeps h i (pump h i rs)
unfolding pump
pump-Keeps h i [] = record { ready = refl; closed = refl; subs = refl; number = refl }
pump-Keeps h i (r ∷ rs) =
    ground (arith, broadcast_some-Keeps h i r.bytes, pump-Keeps (broadcast_some h i r.bytes) i rs)

Past : Handler → ℕ → Ran → Type 0
Past h i r = (h' : Handler) × (r ≡ past_body h') × IsPastStartup h i h'

start_output-IsPastStartup :
    (h : Handler) (i : ℕ) (content_type : Bytes) → IsPastStartup h i (start_output h i content_type)
unfolding start_output
start_output-IsPastStartup h i content_type = ground (arith, ==_iff i i)

fail-IsPastStartup : (h : Handler) (i : ℕ) → IsPastStartup h i (fail h i)
unfolding fail
fail-IsPastStartup h i = ground (arith, ==_iff i i)

IsPastStartup-Keeps :
    (h h' h'' : Handler) (i : ℕ) → IsPastStartup h i h' → Keeps h' i h'' → IsPastStartup h i h''
IsPastStartup-Keeps h h' h'' i p k = record {
  ready = k.ready ∙ p.ready;
  same_closed = k.closed ∙ p.same_closed;
  same_subs = k.subs ∙ p.same_subs;
  same_number = k.number ∙ p.same_number;
}

module _ (h : Handler) (i : ℕ) (fresh : (h.session i).ready ≡ false) where
  failed-Past : Past h i (failed h i)
  unfolding Past
  failed-Past = (fail h i, rw (fresh, failed) refl, fail-IsPastStartup h i)

  streamed-Past :
      (content_type first : Bytes) (reads : List ReadResult)
      → has_end reads ≡ true
      → Past h i (streamed h i content_type first reads)
  unfolding Past
  streamed-Past content_type first reads ends =
      let started = start_output h i content_type in
      let begun = broadcast_some started i first in
      (
        pump begun i reads,
        ground (arith, fresh),
        IsPastStartup-Keeps h begun _ i
            (IsPastStartup-Keeps h started begun i (start_output-IsPastStartup h i content_type)
              (broadcast_some-Keeps started i first))
            (pump-Keeps begun i reads),
      )

  reaped-Past :
      {E : Type 0} (run : FfmpegRun E) (r : Ran)
      → reaps run false ≡ true
      → Past h i r
      → Past h i (reaped run r)
  unfolding Past
  reaped-Past run r all (h', same, past) = (h', rw (same, all) refl, past)

  remux_result-Past :
      {E : Type 0} (run : FfmpegRun E) (first : ReadResult)
      → has_end run.reads ≡ true
      → ((killed : Bool) → reaps run killed ≡ true)
      → Past h i (remux_result h i run first)
  remux_result-Past run first ends all = elim (Bool-cases first.failed) [
    | inl bad ↦ rw (bad, all true) failed-Past
    | inr good ↦
        rw good (reaped-Past run _ (all false) (streamed-Past _ first.bytes run.reads ends))
  ]

  run_remux-Past :
      {E : Type 0} (run : FfmpegRun E)
      → has_end run.reads ≡ true
      → ((killed : Bool) → reaps run killed ≡ true)
      → Past h i (run_remux h i run)
  unfolding run_remux
  run_remux-Past run ends all = elim (Option-cases run.stdout_error) [
    | inr (err, bad) ↦ rw (bad, run_remux) failed-Past
    | inl good ↦ elim (Option-cases run.stderr_error) [
      | inr (err, bad) ↦ rw (good, bad, run_remux) failed-Past
      | inl good2 ↦ elim (Option-cases run.start_error) [
        | inr (err, bad) ↦ rw (good, good2, bad, run_remux) failed-Past
        | inl good3 ↦
            rw (good, good2, good3, run_remux)
              (remux_result-Past run (read_with_timeout run.first_read) ends all)
      ]
    ]
  ]

module _ {E : Type 0} ⦃u : Unicode⦄ (net : Network E) (sorter : Sorter Bytes)
    (ends : UpstreamEnds net) (h : Handler) (i : ℕ) (fresh : (h.session i).ready ≡ false) where
  respond-Past :
      (stream : Stream) (req : UpstreamRequest)
      → Past h i (respond net sorter h i stream (net.do_request req))
  respond-Past stream req = elim (Sum-cases (net.do_request req)) [
    | inl (err, bad) ↦ rw (bad, respond) (failed-Past h i fresh)
    | inr (resp, came) ↦
        rw (came, respond)
          (elim (Bool-cases (leb 400 resp.status)) [
            | inl bad ↦ rw bad (failed-Past h i fresh)
            | inr good ↦ elim (Bool-cases (is_hls net stream.url resp.content_type)) [
              | inl hls ↦
                  rw (good, hls)
                    (run_remux-Past h i fresh _ (ends.runs (ffmpeg_args sorter stream))
                      (ends.reaps (ffmpeg_args sorter stream)))
              | inr direct ↦
                  rw (good, direct)
                    (streamed-Past h i fresh _ [] resp.reads (ends.responses req resp came))
            ]
          ])
  ]

  run_body-Past : (stream : Stream) → Past h i (run_body net sorter h i stream)
  unfolding run_body
  run_body-Past stream = elim (Option-cases (net.request_error stream.url)) [
    | inr (err, bad) ↦ rw (bad, run_body) (failed-Past h i fresh)
    | inl good ↦ rw (good, run_body) (respond-Past stream _)
  ]

stop-kept :
    (h : Handler) (i : ℕ)
    → (h.session i).closed ≡ false
    → ((stop h i).sessions ≡ h.sessions) × ((stop h i).session i ≡ stopped (h.session i))
unfolding stop
stop-kept h i e = ground (arith, ==_iff i i)

-- The session is deregistered, and then stopped.
finish-IsEnded :
    (h h' : Handler) (i : ℕ)
    → (h.session i).closed ≡ false
    → IsPastStartup h i h'
    → ((finish h' i).1 ≡ true) × IsEnded h i (finish h' i).0
unfolding finish
finish-IsEnded h h' i open_still p =
    let d = deregister h' (h'.session i).number i in
    let (same_session, same_sub, gone) = deregister-kept h' (h'.session i).number i in
    let at : d.session i ≡ h'.session i = ap (λ f. f i) same_session in
    let still : (d.session i).closed ≡ false = ap (λ s. s.closed) at ∙ p.same_closed ∙ open_still in
    let (same_sessions, ended) = stop-kept d i still in
    (
      ap not still,
      record {
        ready = ap (λ s. s.ready) (ended ∙ ap stopped at) ∙ p.ready;
        closed = ap (λ s. s.closed) ended;
        no_timer = ap (λ s. s.idle_timer) ended;
        no_subs = ap (λ s. s.subs) ended;
        deregistered = λ e. gone (
            ap (λ n. lookup n d.sessions) p.same_number
            ∙ sym (ap (lookup (h.session i).number) same_sessions)
            ∙ e);
        clients_told = λ k m.
            (stop_ends_clients d i k still
              (subst (IsIn k) (sym (ap (λ s. s.subs) at ∙ p.same_subs)) m)).0;
      },
    )

-- A session is run from a state in which its startup is not over and it has not been stopped. Provided
-- that the streams of the upstream and of ffmpeg all end some time, and that ffmpeg, once its output has
-- ended or it has been killed, closes its stderr and exits: the run returns on every path without
-- closing `ready` twice, after it has cancelled the session's context; then `ready` is closed, the
-- session has ended, it is not registered, and each of its clients has been told.
pub run_session-IsEnded :
    {E : Type 0} ⦃u : Unicode⦄ (net : Network E) (sorter : Sorter Bytes) (h : Handler) (i : ℕ)
    → UpstreamEnds net
    → (h.session i).ready ≡ false
    → (h.session i).closed ≡ false
    → (h' : Handler) × (run_session net sorter h i ≡ returned h' true) × IsEnded h i h'
unfolding run_session Past
run_session-IsEnded net sorter h i ends fresh open_still =
    let (h', same, past) = run_body-Past net sorter ends h i fresh (h.session i).stream in
    let (called, ended) = finish-IsEnded h h' i open_still past in
    ((finish h' i).0, ap (finish_ran i) same ∙ ap (returned (finish h' i).0) called, ended)
