-- ===== src/StreamProxy/Run.antt =====
-- internal/streamproxy/session.go: `runSession` and `runRemux`, where nothing else touches the session
-- in between.
pub mod Ends
mod Tests
use iptv2hdhr.Base.{
  ℕ, Bool, true, false, not, ◌&&◌, ◌||◌, ◌⊎◌, inl, inr, Option, none, some, List, [], ◌∷◌, Bytes,
  codes, is_empty, leb, if◌then◌else◌, Unicode,
}
use iptv2hdhr.Guide.Sorting.{Sorter}
use iptv2hdhr.Lineup.{Stream}
use iptv2hdhr.StreamProxy.Handler.{Handler, stop, deregister, fail, start_output}
use iptv2hdhr.StreamProxy.Pump.{ReadResult, pump, broadcast_some}
use iptv2hdhr.StreamProxy.Upstream.{
  Network, UpstreamRequest, UpstreamResponse, FfmpegRun, request_headers, is_hls, ffmpeg_args,
}

-- Where the goroutine stands: it has closed `s.ready` twice, it waits for a read, or for the end of
-- ffmpeg's stderr or its exit, or it is past the body; at last it has returned, and the flag says
-- whether it has called `s.cancel()`.
pub data Ran : Type 0 where
  panicked : Ran
  reading : Handler → Ran
  awaiting_ffmpeg : Handler → Ran
  past_body : Handler → Ran
  returned : Handler → Bool → Ran

-- `close(s.ready)`, which panics if it is closed.
abbrev pub close_ready : Handler → ℕ → Ran → Ran
close_ready h i next = if (h.session i).ready then panicked else next

abbrev pub failed : Handler → ℕ → Ran
failed h i = close_ready h i (past_body (fail h i))

-- Some read fails.
abbrev pub has_end : List ReadResult → Bool
has_end [] = false
has_end (r ∷ rs) = r.failed || has_end rs

-- Startup is over: `s.contentType` is set, `s.ready` closed, and the output is pumped.
abbrev pub streamed : Handler → ℕ → Bytes → Bytes → List ReadResult → Ran
streamed h i content_type first reads =
    let h' = pump (broadcast_some (start_output h i content_type) i first) i reads in
    close_ready h i (if has_end reads then past_body h' else reading h')

-- `readWithTimeout`; none is a read that has not returned in time.
abbrev pub read_with_timeout : Option ReadResult → ReadResult
read_with_timeout none = record { bytes = []; failed = true }
read_with_timeout (some first) = first

-- `<-stderrDone`, and then `cmd.Wait()`; its error is only logged.
abbrev pub reaps : {E : Type 0} → FfmpegRun E → Bool → Bool
reaps run killed = run.stderr_ends killed && run.exits killed

abbrev pub reaped : {E : Type 0} → FfmpegRun E → Ran → Ran
reaped run (past_body h) = if reaps run false then past_body h else awaiting_ffmpeg h
reaped run panicked = panicked
reaped run (reading h) = reading h
reaped run (awaiting_ffmpeg h) = awaiting_ffmpeg h
reaped run (returned h c) = returned h c

-- `runRemux` behind the first read. If that fails, ffmpeg is killed and waited for before startup is
-- marked as failed; else it is waited for when the output has ended.
abbrev pub remux_result : {E : Type 0} → Handler → ℕ → FfmpegRun E → ReadResult → Ran
remux_result h i run first =
    if first.failed
    then (if reaps run true then failed h i else awaiting_ffmpeg h)
    else reaped run (streamed h i (codes "video/mp2t") first.bytes run.reads)

-- `runRemux`
unfoldable pub run_remux : {E : Type 0} → Handler → ℕ → FfmpegRun E → Ran
run_remux h i run = elim run.stdout_error [
  | some err ↦ failed h i
  | none ↦ elim run.stderr_error [
    | some err ↦ failed h i
    | none ↦ elim run.start_error [
      | some err ↦ failed h i
      | none ↦ remux_result h i run (read_with_timeout run.first_read)
    ]
  ]
]

abbrev pub content_type_or_default : Bytes → Bytes
content_type_or_default content_type =
    if is_empty content_type then codes "video/mp2t" else content_type

-- The deferred function; the call of `s.cancel()` that ends its `stop` follows at once, unless the
-- session had ended before.
unfoldable pub finish : Handler → ℕ → Handler × Bool
finish h i =
    let d = deregister h (h.session i).number i in
    (record (stop d i) { cancelling = d.cancelling }, not (d.session i).closed)

abbrev pub finish_ran : ℕ → Ran → Ran
finish_ran i panicked = panicked
finish_ran i (reading h) = reading h
finish_ran i (awaiting_ffmpeg h) = awaiting_ffmpeg h
finish_ran i (past_body h) = returned (finish h i).0 (finish h i).1
finish_ran i (returned h c) = returned h c

module _ {E : Type 0} ⦃u : Unicode⦄ (net : Network E) (sorter : Sorter Bytes) where
  abbrev pub respond : Handler → ℕ → Stream → E ⊎ UpstreamResponse → Ran
  respond h i stream (inl err) = failed h i
  respond h i stream (inr resp) =
      if leb 400 resp.status
      then failed h i
      else if is_hls net stream.url resp.content_type
      then run_remux h i (net.ffmpeg (ffmpeg_args sorter stream))
      else streamed h i (content_type_or_default resp.content_type) [] resp.reads

  -- `runSession` up to its deferred function.
  unfoldable pub run_body : Handler → ℕ → Stream → Ran
  run_body h i stream = elim (net.request_error stream.url) [
    | some err ↦ failed h i
    | none ↦
        respond h i stream
          (net.do_request (record { url = stream.url; headers = request_headers stream.headers }))
  ]

  -- `runSession`
  unfoldable pub run_session : Handler → ℕ → Ran
  unfolding finish run_body
  run_session h i = finish_ran i (run_body h i (h.session i).stream)
