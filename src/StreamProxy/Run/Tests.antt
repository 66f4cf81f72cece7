-- ===== src/StreamProxy/Run/Tests.antt =====
-- A session of a direct upstream, and one of a playlist whose ffmpeg says nothing.
use iptv2hdhr.Base.{
  ◌≡◌, refl, inr, true, false, none, some, List, [], ◌∷◌, Bytes, codes, Unicode, arith,
}
use iptv2hdhr.Guide.Sorting.Insertion.{insertion}
use iptv2hdhr.Lineup.{Stream}
use iptv2hdhr.StreamProxy.Session.{new_session}
use iptv2hdhr.StreamProxy.Subscriber.{new_subscriber}
use iptv2hdhr.StreamProxy.Handler.{Handler, register}
use iptv2hdhr.StreamProxy.Pump.{ReadResult}
use iptv2hdhr.StreamProxy.Upstream.{Network, UpstreamResponse, FfmpegRun}
use iptv2hdhr.StreamProxy.Run.{returned, run_session}
use iptv2hdhr.StreamProxy.Run.Ends.{UpstreamEnds, IsEnded, run_session-IsEnded}

instance abbrev plain : Unicode
plain = record { map_to_lower = λ s. s }

abbrev reads : List ReadResult
reads =
    record { bytes = 1 ∷ 2 ∷ []; failed = false } ∷ record { bytes = 3 ∷ []; failed = true } ∷ []

abbrev silent : FfmpegRun Bytes
silent = record {
  stdout_error = none;
  stderr_error = none;
  start_error = none;
  first_read = none;
  reads = reads;
  stderr_ends = λ killed. true;
  exits = λ killed. true;
}

-- A server that sends `reads`.
abbrev response : UpstreamResponse
response = record { status = 200; content_type = codes "video/mp2t"; reads = reads }

abbrev net : Network Bytes
net = record {
  request_error = λ url. none;
  do_request = λ req. inr response;
  parse_path = λ url. some url;
  ffmpeg = λ args. silent;
}

net-ends : UpstreamEnds net
net-ends = record {
  responses = λ req resp e. ground (arith, e);
  runs = λ args. refl;
  reaps = λ args killed. refl;
}

abbrev upstream : Stream
upstream = record { url = codes "http://a/b.ts"; headers = [] }

abbrev empty_handler : Handler
empty_handler = record {
  sessions = [];
  session = λ i. new_session [] upstream 0;
  session_count = 0;
  sub = λ i. new_subscriber;
  sub_count = 0;
  cancelling = [];
}

abbrev started : Handler
started = register empty_handler (codes "1") upstream

started_fresh : ((started.session 0).ready ≡ false) × ((started.session 0).closed ≡ false)
unfolding register
started_fresh = (refl, refl)

run_session-IsEnded_example :
    (h' : Handler) × (run_session net (insertion Bytes) started 0 ≡ returned h' true)
    × IsEnded started 0 h'
run_session-IsEnded_example =
    run_session-IsEnded net (insertion Bytes) started 0 net-ends started_fresh.0 started_fresh.1
