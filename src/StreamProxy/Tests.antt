-- ===== src/StreamProxy/Tests.antt =====
-- The handler, its sessions and their clients on small runs.
use iptv2hdhr.Base.{
  false, ℕ, ◌≡◌, refl, true, none, some, [], ◌∷◌, arith, codes, lookup, insert, equal, ◌⊎◌,
}
use iptv2hdhr.Lineup.{Stream, stream_equal, maps_equal}
use iptv2hdhr.StreamProxy.Subscriber.{new_subscriber}
use iptv2hdhr.StreamProxy.Subscriber.Backlog.{
  pushed, taken, client_start, after_events, InStep, after_events-InStep, client_start-InStep,
}
use iptv2hdhr.StreamProxy.Session.{new_session}
use iptv2hdhr.StreamProxy.Handler.{
  Handler, update, create, register, stop_old, stop, joinable, subscribe, unsubscribe, broadcast,
  fail, deregister, start_output, take,
}
use iptv2hdhr.StreamProxy.Handler.Steps.{
  World, not_made, starting_up, pumping, leaving, taken_out, run_over, Reach, here, next, creates,
  finds, joins, leaves, starts, broadcasts, takes, fails, takes_out, ends, elem, IsStart,
}
use iptv2hdhr.StreamProxy.Handler.Steps.Registry.{one_live_session}
use iptv2hdhr.StreamProxy.Handler.Steps.Sessions.{IsTidy}
use iptv2hdhr.StreamProxy.Handler.Steps.Cancels.{IsCancelling, Reach-IsSettled}
use iptv2hdhr.StreamProxy.Handler.Steps.Places.{IsAt, is_serving}
use iptv2hdhr.StreamProxy.Handler.Steps.Runs.{Reach-AllAt}
use iptv2hdhr.StreamProxy.Handler.Steps.Deliveries.{Delivered}
use iptv2hdhr.StreamProxy.Handler.Steps.Delivery.{session_output, client_got, Reach-Delivered}
use iptv2hdhr.StreamProxy.Client.{ClientReach, selecting}
use iptv2hdhr.StreamProxy.Handler.Steps.Moves.{client_of}
use iptv2hdhr.StreamProxy.Handler.Steps.Views.{Step-ClientReach}
use iptv2hdhr.StreamProxy.Handler.Steps.Over.{IsOver, Reach-IsOver, registered-runs}

after_events-InStep_example :
    InStep (after_events client_start (pushed (1 ∷ 2 ∷ []) ∷ taken ∷ pushed (3 ∷ []) ∷ []))
after_events-InStep_example =
    after_events-InStep client_start (pushed (1 ∷ 2 ∷ []) ∷ taken ∷ pushed (3 ∷ []) ∷ [])
      (omega arith) client_start-InStep

abbrev upstream : Stream
upstream = record { url = codes "http://a/b"; headers = [] }

abbrev empty_handler : Handler
empty_handler = record {
  sessions = [];
  session = λ i. new_session [] upstream 0;
  session_count = 0;
  sub = λ i. new_subscriber;
  sub_count = 0;
  cancelling = [];
}

abbrev start : World
start = record {
  handler = empty_handler;
  joining = none;
  removing = [];
  stopping = [];
  run = λ i. not_made;
  cancelled = λ i. false;
}

start-IsStart : IsStart start
start-IsStart = record {
  no_sessions = refl;
  none_given = refl;
  no_clients = refl;
  none_joining = refl;
  none_cancelled = λ i. refl;
  none_run = λ i. refl;
}

abbrev one_session : Handler
one_session = create empty_handler (codes "5") upstream

not_joinable : joinable empty_handler (codes "5") upstream ≡ none
unfolding joinable lookup
not_joinable = refl

is_joinable : joinable one_session (codes "5") upstream ≡ some 0
unfolding joinable lookup create register stop_old insert stream_equal maps_equal equal
is_joinable = refl

abbrev watched : World
watched = record start {
  handler = one_session;
  run = update start.run 0 starting_up;
  cancelled = update start.cancelled 0 false;
}

abbrev joined : World
joined = record watched { handler = (subscribe one_session 0).0; joining = none }

-- Two requests for one channel: the second joins the session that the first started.
two_clients : Reach start joined
two_clients =
    next
      (next (next here (creates (codes "5") upstream refl not_joinable))
        (finds (codes "5") upstream 0 refl is_joinable))
      (joins 0 refl)

one_live_session_example : ◌≡◌ {A = ℕ} 0 0
unfolding create register stop_old subscribe elem lookup
one_live_session_example =
    one_live_session {w = joined} 0 0 start-IsStart two_clients (omega arith) (omega arith) refl
      refl refl refl refl

Reach-IsSettled_example : IsTidy (joined.handler.session 0) × IsCancelling joined 0
unfolding create register stop_old subscribe lookup
Reach-IsSettled_example = Reach-IsSettled 0 start-IsStart two_clients (omega arith)

Reach-AllAt_example : IsAt (subscribe one_session 0).0 0 starting_up
unfolding create register stop_old subscribe lookup
Reach-AllAt_example = Reach-AllAt start-IsStart two_clients 0 (omega arith)

registered-runs_example : (is_serving starting_up ≡ true) ⊎ (starting_up ≡ leaving)
unfolding create register stop_old subscribe lookup insert equal
registered-runs_example = registered-runs (codes "5") 0 start-IsStart two_clients refl

-- The upstream is pumped, and the first client takes the first chunk.
abbrev streaming : World
streaming = record joined {
  handler = start_output joined.handler 0 (codes "video/mp2t");
  run = update joined.run 0 pumping;
}

abbrev sent : World
sent = record streaming { handler = broadcast streaming.handler 0 (1 ∷ 2 ∷ []) }

delivered_run : Reach start (record sent { handler = take sent.handler 0 })
unfolding create register stop_old subscribe lookup start_output broadcast insert equal
delivered_run =
    next
      (next (next two_clients (starts 0 (codes "video/mp2t") refl))
        (broadcasts 0 (1 ∷ 2 ∷ []) refl (omega arith) (omega arith)))
      (takes 0 (omega arith))

Reach-Delivered_example :
    Delivered (take sent.handler 0) (session_output delivered_run) (client_got delivered_run) 0
unfolding create register stop_old subscribe lookup start_output broadcast take insert equal
Reach-Delivered_example = Reach-Delivered 0 start-IsStart delivered_run (omega arith)

-- To the first client, the chunk is a push and a signal.
Step-ClientReach_example :
    ClientReach
      (client_of streaming.handler 0 0 selecting [])
      (client_of sent.handler 0 0 selecting [])
unfolding create register stop_old subscribe lookup start_output broadcast insert equal
Step-ClientReach_example =
    Step-ClientReach 0 0 selecting [] (broadcasts 0 (1 ∷ 2 ∷ []) refl (omega arith) (omega arith))
      start-IsStart (next two_clients (starts 0 (codes "video/mp2t") refl)) (omega arith)
      (omega arith) refl

-- Its startup fails, and the goroutine of the session runs its deferred function.
abbrev over : World
over = record joined {
  handler = stop (deregister (fail joined.handler 0) (codes "5") 0) 0;
  run = update (update (update joined.run 0 leaving) 0 taken_out) 0 run_over;
}

failed_session : Reach start over
unfolding fail create register stop_old subscribe lookup
failed_session = next (next (next two_clients (fails 0 refl)) (takes_out 0 refl refl)) (ends 0 refl)

-- The second client leaves after the end.
Reach-IsOver_example : IsOver (record over { handler = unsubscribe over.handler 0 1 }) 0
unfolding fail create register stop_old subscribe lookup stop deregister insert equal
Reach-IsOver_example =
    Reach-IsOver 0 start-IsStart failed_session (omega arith) refl (next here (leaves 0 1))
