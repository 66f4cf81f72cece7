-- ===== src/StreamProxy/Handler/Steps/Views.antt =====
-- What the goroutines of the sessions do to a client's queue is what the steps of a client
-- (StreamProxy.Client) allow for.
use iptv2hdhr.Base.{ℕ, ◌<◌, ◌≡◌, ap, ◌∙◌, Bool, false, arith, ◌==◌, Bytes}
use iptv2hdhr.StreamProxy.Client as Clients
use iptv2hdhr.StreamProxy.Client.{Client, Phase, ClientReach, own, signals, pushes, closes}
use iptv2hdhr.StreamProxy.Handler.{create, stop_old, wake, take}
use iptv2hdhr.StreamProxy.Handler.Steps.{
  World, starting_up, Step, creates, finds, joins, wakes, takes, cancels, leaves, expires,
  deregisters, stops, fails, starts, broadcasts, finishes, takes_out, ends, Reach, IsStart,
}
use iptv2hdhr.StreamProxy.Handler.Steps.Places.{is_past_startup, unsubscribe-Respects}
use iptv2hdhr.StreamProxy.Handler.Steps.Runs.{Reach-AllAt}
use iptv2hdhr.StreamProxy.Handler.Steps.Deliveries.{stop_old-Quiet}
use iptv2hdhr.StreamProxy.Handler.Steps.Delivery.{Reach-AllDelivered, Reach-IsMade}
use iptv2hdhr.StreamProxy.Handler.Steps.Registry.{Reach-IsRegistered}
use iptv2hdhr.StreamProxy.Handler.Steps.Queues.{Reach-AllOpen, unsubscribe-sub}
use iptv2hdhr.StreamProxy.Handler.Steps.Moves.{
  client_of, stop-Moves, stop_old-Moves, register-Moves, subscribe-Moves, broadcast-Moves,
  deregister-Moves, fail-Moves, start_output-Moves, other-Moves, same-Moves,
}

-- A receive or a take of the client itself.
abbrev pub is_own_step : {w x : World} → Step w x → ℕ → Bool
is_own_step (wakes n _ _) k = n == k
is_own_step (takes n _) k = n == k
is_own_step _ k = false

ClientReach-trans : {b c d : Client} → ClientReach b c → ClientReach c d → ClientReach b d
ClientReach-trans r Clients.here = r
ClientReach-trans r (Clients.next q st) = Clients.next (ClientReach-trans r q) st

-- A session that starts up is not ready.
unready :
    {v w : World}
    → IsStart v
    → Reach v w
    → (j : ℕ) → w.run j ≡ starting_up
    → (w.handler.session j).ready ≡ false
unready s r j at =
    (Reach-AllAt s r j ((Reach-IsMade s r).running j (λ e. cc))).ready ∙ ap is_past_startup at

module _ (i k : ℕ) (phase : Phase) (written : Bytes) where
  -- Whatever state the goroutines have reached, and whichever takes the next step, other than a receive
  -- or a take of a client's own: what that does to the client's queue, and to `ready` and `err` of a
  -- session, is none, one or several of the steps that StreamProxy.Client allows for.
  pub Step-ClientReach :
      {v w x : World} (st : Step w x)
      → IsStart v
      → Reach v w
      → i < w.handler.session_count
      → k < w.handler.sub_count
      → is_own_step st k ≡ false
      → ClientReach (client_of w.handler i k phase written) (client_of x.handler i k phase written)
  unfolding create wake take
  Step-ClientReach {v} {w} (creates number stream _ _) s r li lk other =
      let a = Reach-AllDelivered s r in
      let q = stop_old-Quiet w.handler number in
      ClientReach-trans
        (stop_old-Moves i k phase written w.handler number
          (λ j e. ((Reach-IsRegistered s r).points number j e).0) a (Reach-AllOpen s r))
        (register-Moves i k phase written (stop_old w.handler number) number stream
          (omega (arith, q.same_count, li)) (omega (arith, q.same_sub_count, lk)))
  Step-ClientReach (finds number stream j _ _) s r li lk other = Clients.here
  Step-ClientReach {v} {w} (joins j _) s r li lk other =
      subscribe-Moves i k phase written w.handler j lk
  Step-ClientReach {v} {w} (wakes n _ _) s r li lk other =
      other-Moves i k phase written w.handler n _ other
  Step-ClientReach {v} {w} (takes n _) s r li lk other =
      other-Moves i k phase written w.handler n _ other
  Step-ClientReach {v} {w} (leaves j sub) s r li lk other =
      same-Moves i k phase written w.handler _ (ap (λ f. f k) (unsubscribe-sub w.handler j sub))
        (unsubscribe-Respects w.handler j i sub)
  Step-ClientReach (cancels j _) s r li lk other = Clients.here
  Step-ClientReach (expires j _) s r li lk other = Clients.here
  Step-ClientReach {v} {w} (deregisters j _ _) s r li lk other =
      deregister-Moves i k phase written w.handler j _
  Step-ClientReach {v} {w} (stops j made _) s r li lk other =
      stop-Moves i k phase written w.handler j made ((Reach-AllDelivered s r).distinct j made)
        (Reach-AllOpen s r)
  Step-ClientReach {v} {w} (fails j at) s r li lk other =
      fail-Moves i k phase written w.handler j (unready s r j at)
  Step-ClientReach {v} {w} (starts j content_type at) s r li lk other =
      start_output-Moves i k phase written w.handler j content_type (unready s r j at)
  Step-ClientReach {v} {w} (broadcasts j chunk at _ _) s r li lk other =
      let made = (Reach-IsMade s r).running j (λ e. cc) in
      broadcast-Moves i k phase written w.handler j chunk made
        ((Reach-AllDelivered s r).distinct j made) (Reach-AllOpen s r)
  Step-ClientReach (finishes j _) s r li lk other = Clients.here
  Step-ClientReach {v} {w} (takes_out j _ _) s r li lk other =
      deregister-Moves i k phase written w.handler j _
  Step-ClientReach {v} {w} (ends j at) s r li lk other =
      let made = (Reach-IsMade s r).running j (λ e. cc) in
      stop-Moves i k phase written w.handler j made ((Reach-AllDelivered s r).distinct j made)
        (Reach-AllOpen s r)
