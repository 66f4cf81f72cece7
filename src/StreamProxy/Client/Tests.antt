-- ===== src/StreamProxy/Client/Tests.antt =====
-- A client that gets a chunk, and then the end of the session.
use iptv2hdhr.Base.{◌≡◌, ◌+◌, ◌⊎◌, refl, true, false, [], ◌∷◌}
use iptv2hdhr.StreamProxy.Subscriber.{new_subscriber, enqueue, mark_closed, skipped_by}
use iptv2hdhr.StreamProxy.Client.{
  Client, awaiting, selecting, OwnStep, begins, own, starts, pushes, closes, ClientReach, here,
  next, IsJoined,
}
use iptv2hdhr.StreamProxy.Client.Progress.{
  is_done, EndsWithin, waiting_client-wakes, closed_client-ends,
}

abbrev joined : Client
joined = record {
  sub = new_subscriber;
  signalling = 0;
  ready = false;
  err = false;
  phase = awaiting;
  written = [];
}

joined-IsJoined : IsJoined joined
joined-IsJoined = record {
  waits = refl;
  signalled = λ ne. absurd (ne refl);
  open_queue = refl;
  none_signalling = refl;
}

-- The chunk is queued, and its signal is due.
abbrev waiting : Client
waiting = record joined {
  sub = enqueue new_subscriber (7 ∷ []);
  signalling = 1;
  ready = true;
  phase = selecting;
}

waiting-reach : ClientReach joined waiting
waiting-reach =
    next (next (next here (starts false refl)) (own (begins refl refl)))
      (pushes (7 ∷ []) (λ e. cc) refl)

-- The session ends before the client has woken up.
abbrev closing : Client
closing = record waiting { sub = mark_closed waiting.sub; signalling = 2 }

closing-reach : ClientReach joined closing
closing-reach = next waiting-reach (closes refl)

waiting_client-wakes_example : (is_done waiting.phase ≡ true) ⊎ ((d : Client) × OwnStep waiting d)
unfolding skipped_by
waiting_client-wakes_example = waiting_client-wakes joined-IsJoined waiting-reach refl refl

closed_client-ends_example : EndsWithin (5 + closing.signalling) closing
closed_client-ends_example = closed_client-ends joined-IsJoined closing-reach refl refl
