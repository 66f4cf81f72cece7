-- ===== src/Main/Tuned.antt =====
-- What a running program does for a client that tunes a channel.
use iptv2hdhr.Base.{
  ℕ, ◌≡◌, refl, sym, ap, ◌∙◌, subst, true, false, ◌⊎◌, inl, inr, some, List, [], ◌∷◌, map, arith,
  Bytes, lookup, lookup-insert, equal_refl, Unicode, Option-cases, ==_iff,
}
use iptv2hdhr.Config.Schema.{Config}
use iptv2hdhr.Playlist.Entry.{Entry}
use iptv2hdhr.Playlist.Fetcher.Merged.{Action}
use iptv2hdhr.Lineup.{
  Lineup, Stream, stream_equal, StreamResult, not_configured, unmatched, matched, built, new,
  channel_of,
}
use iptv2hdhr.Lineup.Lookup.{first_numbered}
use iptv2hdhr.Lineup.Rebuild.Published.{expected_stream}
use iptv2hdhr.Guide.Fetcher.Published.{GuideAction}
use iptv2hdhr.Hdhr.{stream_path}
use iptv2hdhr.Hdhr.Tunable.{admit-stream_path}
use iptv2hdhr.StreamProxy.Handler.{
  Handler, joinable, subscribe, create, register, stop, stop_old, get_or_create_session,
}
use iptv2hdhr.StreamProxy.Handler.Clients.{IsIn}
use iptv2hdhr.StreamProxy.Session.{new_session}
use iptv2hdhr.StreamProxy.Serve.{
  Admission, channel_not_found, temporarily_unavailable, joined, admit, admit_result, joined_result,
}
use iptv2hdhr.Main.{Program, World, Running}
use iptv2hdhr.Main.Published.{IsPublished}
use iptv2hdhr.Main.Served.{Running-IsServed}

-- The client has joined a live session of the upstream `wanted`, which is the registered one.
pub record IsJoinedTo (number : Bytes) (wanted : Stream) (r : Handler × Admission) : Type 0 where
  pub session : ℕ
  pub sub : ℕ
  pub admitted : r.1 ≡ joined session sub
  pub registered : lookup number r.0.sessions ≡ some session
  pub same_upstream :
      ((r.0.session session).stream ≡ wanted)
      ⊎ (stream_equal (r.0.session session).stream wanted ≡ true)
  pub live : (r.0.session session).closed ≡ false
  pub subscribed : IsIn sub (r.0.session session).subs

-- The answer to a client, by what `Lineup.Stream` tells of its number.
abbrev pub IsTuned : Handler → Bytes → StreamResult → Handler × Admission → Type 0
IsTuned h number not_configured r = r ≡ (h, channel_not_found)
IsTuned h number unmatched r = r ≡ (h, temporarily_unavailable)
IsTuned h number (matched wanted) r = IsJoinedTo number wanted r

joinable_lem :
    (h : Handler) (number : Bytes) (wanted : Stream) (i : ℕ)
    → joinable h number wanted ≡ some i
    → (lookup number h.sessions ≡ some i)
      × (stream_equal (h.session i).stream wanted ≡ true)
      × ((h.session i).closed ≡ false)
unfolding joinable
joinable_lem h number wanted i e = elim (Option-cases (lookup number h.sessions)) [
  | inl absent ↦ ground (arith, e, absent)
  | inr (j, there) ↦ ground (arith, e, there)
]

subscribe_lem :
    (h : Handler) (i : ℕ)
    → (h.session i).closed ≡ false
    → ((subscribe h i).1 ≡ some h.sub_count)
      × ((subscribe h i).0.sessions ≡ h.sessions)
      × (((subscribe h i).0.session i).stream ≡ (h.session i).stream)
      × (((subscribe h i).0.session i).closed ≡ false)
      × (((subscribe h i).0.session i).subs ≡ h.sub_count ∷ (h.session i).subs)
unfolding subscribe
subscribe_lem h i live = ground (arith, ==_iff i i)

subscribed-IsJoinedTo :
    (h : Handler) (number : Bytes) (wanted : Stream) (i : ℕ)
    → joinable h number wanted ≡ some i
    → IsJoinedTo number wanted (joined_result ((subscribe h i).0, i, (subscribe h i).1))
subscribed-IsJoinedTo h number wanted i e =
    let (there, same, live) = joinable_lem h number wanted i e in
    let (given, sessions, same_stream, still, subs) = subscribe_lem h i live in
    subst (λ o. IsJoinedTo number wanted (joined_result ((subscribe h i).0, i, o))) (sym given)
      (record {
        session = i;
        sub = h.sub_count;
        admitted = refl;
        registered = ap (lookup number) sessions ∙ there;
        same_upstream = inr (ap (λ s. stream_equal s wanted) same_stream ∙ same);
        live = still;
        subscribed = subst (IsIn h.sub_count) (sym subs) (inl refl);
      })

register_lem :
    (h : Handler) (number : Bytes) (wanted : Stream)
    → (lookup number (register h number wanted).sessions ≡ some h.session_count)
      × (((register h number wanted).session h.session_count).stream ≡ wanted)
      × (((register h number wanted).session h.session_count).closed ≡ false)
      × (((register h number wanted).session h.session_count).subs ≡ h.sub_count ∷ [])
unfolding register new_session
register_lem h number wanted = ground (
  arith,
  ==_iff h.session_count h.session_count,
  lookup-insert number number h.session_count h.sessions,
  equal_refl number,
)

stop_old_counts :
    (h : Handler) (number : Bytes)
    → ((stop_old h number).session_count ≡ h.session_count)
      × ((stop_old h number).sub_count ≡ h.sub_count)
unfolding stop_old stop
stop_old_counts h number = ground arith

registered-IsJoinedTo :
    (h : Handler) (number : Bytes) (wanted : Stream)
    → IsJoinedTo number wanted
        (joined_result (register h number wanted, h.session_count, some h.sub_count))
registered-IsJoinedTo h number wanted =
    let (there, same_stream, live, subs) = register_lem h number wanted in
    record {
      session = h.session_count;
      sub = h.sub_count;
      admitted = refl;
      registered = there;
      same_upstream = inl same_stream;
      live = live;
      subscribed = subst (IsIn h.sub_count) (sym subs) (inl refl);
    }

created-IsJoinedTo :
    (h : Handler) (number : Bytes) (wanted : Stream)
    → IsJoinedTo number wanted
        (joined_result (create h number wanted, h.session_count, some h.sub_count))
unfolding create
created-IsJoinedTo h number wanted =
    let (sessions, subs) = stop_old_counts h number in
    subst
      (λ i.
        IsJoinedTo number wanted
          (joined_result (register (stop_old h number) number wanted, i, some h.sub_count)))
      sessions
      (subst
        (λ k. IsJoinedTo number wanted (
          joined_result (
            register (stop_old h number) number wanted,
            (stop_old h number).session_count,
            some k,
          )))
        subs (registered-IsJoinedTo (stop_old h number) number wanted))

admit_result-IsTuned :
    (h : Handler) (number : Bytes) (r : StreamResult) → IsTuned h number r (admit_result h number r)
unfolding get_or_create_session
admit_result-IsTuned h number not_configured = refl
admit_result-IsTuned h number unmatched = refl
admit_result-IsTuned h number (matched wanted) = elim (Option-cases (joinable h number wanted)) [
  | inl none_there ↦ rw (none_there, get_or_create_session) (created-IsJoinedTo h number wanted)
  | inr (i, there) ↦
      rw (there, get_or_create_session) (subscribed-IsJoinedTo h number wanted i there)
]

module _ {E : Type 0} ⦃u : Unicode⦄ where
  -- In a running program and in any state of its sessions, a request for the stream path of a number
  -- is answered by the best match among the entries that one of the merges so far has published: with
  -- 404 if no channel has the number, with 503 if nothing matches its channel, and else it joins a
  -- session that has not ended, of an upstream equal to the match, which is the registered one of the
  -- number. No other goroutine gets between the locks of `getOrCreateSession`.
  pub admit-IsTuned :
      (world : World E) (cfg : Config) {l : Lineup} {done : List (Action E)}
      {guided : List (GuideAction E)} {p : Program} (h : Handler) (number : Bytes)
      → new cfg.channels ≡ built l
      → Running world cfg l done guided p
      → (es : List Entry) × IsPublished cfg.playlists done es
        × IsTuned h number
            (expected_stream (first_numbered number (map channel_of cfg.channels)) es)
            (admit h p.lineup (stream_path number))
  admit-IsTuned world cfg {p = p} h number e r =
      let w = Running-IsServed world cfg e r in
      (
        w.entries,
        w.published,
        subst (IsTuned h number _)
            (sym
              (admit-stream_path h p.lineup number ∙ ap (admit_result h number) (w.streams number)))
            (admit_result-IsTuned h number _),
      )
