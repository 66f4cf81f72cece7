-- ===== src/StreamProxy/Handler/Clients.antt =====
-- What the operations on a session do to its clients' queues.
use iptv2hdhr.Base.{
  ℕ, ◌≤◌, ◌≡◌, refl, sym, ap, subst, ◌∙◌, true, false, ◌⊎◌, inl, inr, some, List, [], ◌∷◌, arith,
  ◌==◌, ==_iff, Bytes, Bool-cases, length,
}
use iptv2hdhr.StreamProxy.Subscriber.{Subscriber, push, close, new_subscriber}
use iptv2hdhr.StreamProxy.Subscriber.Backlog.{push_lem}
use iptv2hdhr.StreamProxy.Session.{join_prebuffer_size}
use iptv2hdhr.StreamProxy.Handler.{Handler, update, stop, subscribe, close_all, push_all, broadcast}

abbrev pub IsIn : ℕ → List ℕ → Type 0
IsIn i [] = ⊥
IsIn i (x ∷ xs) = (i ≡ x) ⊎ IsIn i xs

-- No subscriber twice, as the keys of a map.
abbrev pub Distinct : List ℕ → Type 0
Distinct [] = Unit
Distinct (x ∷ xs) = (IsIn x xs → ⊥) × Distinct xs

close_all-closed :
    (is : List ℕ) (f : ℕ → Subscriber) (j : ℕ)
    → (f j).closed ≡ true
    → (close_all is f j).closed ≡ true
unfolding close_all close
close_all-closed [] f j h = h
close_all-closed (i ∷ is) f j h = close_all-closed is (update f i (close (f i))) j (ground arith)

close_all_closes :
    (is : List ℕ) (f : ℕ → Subscriber) (j : ℕ) → IsIn j is → (close_all is f j).closed ≡ true
unfolding close_all close
close_all_closes [] f j h = absurd h
close_all_closes (i ∷ is) f j (inl e) =
    close_all-closed is (update f i (close (f i))) j (ground arith)
close_all_closes (i ∷ is) f j (inr m) = close_all_closes is (update f i (close (f i))) j m

pub close_all-pending :
    (is : List ℕ) (f : ℕ → Subscriber) (j : ℕ) → (close_all is f j).pending ≡ (f j).pending
unfolding close_all close
close_all-pending [] f j = refl
close_all-pending (i ∷ is) f j = close_all-pending is (update f i (close (f i))) j ∙ ground arith

-- When a session that has not ended is stopped, each of its clients is told, and what was queued for
-- any client is still there to be taken.
pub stop_ends_clients :
    (h : Handler) (i sub : ℕ)
    → (h.session i).closed ≡ false
    → IsIn sub (h.session i).subs
    → (((stop h i).sub sub).closed ≡ true) × (((stop h i).sub sub).pending ≡ (h.sub sub).pending)
unfolding stop
stop_ends_clients h i sub o m =
    rw (o, stop)
      (
        close_all_closes (h.session i).subs h.sub sub m,
        close_all-pending (h.session i).subs h.sub sub,
      )

push_all_ne :
    (chunk : Bytes) (is : List ℕ) (f : ℕ → Subscriber) (j : ℕ)
    → (IsIn j is → ⊥)
    → push_all chunk is f j ≡ f j
unfolding push_all
push_all_ne chunk [] f j h = refl
push_all_ne chunk (i ∷ is) f j h =
    push_all_ne chunk is (update f i (push (f i) chunk).0) j (λ m. h (inr m))
    ∙ ground (arith, λ (e : j ≡ i). h (inl e))

push_all_in :
    (chunk : Bytes) (is : List ℕ) (f : ℕ → Subscriber) (j : ℕ)
    → Distinct is
    → IsIn j is
    → push_all chunk is f j ≡ (push (f j) chunk).0
unfolding push_all
push_all_in chunk [] f j d m = absurd m
push_all_in chunk (i ∷ is) f j d (inl e) =
    rw e (push_all_ne chunk is (update f i (push (f i) chunk).0) i d.0 ∙ rw ((==_iff i i).1 refl))
push_all_in chunk (i ∷ is) f j d (inr m) =
    push_all_in chunk is (update f i (push (f i) chunk).0) j d.1 m
    ∙ ap (λ s. (push s chunk).0)
        (elim (Bool-cases (i == j)) [
          | inl same ↦ absurd (d.0 (subst (λ k. IsIn k is) (sym ((==_iff i j).0 same)) m))
          | inr other ↦ rw other
        ])

-- A broadcast is pushed once to each client of the session, and to no other client.
pub broadcast-push :
    (h : Handler) (i sub : ℕ) (chunk : Bytes)
    → Distinct (h.session i).subs
    → (IsIn sub (h.session i).subs → (broadcast h i chunk).sub sub ≡ (push (h.sub sub) chunk).0)
      × ((IsIn sub (h.session i).subs → ⊥) → (broadcast h i chunk).sub sub ≡ h.sub sub)
unfolding broadcast
broadcast-push h i sub chunk d = (
  push_all_in chunk (h.session i).subs h.sub sub d,
  push_all_ne chunk (h.session i).subs h.sub sub,
)

push-new_subscriber :
    (chunk : Bytes)
    → length chunk ≤ join_prebuffer_size
    → (push new_subscriber chunk).0.pending ≡ chunk
unfolding push
push-new_subscriber [] h = refl
push-new_subscriber (c ∷ chunk) h = ground arith

-- A client that joins starts with the whole prebuffer, which is never cut by the backlog's limit.
subscribe-pending :
    (h : Handler) (i : ℕ)
    → (h.session i).closed ≡ false
    → length (h.session i).prebuffer.recent ≤ join_prebuffer_size
    → ((subscribe h i).1 ≡ some h.sub_count)
      × (((subscribe h i).0.sub h.sub_count).pending ≡ (h.session i).prebuffer.recent)
      × (((subscribe h i).0.sub h.sub_count).closed ≡ false)
unfolding subscribe
subscribe-pending h i o b =
    rw (o, subscribe)
      (rw ((==_iff h.sub_count h.sub_count).1 refl) (
        refl,
        push-new_subscriber (h.session i).prebuffer.recent b,
        (push_lem new_subscriber (h.session i).prebuffer.recent).1,
      ))
