-- ===== src/Ssdp/Goodbye.antt =====
-- What the goroutine of the advertisement calls, over all that it may receive.
use iptv2hdhr.Base.{
  ◌≡◌, refl, sym, ap, ◌∙◌, true, false, Option, none, some, List, [], ◌∷◌, ◌++◌, map, append_assoc,
  append-nil,
}
use iptv2hdhr.Ssdp.{
  Call, alive, bye, close, announcing, returned, Advertiser, Event, ticked, context_done, receive,
  receive_all, new_advertiser,
}

abbrev announcing_with : List Call → Advertiser
announcing_with calls = record { place = announcing; calls = calls; ticking = true }

abbrev returned_with : List Call → Advertiser
returned_with calls = record { place = returned; calls = calls; ticking = false }

module _ {E : Type 0} where
  -- One call of `Alive` for each answer.
  abbrev pub alives : List (Option E) → List Call
  alives = map (λ answer. alive)

  abbrev pub AllGood : List (Option E) → Type 0
  AllGood [] = Unit
  AllGood (none ∷ rest) = AllGood rest
  AllGood (some err ∷ rest) = ⊥

  receive_all-returned :
      (calls : List Call) (es : List (Event E))
      → receive_all (returned_with calls) es ≡ returned_with calls
  unfolding receive_all receive
  receive_all-returned calls [] = refl
  receive_all-returned calls (e ∷ es) = receive_all-returned calls es

  receive_all-good :
      (calls : List Call) (answers : List (Option E)) (es : List (Event E))
      → AllGood answers
      → receive_all (announcing_with calls) (map ticked answers ++ es)
        ≡ receive_all (announcing_with (calls ++ alives answers)) es
  unfolding receive_all receive
  receive_all-good calls [] es g =
      ap (λ c. receive_all (announcing_with c) es) (sym (append-nil calls))
  receive_all-good calls (none ∷ rest) es g =
      receive_all-good (calls ++ alive ∷ []) rest es g
      ∙ ap (λ c. receive_all (announcing_with c) es) (append_assoc calls (alive ∷ []) (alives rest))
  receive_all-good calls (some err ∷ rest) es g = absurd g

  -- As long as the library answers each `Alive` without an error, the goroutine announces the device
  -- at each tick, and at the end of the context it says goodbye once and closes the advertisement;
  -- at the first error it returns without either. Then it calls nothing more, and its ticker is
  -- stopped.
  pub receive_all-calls :
      (answers : List (Option E)) (err : E) (more : List (Event E))
      → AllGood answers
      → (receive_all new_advertiser (map ticked answers)
          ≡ record { place = announcing; calls = alives answers; ticking = true })
        × (receive_all new_advertiser (map ticked answers ++ context_done ∷ more) ≡ record {
          place = returned;
          calls = alives answers ++ bye ∷ close ∷ [];
          ticking = false;
        })
        × (receive_all new_advertiser (map ticked answers ++ ticked (some err) ∷ more)
            ≡ record { place = returned; calls = alives answers ++ alive ∷ []; ticking = false })
  unfolding receive_all receive
  receive_all-calls answers err more g = (
    ap (receive_all new_advertiser) (sym (append-nil (map ticked answers)))
        ∙ receive_all-good [] answers [] g,
    receive_all-good [] answers (context_done ∷ more) g ∙ receive_all-returned _ more,
    receive_all-good [] answers (ticked (some err) ∷ more) g ∙ receive_all-returned _ more,
  )
