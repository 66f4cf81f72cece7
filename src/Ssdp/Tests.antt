-- ===== src/Ssdp/Tests.antt =====
-- An advertisement on a small run.
use iptv2hdhr.Base.{ℕ, ◌≡◌, true, false, Option, none, some, List, [], ◌∷◌, ◌++◌, map}
use iptv2hdhr.Ssdp.{
  alive, bye, close, announcing, returned, ticked, context_done, receive_all, new_advertiser,
}
use iptv2hdhr.Ssdp.Goodbye.{alives, receive_all-calls}

abbrev answers : List (Option ℕ)
answers = none ∷ none ∷ []

receive_all-calls_example :
    (receive_all new_advertiser (map ticked answers)
      ≡ record { place = announcing; calls = alives answers; ticking = true })
    × (receive_all new_advertiser (map ticked answers ++ context_done ∷ [])
        ≡ record { place = returned; calls = alives answers ++ bye ∷ close ∷ []; ticking = false })
    × (receive_all new_advertiser (map ticked answers ++ ticked (some 1) ∷ [])
        ≡ record { place = returned; calls = alives answers ++ alive ∷ []; ticking = false })
receive_all-calls_example = receive_all-calls answers 1 [] tt
