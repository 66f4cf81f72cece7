-- ===== src/Main/Life/Orderly.antt =====
-- The order in which the process ends.
use iptv2hdhr.Base.{◌≡◌, refl, Bool, true, false, Option, none, some, List, [], ◌∷◌, ◌++◌}
use iptv2hdhr.Config.Schema.{Config}
use iptv2hdhr.Ssdp.{Call, alive, bye, close, announcing, returned, Advertiser}
use iptv2hdhr.Main.Life.{
  returned_from_main, waiting, cancelling, shutting_down, shut_down, SignalPlace, Life,
}

-- Announcements only.
abbrev pub only_alive : List Call → Bool
only_alive [] = true
only_alive (alive ∷ rest) = only_alive rest
only_alive (bye ∷ rest) = false
only_alive (close ∷ rest) = false

-- Announcements, and then a goodbye and the end, once; or announcements only.
abbrev pub is_polite : List Call → Bool
is_polite [] = true
is_polite (alive ∷ rest) = is_polite rest
is_polite (bye ∷ close ∷ []) = true
is_polite _ = false

-- An advertisement that is announced is still ticking and has not said goodbye, and one that has said
-- goodbye was told that the context has ended.
pub record IsHonest (ctx_done : Bool) (a : Advertiser) : Type 0 where
  pub polite : is_polite a.calls ≡ true
  pub ticks : a.place ≡ announcing → (a.ticking ≡ true) × (only_alive a.calls ≡ true)
  pub stops : a.place ≡ returned → a.ticking ≡ false
  pub told : only_alive a.calls ≡ false → ctx_done ≡ true

abbrev pub IsHonestIfAny : Bool → Option Advertiser → Type 0
IsHonestIfAny ctx_done none = Unit
IsHonestIfAny ctx_done (some a) = IsHonest ctx_done a

abbrev pub has_cancelled : SignalPlace → Bool
has_cancelled waiting = false
has_cancelled cancelling = false
has_cancelled shutting_down = true
has_cancelled shut_down = true

-- The context has ended before the server is closed, and `main` returns only after both.
pub record IsOrderly {E : Type 0} (l : Life E) : Type 0 where
  pub cancelled : has_cancelled l.on_signal ≡ l.ctx_done
  pub closed : l.server_closed ≡ true → l.on_signal ≡ shut_down
  pub left : l.main ≡ returned_from_main → (l.on_signal ≡ shut_down) × (l.server_closed ≡ true)
  pub honest : IsHonestIfAny l.ctx_done l.advertiser

announced-told : (cs more : List Call) → only_alive cs ≡ false → only_alive (cs ++ more) ≡ false
announced-told [] more e = cc
announced-told (alive ∷ rest) more e = announced-told rest more e
announced-told (bye ∷ rest) more e = refl
announced-told (close ∷ rest) more e = refl
