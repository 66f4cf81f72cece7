-- ===== src/Main/Life.antt =====
-- cmd/iptv2hdhr/main.go: the life of the process from `advertise` to its exit, in steps of the main
-- goroutine, which serves, of the one that waits for a signal, and of the one of the advertisement.
-- `http.Server` is net/http's: `Shutdown` makes `ListenAndServe` return ErrServerClosed at once.
pub mod Orderly
mod Tests
use iptv2hdhr.Base.{◌≡◌, Bool, true, false, Option, none, some, ◌⊎◌, inl, inr}
use iptv2hdhr.Config.Schema.{Config}
use iptv2hdhr.Base.{Bytes}
use iptv2hdhr.Ssdp.{
  Advertisement, Advertiser, announcing, receive, ticked, context_done, start_advertiser,
}
use iptv2hdhr.Main.{advertise}

-- The main goroutine is in `ListenAndServe`; it has returned from `main`; or `log.Fatalf` has ended the
-- process, without the deferred functions.
pub data MainPlace (E : Type 0) : Type 0 where
  serving : MainPlace E
  returned_from_main : MainPlace E
  server_failed : E → MainPlace E

-- The goroutine of the signal: before `<-sigCh`, before `cancel`, before `Shutdown`, behind it.
pub data SignalPlace : Type 0 where
  waiting : SignalPlace
  cancelling : SignalPlace
  shutting_down : SignalPlace
  shut_down : SignalPlace

-- `ctx_done` says whether `cancel` has been called; `advertiser` is none if `advertise` has failed.
pub record Life (E : Type 0) : Type 0 where
  pub main : MainPlace E
  pub on_signal : SignalPlace
  pub ctx_done : Bool
  pub server_closed : Bool
  pub advertiser : Option Advertiser

abbrev pub advertiser_of :
    {E : Type 0} → (Advertisement → Option E) → E ⊎ Advertisement → Option Advertiser
advertiser_of library (inl err) = none
advertiser_of library (inr ad) = started_of (start_advertiser library ad)
  where
    started_of : {E : Type 0} → E ⊎ Advertiser → Option Advertiser
    started_of (inl err) = none
    started_of (inr a) = some a

-- The listener is about to be opened. An error of `advertise` is only logged.
unfoldable pub begin_life : {E : Type 0} → (Advertisement → Option E) → Config → E ⊎ Bytes → Life E
begin_life library cfg ip = record {
  main = serving;
  on_signal = waiting;
  ctx_done = false;
  server_closed = false;
  advertiser = advertiser_of library (advertise cfg ip);
}

-- While the process runs.
pub data LifeStep {E : Type 0} (l : Life E) : Life E → Type 0 where
  receives_signal :
      l.main ≡ serving → l.on_signal ≡ waiting → LifeStep l (record l { on_signal = cancelling })
  cancels :
      l.main ≡ serving
      → l.on_signal ≡ cancelling
      → LifeStep l (record l { on_signal = shutting_down; ctx_done = true })
  shuts_down :
      l.main ≡ serving
      → l.on_signal ≡ shutting_down
      → LifeStep l (record l { on_signal = shut_down; server_closed = true })
  -- `ListenAndServe` returns ErrServerClosed, and `main` returns, with its deferred `cancel`.
  serve_returns :
      l.main ≡ serving
      → l.server_closed ≡ true
      → LifeStep l (record l { main = returned_from_main; ctx_done = true })
  -- It returns another error.
  serve_fails : (err : E) → l.main ≡ serving → LifeStep l (record l { main = server_failed err })
  announces :
      (a : Advertiser) (answer : Option E)
      → l.main ≡ serving
      → l.advertiser ≡ some a
      → LifeStep l (record l { advertiser = some (receive a (ticked answer)) })
  says_goodbye :
      (a : Advertiser)
      → l.main ≡ serving
      → l.ctx_done ≡ true
      → l.advertiser ≡ some a
      → LifeStep l (record l { advertiser = some (receive {E = E} a context_done) })

pub data LifeReach {E : Type 0} (k : Life E) : Life E → Type 0 where
  here : LifeReach k k
  next : {l m : Life E} → LifeReach k l → LifeStep l m → LifeReach k m
