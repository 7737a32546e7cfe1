-- ===== src/Startup/Handlers.antt =====
-- The handlers that main.go registers with the signal mux, and what they do to the running program. A
-- handler is a number, as in Service/Signals; so is a signal, by its number on Linux.
pub mod Channel
pub mod Taken
pub mod Deliveries
use tlspxy.Common.{
  ℕ, ◌+◌, ◌≡◌, refl, arith, String, str_eq, Bool, true, false, not, ◌&&◌, ◌||◌, List, [], ◌∷◌, ◌++◌,
  Option, none, some, ◌==◌, if◌then◌else◌,
}
use tlspxy.Config.Koanf.{Koanf}
use tlspxy.Tls.CertStore.{CertStore, Loader, reload_all}
use tlspxy.Service.Signals.{SigHandlerMux, new, add_handler, add_one}

abbrev pub sighup : ℕ
sighup = 1

abbrev pub interrupt : ℕ
interrupt = 2

abbrev pub sigterm : ℕ
sigterm = 15

abbrev pub terminating : List ℕ
terminating = interrupt ∷ sigterm ∷ []

-- The functions that main registers: metricsSrv.Shutdown, certStore.ReloadAll, the InterruptHandler of
-- the counter or of the transport, and srv.Shutdown.
abbrev pub stop_metrics : ℕ
stop_metrics = 0

abbrev pub reload_certs : ℕ
reload_certs = 1

abbrev pub log_counter : ℕ
log_counter = 2

abbrev pub log_transport : ℕ
log_transport = 3

abbrev pub stop_http : ℕ
stop_http = 4

unfoldable pub metrics_handlers : Koanf → SigHandlerMux → SigHandlerMux
metrics_handlers k shm =
    if k.bool "metrics.enable" then add_handler stop_metrics terminating shm else shm

unfoldable pub reload_handlers : {C : Type 0} → Option (CertStore C) → SigHandlerMux → SigHandlerMux
reload_handlers none shm = shm
reload_handlers (some store) shm = add_handler reload_certs (sighup ∷ []) shm

abbrev pub is_http : Koanf → Bool
is_http k = str_eq (k.string "server.type") "http" || str_eq (k.string "server.type") "https"

unfoldable pub server_handlers : Koanf → SigHandlerMux → SigHandlerMux
server_handlers k shm =
    if str_eq (k.string "server.type") "tcp"
    then add_handler log_counter terminating shm
    else if is_http k
    then add_handler stop_http terminating (add_handler log_transport terminating shm)
    else shm

-- The mux once main serves.
unfoldable pub main_handlers : {C : Type 0} → Koanf → Option (CertStore C) → SigHandlerMux
main_handlers k store = server_handlers k (reload_handlers store (metrics_handlers k new))

-- The program that serves. `cancelled` is rootCtx, which signal.NotifyContext ends.
pub record Running (C : Type 0) : Type 0 where
  pub store : Option (CertStore C)
  pub cancelled : Bool
  pub metrics_stopped : Bool
  pub http_stopped : Bool

abbrev pub reload_store : {C : Type 0} → Loader C → Option (CertStore C) → Option (CertStore C)
reload_store load none = none
reload_store load (some store) = some (reload_all load store).0

abbrev pub is_terminating : ℕ → Bool
is_terminating s = s == interrupt || s == sigterm

module _ {C : Type 0} where
  unfoldable pub run_handler : Loader C → ℕ → Running C → Running C
  run_handler load fn m =
      if fn == stop_metrics
      then record m { metrics_stopped = true }
      else if fn == reload_certs
      then record m { store = reload_store load m.store }
      else if fn == stop_http
      then record m { http_stopped = true }
      else m

  unfoldable pub run_handlers : Loader C → List ℕ → Running C → Running C
  unfolding run_handler
  run_handlers load [] m = m
  run_handlers load (fn ∷ fns) m = run_handlers load fns (run_handler load fn m)

  -- A signal that the loop of WatchForSignals has received: the mux runs its handlers.
  unfoldable pub on_signal : SigHandlerMux → Loader C → ℕ → Running C → Running C
  unfolding run_handlers
  on_signal shm load s m = run_handlers load (shm.handlers s) m

  -- Two handlers of one signal end in the same program, whichever of them the scheduler starts first.
  run_handler_comm :
      (load : Loader C) (i j : ℕ) (m : Running C)
      → run_handler load i (run_handler load j m) ≡ run_handler load j (run_handler load i m)
  unfolding run_handler
  run_handler_comm load i j m = ground arith

-- The signals that WatchForSignals is notified of.
abbrev pub is_notified : ℕ → Bool
is_notified s = s == sighup || is_terminating s

-- WatchForSignals beside the program. `waiting` is its channel, of capacity 1; `handling` is the signal
-- whose handlers run; `trapped` are the signals that it has handled, in order, each with what the
-- files of the certificates held then; `dropped` counts those that the channel had no room for.
pub record SignalLoop (C : Type 0) : Type 0 where
  pub waiting : Option ℕ
  pub handling : Option ℕ
  pub trapped : List (ℕ × Loader C)
  pub dropped : ℕ
  pub program : Running C

-- A signal arrives, the loop receives one, and the handlers that it has started have all ended.
pub data SignalEvent (C : Type 0) : Type 0 where
  arrives : ℕ → SignalEvent C
  receives : SignalEvent C
  handled : Loader C → SignalEvent C

module _ {C : Type 0} where
  -- A send to the channel: os/signal does not wait for one that is full.
  unfoldable pub send : ℕ → Option ℕ → SignalLoop C → SignalLoop C
  send s none l = record l { waiting = some s }
  send s (some t) l = record l { dropped = l.dropped + 1 }

  -- The root context has a channel of its own, which its first signal always fits into.
  unfoldable pub cancel_root : ℕ → SignalLoop C → SignalLoop C
  cancel_root s l = record l {
    program = record l.program { cancelled = is_terminating s || l.program.cancelled };
  }

  -- The loop receives where it does not wait for handlers.
  unfoldable pub receive : Option ℕ → SignalLoop C → SignalLoop C
  receive none l = record l { waiting = none; handling = l.waiting }
  receive (some t) l = l

  -- The end of the handlers that run.
  unfoldable pub finish_handlers : SigHandlerMux → Loader C → Option ℕ → SignalLoop C → SignalLoop C
  unfolding on_signal
  finish_handlers shm load none l = l
  finish_handlers shm load (some s) l = record l {
    handling = none;
    trapped = l.trapped ++ (s, load) ∷ [];
    program = on_signal shm load s l.program;
  }

  -- An event that cannot happen now changes nothing.
  unfoldable pub on_signal_event : SigHandlerMux → SignalEvent C → SignalLoop C → SignalLoop C
  unfolding send cancel_root receive finish_handlers
  on_signal_event shm (arrives s) l =
      if is_notified s then send s l.waiting (cancel_root s l) else l
  on_signal_event shm receives l = receive l.handling l
  on_signal_event shm (handled load) l = finish_handlers shm load l.handling l

  -- WatchForSignals.
  unfoldable pub on_signals : SigHandlerMux → List (SignalEvent C) → SignalLoop C → SignalLoop C
  unfolding on_signal_event
  on_signals shm [] l = l
  on_signals shm (e ∷ events) l = on_signals shm events (on_signal_event shm e l)
