-- ===== src/Service/Signals.antt =====
-- internal/signal/signal.go: the handlers of signals. A handler is known by a number, a signal by its
-- own; which of them runs first when one signal starts several is left to Go's scheduler, and the mux
-- takes the next signal when all of them have ended.
use tlspxy.Common.{ℕ, ◌≡◌, refl, ap, ◌∙◌, sym, arith, List, [], ◌∷◌, ◌++◌, map, ◌==◌, if◌then◌else◌}
use mathlib.Core.List.{append_assoc, append-nil}

-- The map `do`: the handlers of a signal, in the order in which they were added.
pub record SigHandlerMux : Type 0 where
  pub handlers : ℕ → List ℕ

unfoldable pub new : SigHandlerMux
new = record { handlers = λ sig. [] }

-- shm.do[sig] = append(shm.do[sig], fn).
unfoldable pub add_one : ℕ → ℕ → SigHandlerMux → SigHandlerMux
add_one fn sig shm = record {
  handlers = λ s. if s == sig then shm.handlers s ++ fn ∷ [] else shm.handlers s;
}

-- AddHandler.
unfoldable pub add_handler : ℕ → List ℕ → SigHandlerMux → SigHandlerMux
add_handler fn [] shm = shm
add_handler fn (sig ∷ sigs) shm = add_handler fn sigs (add_one fn sig shm)

-- WatchForSignals over the signals that it receives from its channel: the handlers that each of them
-- starts and waits for. Which signals the channel, of capacity 1, takes is in Startup/Handlers.
unfoldable pub watch_for_signals : SigHandlerMux → List ℕ → List (List ℕ)
watch_for_signals shm [] = []
watch_for_signals shm (s ∷ signals) = shm.handlers s ∷ watch_for_signals shm signals

-- How often a signal stands among those of one registration.
abbrev pub times : ℕ → ℕ → List ℕ → List ℕ
times fn s [] = []
times fn s (sig ∷ sigs) = if s == sig then fn ∷ times fn s sigs else times fn s sigs

add_handler_lem :
    (fn : ℕ) (sigs : List ℕ) (shm : SigHandlerMux) (s : ℕ)
    → (add_handler fn sigs shm).handlers s ≡ shm.handlers s ++ times fn s sigs
unfolding add_handler add_one
add_handler_lem fn [] shm s = sym (append-nil (shm.handlers s))
add_handler_lem fn (sig ∷ sigs) shm s = ground (
  arith,
  add_handler_lem fn sigs (add_one fn sig shm) s,
  append_assoc (shm.handlers s) (fn ∷ []) (times fn s sigs),
)

abbrev pub register : List (ℕ × List ℕ) → SigHandlerMux → SigHandlerMux
register [] shm = shm
register (r ∷ registrations) shm = register registrations (add_handler r.0 r.1 shm)

-- Of a list of registrations, those for a signal, in order.
abbrev pub registered : List (ℕ × List ℕ) → ℕ → List ℕ
registered [] s = []
registered (r ∷ registrations) s = times r.0 s r.1 ++ registered registrations s

register_lem :
    (registrations : List (ℕ × List ℕ)) (shm : SigHandlerMux) (s : ℕ)
    → (register registrations shm).handlers s ≡ shm.handlers s ++ registered registrations s
register_lem [] shm s = sym (append-nil (shm.handlers s))
register_lem (r ∷ registrations) shm s =
    register_lem registrations (add_handler r.0 r.1 shm) s
    ∙ ap (λ t. t ++ registered registrations s) (add_handler_lem r.0 r.1 shm s)
    ∙ append_assoc (shm.handlers s) (times r.0 s r.1) (registered registrations s)

-- After any registrations each signal that is received starts exactly the handlers that were registered
-- for it, as often as they were, in the order of registration.
pub watch_for_signals-register :
    (registrations : List (ℕ × List ℕ)) (signals : List ℕ)
    → watch_for_signals (register registrations new) signals
      ≡ map (registered registrations) signals
unfolding watch_for_signals new
watch_for_signals-register registrations [] = refl
watch_for_signals-register registrations (s ∷ signals) =
    ground
      (arith, register_lem registrations new s, watch_for_signals-register registrations signals)
