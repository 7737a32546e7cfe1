-- ===== src/Startup/Handlers/Taken.antt =====
-- The channel of WatchForSignals in internal/signal/signal.go, against a description of what a channel of
-- capacity 1 takes.
use mathlib.Core.List.{append_assoc, append-nil}
use tlspxy.Common.{
  ℕ, ◌≡◌, refl, ap, sym, ◌∙◌, arith, Bool, true, false, List, [], ◌∷◌, ◌++◌, Option, none, some,
  if◌then◌else◌, Bool-cases, Option-cases, inl, inr,
}
use tlspxy.Tls.CertStore.{Loader}
use tlspxy.Service.Signals.{SigHandlerMux}
use tlspxy.Startup.Handlers.{
  is_notified, SignalLoop, SignalEvent, arrives, receives, handled, send, cancel_root, receive,
  finish_handlers, on_signal_event, on_signals,
}
use tlspxy.Startup.Handlers.Channel.{kept, kept-receive, kept-finish_handlers, kept-free}

abbrev pub is_some : Option ℕ → Bool
is_some none = false
is_some (some s) = true

module _ {C : Type 0} where
  -- Of the signals that arrive, those that find no other one waiting, by whether one waits and whether
  -- handlers run.
  abbrev pub taken : Bool → Bool → List (SignalEvent C) → List ℕ
  taken waits busy [] = []
  taken true busy (arrives s ∷ events) = taken true busy events
  taken false busy (arrives s ∷ events) =
      let others = taken false busy events in
      let rest = taken true busy events in if is_notified s then s ∷ rest else others
  taken waits true (receives ∷ events) = taken waits true events
  taken waits false (receives ∷ events) = taken false waits events
  taken waits busy (handled load ∷ events) = taken waits false events

module _ {C : Type 0} (shm : SigHandlerMux) where
  taken-send :
      (s : ℕ) (waiting : Option ℕ) (events : List (SignalEvent C)) (l : SignalLoop C)
      → l.waiting ≡ waiting
      → is_notified s ≡ true
      → let l' = send s waiting l in
        kept l' ++ taken (is_some l'.waiting) (is_some l'.handling) events
        ≡ kept l ++ taken (is_some l.waiting) (is_some l.handling) (arrives s ∷ events)
  unfolding send
  taken-send s (some t) events l full known = rw full refl
  taken-send s none events l free known =
      let rest = taken true (is_some l.handling) events in
      ap (λ ks. ks ++ rest) (kept-free shm s l free)
      ∙ append_assoc (kept l) (s ∷ []) rest
      ∙ ap (λ ts. kept l ++ ts) (rw (free, known) refl)

  taken-receive :
      (handling : Option ℕ) (events : List (SignalEvent C)) (l : SignalLoop C)
      → l.handling ≡ handling
      → let l' = receive handling l in
        kept l' ++ taken (is_some l'.waiting) (is_some l'.handling) events
        ≡ kept l ++ taken (is_some l.waiting) (is_some l.handling) (receives ∷ events)
  unfolding receive
  taken-receive (some t) events l busy = ap (λ ts. kept l ++ ts) (rw busy refl)
  taken-receive none events l idle =
      ap (λ ks. ks ++ taken false (is_some l.waiting) events) (kept-receive shm none l idle).0
      ∙ ap (λ ts. kept l ++ ts) (rw idle refl)

  taken-finish :
      (load : Loader C) (handling : Option ℕ) (events : List (SignalEvent C)) (l : SignalLoop C)
      → l.handling ≡ handling
      → let l' = finish_handlers shm load handling l in
        kept l' ++ taken (is_some l'.waiting) (is_some l'.handling) events
        ≡ kept l ++ taken (is_some l.waiting) (is_some l.handling) (handled load ∷ events)
  unfolding finish_handlers
  taken-finish load none events l idle = ap (λ ts. kept l ++ ts) (rw idle refl)
  taken-finish load (some s) events l busy =
      ap (λ ks. ks ++ taken (is_some l.waiting) false events)
        (kept-finish_handlers shm load (some s) l busy).0

  -- One event: what is kept of it, and what the rest will keep.
  taken-event :
      (e : SignalEvent C) (events : List (SignalEvent C)) (l : SignalLoop C)
      → let l' = on_signal_event shm e l in
        kept l' ++ taken (is_some l'.waiting) (is_some l'.handling) events
        ≡ kept l ++ taken (is_some l.waiting) (is_some l.handling) (e ∷ events)
  unfolding on_signal_event
  taken-event (arrives s) events l = elim (Bool-cases (is_notified s)) [
    | inr other ↦ elim (Option-cases l.waiting) [
      | inl free ↦ ground (arith, other, free)
      | inr (t, full) ↦ ground (arith, other, full)
    ]
    | inl known ↦ rw known (taken-send s l.waiting events (cancel_root s l) refl known)
  ]
  taken-event receives events l = taken-receive l.handling events l refl
  taken-event (handled load) events l = taken-finish load l.handling events l refl

  pub events-taken :
      (events : List (SignalEvent C)) (l : SignalLoop C)
      → kept (on_signals shm events l)
        ≡ kept l ++ taken (is_some l.waiting) (is_some l.handling) events
  unfolding on_signals
  events-taken [] l = sym (append-nil (kept l))
  events-taken (e ∷ events) l =
      events-taken events (on_signal_event shm e l) ∙ taken-event e events l
