-- ===== src/Startup/Handlers/Channel.antt =====
-- The channel of WatchForSignals in internal/signal/signal.go: which signals it takes.
use mathlib.Core.List.{append_assoc, append-nil}
use tlspxy.Common.{
  ℕ, ◌+◌, ◌≡◌, refl, ap, sym, ◌∙◌, arith, Bool, true, false, ◌||◌, List, [], ◌∷◌, ◌++◌, Option,
  none, some, length, length-append, if◌then◌else◌, Bool-cases, inl, inr,
}
use tlspxy.Tls.CertStore.{Loader}
use tlspxy.Service.Signals.{SigHandlerMux}
use tlspxy.Startup.Handlers.{
  is_terminating, is_notified, SignalLoop, SignalEvent, arrives, receives, handled, send,
  cancel_root, receive, finish_handlers, on_signal_event, on_signals,
}

abbrev pub to_list : Option ℕ → List ℕ
to_list none = []
to_list (some s) = s ∷ []

module _ {C : Type 0} where
  -- The signals that arrive and that WatchForSignals is notified of.
  abbrev pub arrivals : List (SignalEvent C) → List ℕ
  arrivals [] = []
  arrivals (arrives s ∷ events) =
      let rest = arrivals events in if is_notified s then s ∷ rest else rest
  arrivals (receives ∷ events) = arrivals events
  arrivals (handled load ∷ events) = arrivals events

  -- The signals that the channel has taken, in order: those that were handled, that is handled, and
  -- that waits.
  abbrev pub numbers : List (ℕ × Loader C) → List ℕ
  numbers [] = []
  numbers ((s, load) ∷ signals) = s ∷ numbers signals

  abbrev pub kept : SignalLoop C → List ℕ
  kept l = numbers l.trapped ++ (to_list l.handling ++ to_list l.waiting)

  numbers-append :
      (signals : List (ℕ × Loader C)) (s : ℕ) (load : Loader C)
      → numbers (signals ++ (s, load) ∷ []) ≡ numbers signals ++ s ∷ []
  numbers-append [] s load = refl
  numbers-append (t ∷ signals) s load = ap (λ ts. t.0 ∷ ts) (numbers-append signals s load)

-- The one list comes from the other by leaving numbers out.
pub data IsPart : List ℕ → List ℕ → Type 0 where
  part_end : IsPart [] []
  part_keeps : {x : ℕ} {xs ys : List ℕ} → IsPart xs ys → IsPart (x ∷ xs) (x ∷ ys)
  part_skips : {y : ℕ} {xs ys : List ℕ} → IsPart xs ys → IsPart xs (y ∷ ys)

IsPart-keep_last : (s : ℕ) {xs ys : List ℕ} → IsPart xs ys → IsPart (xs ++ s ∷ []) (ys ++ s ∷ [])
IsPart-keep_last s part_end = part_keeps part_end
IsPart-keep_last s (part_keeps p) = part_keeps (IsPart-keep_last s p)
IsPart-keep_last s (part_skips p) = part_skips (IsPart-keep_last s p)

IsPart-skip_last : (s : ℕ) {xs ys : List ℕ} → IsPart xs ys → IsPart xs (ys ++ s ∷ [])
IsPart-skip_last s part_end = part_skips part_end
IsPart-skip_last s (part_keeps p) = part_keeps (IsPart-skip_last s p)
IsPart-skip_last s (part_skips p) = part_skips (IsPart-skip_last s p)

module _ {C : Type 0} (shm : SigHandlerMux) where
  -- Of the signals that arrive, the channel takes some, in order, and the others are counted.
  pub record IsAccounted (before : List ℕ) (l : SignalLoop C) : Type 0 where
    pub part : IsPart (kept l) before
    pub counted : length before ≡ length (kept l) + l.dropped

  pub kept-receive :
      (handling : Option ℕ) (l : SignalLoop C)
      → l.handling ≡ handling
      → (kept (receive handling l) ≡ kept l) × ((receive handling l).dropped ≡ l.dropped)
  unfolding receive
  kept-receive none l idle =
      (rw idle (ap (λ t. numbers l.trapped ++ t) (append-nil (to_list l.waiting))), refl)
  kept-receive (some t) l busy = (refl, refl)

  pub kept-finish_handlers :
      (load : Loader C) (handling : Option ℕ) (l : SignalLoop C)
      → l.handling ≡ handling
      → let l' = finish_handlers shm load handling l in
        (kept l' ≡ kept l) × (l'.dropped ≡ l.dropped)
  unfolding finish_handlers
  kept-finish_handlers load none l idle = (refl, refl)
  kept-finish_handlers load (some s) l busy = (
    rw (busy, numbers-append l.trapped s load)
        (append_assoc (numbers l.trapped) (s ∷ []) (to_list l.waiting)),
    refl,
  )

  kept-idle : (l : SignalLoop C) → l.waiting ≡ none → l.handling ≡ none → kept l ≡ numbers l.trapped
  kept-idle l quiet idle = rw (quiet, idle) (append-nil (numbers l.trapped))

  -- A signal is kept where no other one waits.
  pub kept-free :
      (s : ℕ) (l : SignalLoop C)
      → l.waiting ≡ none
      → kept (record l { waiting = some s }) ≡ kept l ++ s ∷ []
  kept-free s l free =
      rw (free, append-nil (to_list l.handling))
        (sym (append_assoc (numbers l.trapped) (to_list l.handling) (s ∷ [])))

  kept-send :
      (s : ℕ) (waiting : Option ℕ) (l : SignalLoop C)
      → l.waiting ≡ waiting
      → (more : List ℕ) × (kept (send s waiting l) ≡ kept l ++ more)
  unfolding send
  kept-send s none l free = (s ∷ [], kept-free s l free)
  kept-send s (some t) l full = ([], sym (append-nil (kept l)))

  IsAccounted-send :
      (s : ℕ) (waiting : Option ℕ) (before : List ℕ) (l : SignalLoop C)
      → l.waiting ≡ waiting
      → IsAccounted before l
      → IsAccounted (before ++ s ∷ []) (send s waiting l)
  unfolding send
  IsAccounted-send s none before l free h =
      let kept' = kept-free s l free in
      record {
        part = rw kept' (IsPart-keep_last s h.part);
        counted = ground (
          arith,
          h.counted,
          kept',
          length-append before (s ∷ []),
          length-append (kept l) (s ∷ []),
        );
      }
  IsAccounted-send s (some t) before l full h = record {
    part = IsPart-skip_last s h.part;
    counted = ground (arith, h.counted, length-append before (s ∷ []));
  }

  event-IsAccounted :
      (e : SignalEvent C) (before : List ℕ) (l : SignalLoop C)
      → IsAccounted before l
      → IsAccounted (before ++ arrivals (e ∷ [])) (on_signal_event shm e l)
  unfolding on_signal_event cancel_root
  event-IsAccounted (arrives s) before l h = elim (Bool-cases (is_notified s)) [
    | inl known ↦ rw known (
        IsAccounted-send s l.waiting before (cancel_root s l) refl
          (record { part = h.part; counted = h.counted }))
    | inr other ↦ rw (other, append-nil before) h
  ]
  event-IsAccounted receives before l h =
      let same = kept-receive l.handling l refl in
      rw (append-nil before)
        (record { part = rw same.0 h.part; counted = ground (arith, h.counted, same) })
  event-IsAccounted (handled load) before l h =
      let same = kept-finish_handlers load l.handling l refl in
      rw (append-nil before)
        (record { part = rw same.0 h.part; counted = ground (arith, h.counted, same) })

  arrivals-cons :
      (e : SignalEvent C) (events : List (SignalEvent C))
      → arrivals (e ∷ events) ≡ arrivals (e ∷ []) ++ arrivals events
  arrivals-cons (arrives s) events = ground arith
  arrivals-cons receives events = refl
  arrivals-cons (handled load) events = refl

  pub events-IsAccounted :
      (events : List (SignalEvent C)) (before : List ℕ) (l : SignalLoop C)
      → IsAccounted before l
      → IsAccounted (before ++ arrivals events) (on_signals shm events l)
  unfolding on_signals
  events-IsAccounted [] before l h = rw (append-nil before) h
  events-IsAccounted (e ∷ events) before l h =
      let rest =
        events-IsAccounted events (before ++ arrivals (e ∷ [])) (on_signal_event shm e l)
          (event-IsAccounted e before l h) in
      rw (arrivals-cons e events)
        (rw⁻¹ (append_assoc before (arrivals (e ∷ [])) (arrivals events)) rest)

  kept-event :
      (e : SignalEvent C) (l : SignalLoop C)
      → (more : List ℕ) × (kept (on_signal_event shm e l) ≡ kept l ++ more)
  unfolding on_signal_event cancel_root
  kept-event (arrives s) l = elim (Bool-cases (is_notified s)) [
    | inr other ↦ ([], rw other (sym (append-nil (kept l))))
    | inl known ↦ rw known (kept-send s l.waiting (cancel_root s l) refl)
  ]
  kept-event receives l = ([], (kept-receive l.handling l refl).0 ∙ sym (append-nil (kept l)))
  kept-event (handled load) l =
      ([], (kept-finish_handlers load l.handling l refl).0 ∙ sym (append-nil (kept l)))

  kept-events :
      (events : List (SignalEvent C)) (l : SignalLoop C)
      → (more : List ℕ) × (kept (on_signals shm events l) ≡ kept l ++ more)
  unfolding on_signals
  kept-events [] l = ([], sym (append-nil (kept l)))
  kept-events (e ∷ events) l =
      let (first, eq) = kept-event e l in
      let (others, eq') = kept-events events (on_signal_event shm e l) in
      (first ++ others, eq' ∙ ap (λ t. t ++ others) eq ∙ append_assoc (kept l) first others)

  -- A signal that arrives while no other one waits is handled, after those that came before it: once
  -- nothing waits and no handler runs, it is among the trapped signals.
  pub on_signals-free :
      (s : ℕ) (events : List (SignalEvent C)) (l : SignalLoop C)
      → is_notified s ≡ true
      → l.waiting ≡ none
      → let l' = on_signals shm (arrives s ∷ events) l in
        l'.waiting ≡ none
        → l'.handling ≡ none
        → (more : List ℕ) × (numbers l'.trapped ≡ kept l ++ s ∷ more)
  unfolding on_signals on_signal_event send cancel_root
  on_signals-free s events l known free quiet idle =
      let first = on_signal_event shm (arrives s) l in
      let (more, eq) = kept-events events first in
      let taken : first ≡ record (cancel_root s l) { waiting = some s } =
        ground (arith, known, free) in
      let sent = ap kept taken ∙ kept-free s (cancel_root s l) free in
      (
        more,
        sym (kept-idle (on_signals shm events first) quiet idle)
            ∙ eq
            ∙ ap (λ t. t ++ more) sent
            ∙ append_assoc (kept l) (s ∷ []) more,
      )

-- Whether the root context ends.
abbrev pub ends_root : List ℕ → Bool
ends_root [] = false
ends_root (s ∷ signals) = is_terminating s || ends_root signals
