-- ===== src/Startup/Handlers/Deliveries.antt =====
-- What the signals do to the program that main.go serves with.
use tlspxy.Common.{
  ℕ, ◌≡◌, refl, ◌∙◌, arith, str_eq, Bool, false, ◌&&◌, ◌||◌, List, [], ◌∷◌, ◌++◌, Option, none,
  some, ◌==◌, ◌+◌, length, if◌then◌else◌, Option-cases, Bool-cases, inl, inr,
}
use tlspxy.Config.Koanf.{Koanf}
use tlspxy.Tls.CertStore.{CertStore, Loader}
use tlspxy.Service.Signals.{new, add_handler, add_one}
use tlspxy.Startup.Handlers.Channel.{
  arrivals, kept, IsPart, part_end, events-IsAccounted, ends_root,
}
use tlspxy.Startup.Handlers.Taken.{taken, events-taken}
use tlspxy.Startup.Handlers.{
  sighup, stop_metrics, reload_certs, log_counter, log_transport, stop_http, metrics_handlers,
  reload_handlers, is_http, server_handlers, main_handlers, Running, reload_store, is_terminating,
  run_handler, run_handlers, on_signal, SignalLoop, SignalEvent, arrives, receives, handled, send,
  cancel_root, receive, finish_handlers, on_signal_event, on_signals,
}

module _ {C : Type 0} where
  -- What signals should do: each SIGHUP reloads, the first SIGINT or SIGTERM stops.
  abbrev pub reloaded : List (ℕ × Loader C) → Option (CertStore C) → Option (CertStore C)
  reloaded [] store = store
  reloaded ((s, load) ∷ signals) store =
      reloaded signals (if s == sighup then reload_store load store else store)

  abbrev pub terminates : List (ℕ × Loader C) → Bool
  terminates [] = false
  terminates ((s, load) ∷ signals) = is_terminating s || terminates signals

module _ {C : Type 0} where
  reloaded-append :
      (signals : List (ℕ × Loader C)) (s : ℕ) (load : Loader C) (store : Option (CertStore C))
      → reloaded (signals ++ (s, load) ∷ []) store ≡ (
          if s == sighup
          then reload_store load (reloaded signals store)
          else reloaded signals store)
  reloaded-append [] s load store = refl
  reloaded-append ((t, l) ∷ signals) s load store =
      reloaded-append signals s load (if t == sighup then reload_store l store else store)

  terminates-append :
      (signals : List (ℕ × Loader C)) (s : ℕ) (load : Loader C)
      → terminates (signals ++ (s, load) ∷ []) ≡ (terminates signals || is_terminating s)
  terminates-append [] s load = ground arith
  terminates-append (t ∷ signals) s load = ground (arith, terminates-append signals s load)

-- Whether the HTTP server is what main serves.
abbrev pub serves_http_type : Koanf → Bool
serves_http_type k = if str_eq (k.string "server.type") "tcp" then false else is_http k

abbrev stops : Koanf → List ℕ
stops k =
    (if k.bool "metrics.enable" then stop_metrics ∷ [] else [])
    ++ (if str_eq (k.string "server.type") "tcp"
        then log_counter ∷ []
        else if is_http k
        then log_transport ∷ stop_http ∷ []
        else [])

module _ {C : Type 0} (k : Koanf) (store : Option (CertStore C)) where
  -- SIGHUP only reloads, and only where there are certificates; SIGINT and SIGTERM stop the servers;
  -- no other signal has a handler.
  main_handlers_lem :
      (s : ℕ)
      → (main_handlers k store).handlers s ≡ (
          if s == sighup
          then elim store [ none ↦ [] | some cs ↦ reload_certs ∷ [] ]
          else if is_terminating s
          then stops k
          else [])
  unfolding main_handlers server_handlers reload_handlers metrics_handlers new add_handler add_one
  main_handlers_lem s = elim (Bool-cases (s == sighup)) [
    | inl hup ↦ ground (arith, hup)
    | inr other ↦ ground (arith, other)
  ]

  -- No certificates appear in a program that has none.
  abbrev Fits : Option (CertStore C) → Type 0
  Fits current = store ≡ none → current ≡ none

  -- The program after the handlers of one signal.
  abbrev stepped : Loader C → ℕ → Running C → Running C
  stepped load s m = record m {
    store = if s == sighup then reload_store load m.store else m.store;
    metrics_stopped = is_terminating s && k.bool "metrics.enable" || m.metrics_stopped;
    http_stopped = is_terminating s && serves_http_type k || m.http_stopped;
  }

  on_signal_lem :
      (load : Loader C) (s : ℕ) (m : Running C)
      → Fits m.store
      → on_signal (main_handlers k store) load s m ≡ stepped load s m
  unfolding on_signal run_handlers run_handler
  on_signal_lem load s m fits = elim (Bool-cases (s == sighup)) [
    | inl hup ↦ elim (Option-cases store) [
      | inl bare ↦ ground (arith, main_handlers_lem s, hup, bare, fits bare)
      | inr (cs, given) ↦ ground (arith, main_handlers_lem s, hup, given)
    ]
    | inr other ↦ ground (arith, main_handlers_lem s, other)
  ]

  reload_Fits :
      (load : Loader C) (s : ℕ) (current : Option (CertStore C))
      → Fits current
      → Fits (if s == sighup then reload_store load current else current)
  reload_Fits load s current fits bare = ground (arith, fits bare)

  abbrev pub serving_from : SignalLoop C
  serving_from = record {
    waiting = none;
    handling = none;
    trapped = [];
    dropped = 0;
    program = record {
      store = store;
      cancelled = false;
      metrics_stopped = false;
      http_stopped = false;
    };
  }

  -- The program is what the trapped signals have made of it.
  record IsHandled (l : SignalLoop C) : Type 0 where
    reloads : l.program.store ≡ reloaded l.trapped store
    metrics : l.program.metrics_stopped ≡ (terminates l.trapped && k.bool "metrics.enable")
    http : l.program.http_stopped ≡ (terminates l.trapped && serves_http_type k)
    fits : Fits l.program.store

  finish_handlers-IsHandled :
      (load : Loader C) (handling : Option ℕ) (l : SignalLoop C)
      → IsHandled l
      → IsHandled (finish_handlers (main_handlers k store) load handling l)
  unfolding finish_handlers
  finish_handlers-IsHandled load none l h = h
  finish_handlers-IsHandled load (some s) l h =
      let ran = on_signal_lem load s l.program h.fits in
      record {
        reloads = ground (arith, h.reloads, ran, reloaded-append l.trapped s load store);
        metrics = ground (arith, h.metrics, ran, terminates-append l.trapped s load);
        http = ground (arith, h.http, ran, terminates-append l.trapped s load);
        fits = λ bare. ground (arith, ran, h.fits bare);
      }

  event-IsHandled :
      (e : SignalEvent C) (l : SignalLoop C)
      → IsHandled l
      → IsHandled (on_signal_event (main_handlers k store) e l)
  unfolding on_signal_event send cancel_root receive
  event-IsHandled (arrives s) l h = ground (arith, h, h.fits)
  event-IsHandled receives l h = ground (arith, h, h.fits)
  event-IsHandled (handled load) l h = finish_handlers-IsHandled load l.handling l h

  events-IsHandled :
      (events : List (SignalEvent C)) (l : SignalLoop C)
      → IsHandled l
      → IsHandled (on_signals (main_handlers k store) events l)
  unfolding on_signals
  events-IsHandled [] l h = h
  events-IsHandled (e ∷ events) l h =
      events-IsHandled events (on_signal_event (main_handlers k store) e l) (event-IsHandled e l h)

module _ {C : Type 0} (k : Koanf) (store : Option (CertStore C)) where
  finish_handlers-cancelled :
      (load : Loader C) (handling : Option ℕ) (l : SignalLoop C)
      → IsHandled k store l
      → (finish_handlers (main_handlers k store) load handling l).program.cancelled
        ≡ l.program.cancelled
  unfolding finish_handlers
  finish_handlers-cancelled load none l h = refl
  finish_handlers-cancelled load (some s) l h =
      ground (arith, on_signal_lem k store load s l.program h.fits)

  event-cancelled :
      (e : SignalEvent C) (events : List (SignalEvent C)) (l : SignalLoop C)
      → IsHandled k store l
      → ((on_signal_event (main_handlers k store) e l).program.cancelled
          || ends_root (arrivals events))
        ≡ (l.program.cancelled || ends_root (arrivals (e ∷ events)))
  unfolding on_signal_event send cancel_root receive
  event-cancelled (arrives s) events l h = ground arith
  event-cancelled receives events l h = ground arith
  event-cancelled (handled load) events l h =
      rw (finish_handlers-cancelled load l.handling l h) refl

  events-cancelled :
      (events : List (SignalEvent C)) (l : SignalLoop C)
      → IsHandled k store l
      → (on_signals (main_handlers k store) events l).program.cancelled
        ≡ (l.program.cancelled || ends_root (arrivals events))
  unfolding on_signals
  events-cancelled [] l h = ground arith
  events-cancelled (e ∷ events) l h =
      events-cancelled events (on_signal_event (main_handlers k store) e l)
        (event-IsHandled k store e l h)
      ∙ event-cancelled e events l h

  -- Whatever signals arrive while main serves, and whenever WatchForSignals receives and handles
  -- them: the certificates are reloaded once for each SIGHUP that it has handled, in order, from
  -- what the files held then, and by no other signal; the servers of the metrics, if they are
  -- enabled, and of HTTP, if main serves it, have been stopped exactly if it has handled a SIGINT
  -- or a SIGTERM; but the root context has ended exactly if one has arrived. The signals that its
  -- channel has taken, which are those that it has handled, that it handles and that waits, in
  -- order, are those that arrived while no other one waited to be received, and all others are
  -- counted as dropped.
  pub on_signals-serving :
      (events : List (SignalEvent C))
      → let l = on_signals (main_handlers k store) events (serving_from k store) in
        let m = l.program in
        (m.store ≡ reloaded l.trapped store)
        × (m.metrics_stopped ≡ (terminates l.trapped && k.bool "metrics.enable"))
        × (m.http_stopped ≡ (terminates l.trapped && serves_http_type k))
        × (m.cancelled ≡ ends_root (arrivals events))
        × (kept l ≡ taken false false events)
        × IsPart (kept l) (arrivals events)
        × (length (arrivals events) ≡ length (kept l) + l.dropped)
  on_signals-serving events =
      let start = serving_from k store in
      let h =
        events-IsHandled k store events start
          (record { reloads = refl; metrics = refl; http = refl; fits = λ bare. bare }) in
      let a =
        events-IsAccounted (main_handlers k store) events [] start
          (record { part = part_end; counted = refl }) in
      (
        h.reloads,
        h.metrics,
        h.http,
        events-cancelled events start
            (record { reloads = refl; metrics = refl; http = refl; fits = λ bare. bare }),
        events-taken (main_handlers k store) events start,
        a.part,
        a.counted,
      )
