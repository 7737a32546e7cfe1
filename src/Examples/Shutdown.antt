-- ===== src/Examples/Shutdown.antt =====
-- A program with certificates that is reloaded and stopped, and one connection that ends after the
-- signal.
use tlspxy.Common.{
  ◌≡◌, refl, String, true, false, ◌+◌, ◌≤◌, ◌==◌, if◌then◌else◌, length, ◌&&◌, List, [], ◌∷◌,
  Option, none, some, ◌⊎◌,
}
use tlspxy.Config.Koanf.{Koanf}
use tlspxy.Tls.CertStore.{CertStore}
use tlspxy.Limit.Tcp.{new_accept_loop, on_accept, on_accept_error, on_done, remove}
use tlspxy.Limit.Tcp.Slots.{Within, IsLimited}
use tlspxy.Service.Signals.{new, add_handler, add_one}
use tlspxy.Startup.Handlers.{
  main_handlers, server_handlers, reload_handlers, metrics_handlers, run_handler, run_handlers,
  on_signal, on_signals, on_signal_event, SignalLoop, SignalEvent, arrives, receives, handled, send,
  cancel_root, receive, finish_handlers,
}
use tlspxy.Startup.Handlers.Taken.{taken}
use tlspxy.Startup.Handlers.Channel.{arrivals, kept, IsPart, ends_root}
use tlspxy.Startup.Handlers.Deliveries.{
  reloaded, terminates, serves_http_type, serving_from, on_signals-serving,
}
use tlspxy.Startup.Shutdown.{
  TcpMain, new_tcp_main, signalled, close_listener, accepts, accept_fails, connection_ends,
  MainRuns, main_stay, main_go, drain_timeout, all_drained, Returns, on_drained,
}
use tlspxy.Startup.Shutdown.Drains.{Returns-drained}
use tlspxy.Startup.Shutdown.Progress.{work, all_moves, all_accepted, GoesOn, MainRuns-Returns}
use tlspxy.Examples.Main.{of_type}

abbrev https_proxy : Koanf
https_proxy = of_type "https"

abbrev one_cert : Option (CertStore String)
one_cert = some (record {
  default_cert = "old";
  certs = [];
  cert_path = "cert.pem";
  key_path = "key.pem";
  sni_entries = [];
})

-- A SIGHUP is handled while another one waits and a SIGTERM arrives: the channel has no room for it.
abbrev hup_hup_term : List (SignalEvent String)
hup_hup_term =
    arrives 1
    ∷ receives
    ∷ arrives 1
    ∷ arrives 15
    ∷ handled (λ cert key. some "new")
    ∷ receives
    ∷ handled (λ cert key. some "newer")
    ∷ []

abbrev after_hup_hup_term : SignalLoop String
unfolding on_signals on_signal_event
after_hup_hup_term =
    on_signals (main_handlers https_proxy one_cert) hup_hup_term (serving_from https_proxy one_cert)

on_signals-serving_example :
    let m = after_hup_hup_term.program in
    (m.store ≡ reloaded after_hup_hup_term.trapped one_cert)
    × (m.metrics_stopped
        ≡ (terminates after_hup_hup_term.trapped && https_proxy.bool "metrics.enable"))
    × (m.http_stopped ≡ (terminates after_hup_hup_term.trapped && serves_http_type https_proxy))
    × (m.cancelled ≡ ends_root (arrivals hup_hup_term))
    × (kept after_hup_hup_term ≡ taken false false hup_hup_term)
    × IsPart (kept after_hup_hup_term) (arrivals hup_hup_term)
    × (length (arrivals hup_hup_term)
        ≡ length (kept after_hup_hup_term) + after_hup_hup_term.dropped)
unfolding after_hup_hup_term
on_signals-serving_example = on_signals-serving https_proxy one_cert hup_hup_term

-- The root context has ended, but the HTTP server has not been stopped, and nothing is left to handle.
term_dropped :
    (after_hup_hup_term.dropped ≡ 1)
    × (after_hup_hup_term.program.cancelled ≡ true)
    × (after_hup_hup_term.program.http_stopped ≡ false)
    × (after_hup_hup_term.waiting ≡ none)
    × (after_hup_hup_term.handling ≡ none)
unfolding after_hup_hup_term on_signals on_signal_event send cancel_root receive finish_handlers
    on_signal main_handlers server_handlers reload_handlers metrics_handlers add_handler add_one new
    run_handlers run_handler
term_dropped = (refl, refl, refl, refl, refl)

abbrev one_served : TcpMain
unfolding new_tcp_main new_accept_loop on_accept
one_served = record (new_tcp_main 1) { loop = on_accept (new_accept_loop 1) }

one_accepted : MainRuns (new_tcp_main 1) one_served
unfolding new_tcp_main new_accept_loop on_accept
one_accepted = main_go main_stay (accepts (new_tcp_main 1) refl refl)

abbrev left_loop : TcpMain
unfolding new_tcp_main new_accept_loop on_accept on_accept_error on_done remove
left_loop = record one_served {
  loop = on_done 1 (on_accept_error true one_served.loop);
  cancelled = true;
}

left_loop_runs : MainRuns (new_tcp_main 1) left_loop
unfolding new_tcp_main new_accept_loop on_accept on_accept_error on_done remove
left_loop_runs =
    main_go
      (main_go (main_go one_accepted (signalled one_served))
        (accept_fails (record one_served { cancelled = true }) refl refl))
      (connection_ends
        (record one_served { loop = on_accept_error true one_served.loop; cancelled = true }) 1
        refl)

left_loop-Returns : Returns left_loop all_drained
unfolding new_tcp_main new_accept_loop on_accept on_accept_error on_done remove
left_loop-Returns = on_drained left_loop refl refl

Returns-drained_example :
    (left_loop.cancelled ≡ true)
    × IsLimited left_loop.loop
    × Within (length left_loop.loop.running) (if 1 == 0 then none else some 1)
    × ((all_drained ≡ drain_timeout) ⊎ ((left_loop.loop.running ≡ []) × (left_loop.loop.used ≡ 0)))
Returns-drained_example = Returns-drained 1 left_loop_runs left_loop-Returns

abbrev ending : TcpMain
ending = record one_served { cancelled = true }

closes : MainRuns ending (record ending { listening = false })
closes = main_go main_stay (close_listener ending refl)

MainRuns-Returns_example :
    (work (record ending { listening = false }) + all_moves closes
      ≤ work ending + all_accepted closes)
    × GoesOn (record ending { listening = false })
MainRuns-Returns_example =
    MainRuns-Returns 1 (main_go one_accepted (signalled one_served)) refl closes
