-- ===== src/Proxy/Start/Gate.antt =====
-- When Start of internal/proxy/tcp.go dials the backend, and what it leaves behind when it returns.
use tlspxy.Common.{
  ℕ, ◌+◌, ◌≡◌, arith, Bool, true, false, not, ◌&&◌, ◌||◌, List, [], ◌∷◌, ◌++◌, Option, none, some,
  if◌then◌else◌, refl,
}
use tlspxy.Proxy.Gauge.{inc, dec-inc}
use tlspxy.Proxy.Header.{NetText}
use tlspxy.Proxy.Start.{
  TcpProxy, Network, Effect, handshakes, dials, opened, closes_server, closes_remote, StartState,
  or_timeout, note, enter, leave, send_header, write_header, run_pipes, watch_context, Ending,
  finished, waiting, serve, dial_and_serve, handshake_and_serve, finish, start,
}

abbrev pub count_effects : (Effect → Bool) → List Effect → ℕ
count_effects test [] = 0
count_effects test (e ∷ es) = if test e then 1 + count_effects test es else count_effects test es

abbrev pub is_dial : Effect → Bool
is_dial (dials tls t) = true
is_dial (handshakes t) = false
is_dial opened = false
is_dial closes_server = false
is_dial closes_remote = false

abbrev pub is_close_server : Effect → Bool
is_close_server closes_server = true
is_close_server (handshakes t) = false
is_close_server (dials tls t) = false
is_close_server opened = false
is_close_server closes_remote = false

abbrev pub is_close_remote : Effect → Bool
is_close_remote closes_remote = true
is_close_remote (handshakes t) = false
is_close_remote (dials tls t) = false
is_close_remote opened = false
is_close_remote closes_server = false

abbrev pub is_none : {A : Type 0} → Option A → Bool
is_none none = true
is_none (some a) = false

abbrev unit : (Effect → Bool) → Effect → ℕ
unit test e = if test e then 1 else 0

abbrev pub is_finished : Ending → Bool
is_finished finished = true
is_finished waiting = false

count_effects_last :
    (test : Effect → Bool) (es : List Effect) (e : Effect)
    → count_effects test (es ++ e ∷ []) ≡ count_effects test es + unit test e
count_effects_last test [] e = ground arith
count_effects_last test (f ∷ es) e = ground (arith, count_effects_last test es e)

-- What the header and the pipes leave as it is.
abbrev pub Framed : StartState → StartState → Type 0
Framed s s' = (s'.trace ≡ s.trace) × (s'.active ≡ s.active) × (s'.accepted ≡ s.accepted)

module _ (net : NetText) (p : TcpProxy) (n : Network) where
  pub Framed-send_header : (s : StartState) → Framed s (send_header net p n.header s).0
  unfolding send_header write_header
  Framed-send_header s = ground arith

  pub Framed-run_pipes : (s : StartState) → Framed s (run_pipes n s)
  unfolding run_pipes
  Framed-run_pipes s = (refl, refl, refl)

  -- Whether the goroutine that watches the context closes both connections.
  abbrev pub closes_both : StartState → Bool
  closes_both s = (send_header net p n.header s).1 && n.cancelled && n.watched

  -- Whether the pipes start does not depend on the state.
  closes_both_lem : (s t : StartState) → closes_both s ≡ closes_both t
  unfolding send_header write_header
  closes_both_lem s t = ground arith

  watch_context_lem :
      (test : Effect → Bool) (s : StartState)
      → (count_effects test (watch_context n s).trace
          ≡ count_effects test s.trace
            + (if n.cancelled && n.watched
                then unit test closes_server + unit test closes_remote
                else 0))
        × ((watch_context n s).active ≡ s.active)
        × ((watch_context n s).accepted ≡ s.accepted)
  unfolding watch_context note
  watch_context_lem test s = ground (
    arith,
    count_effects_last test s.trace closes_server,
    count_effects_last test (s.trace ++ closes_server ∷ []) closes_remote,
  )

  -- The effects of serve, for one test; the gauges stay.
  serve_lem :
      (test : Effect → Bool) (s : StartState)
      → (count_effects test (serve net p n s).0.trace
          ≡ count_effects test s.trace
            + (if (send_header net p n.header s).1 then unit test opened else 0)
            + (if closes_both s then unit test closes_server + unit test closes_remote else 0)
            + (if is_finished (serve net p n s).1 then unit test closes_remote else 0))
        × ((serve net p n s).0.active ≡ s.active)
        × ((serve net p n s).0.accepted ≡ s.accepted)
  unfolding serve note
  serve_lem test s =
      let s' = (send_header net p n.header s).0 in
      let piped = run_pipes n (note opened s') in
      ground (
        arith,
        Framed-send_header s,
        Framed-run_pipes (note opened s'),
        watch_context_lem test piped,
        count_effects_last test s'.trace opened,
        count_effects_last test s'.trace closes_remote,
        count_effects_last test (watch_context n piped).trace closes_remote,
      )

  abbrev dialling : Effect
  dialling = dials p.remote_tls (or_timeout p.dial_timeout 30000000000)

  abbrev handshaking : Effect
  handshaking = handshakes (or_timeout p.handshake_timeout 10000000000)

  -- The same of dial_and_serve, for a test that does not hold of the opening.
  dial_lem :
      (test : Effect → Bool) (s : StartState)
      → test opened ≡ false
      → let r = dial_and_serve net p n s in
        (count_effects test r.0.trace
          ≡ count_effects test s.trace
            + unit test dialling
            + (if is_none n.dial && closes_both s
                then unit test closes_server + unit test closes_remote
                else 0)
            + (if is_none n.dial && is_finished r.1 then unit test closes_remote else 0))
        × (r.0.active ≡ s.active)
        × (r.0.accepted ≡ s.accepted)
  unfolding dial_and_serve note
  dial_lem test s no_opening = ground (
    arith,
    serve_lem test (note dialling s),
    closes_both_lem s (note dialling s),
    count_effects_last test s.trace dialling,
  )

  abbrev passes : Bool
  passes = not p.server_tls || n.handshake

  handshake_lem :
      (test : Effect → Bool) (s : StartState)
      → test opened ≡ false
      → test handshaking ≡ false
      → let r = handshake_and_serve net p n s in
        (count_effects test r.0.trace
          ≡ count_effects test s.trace
            + (if passes then unit test dialling else 0)
            + (if passes && is_none n.dial && closes_both s
                then unit test closes_server + unit test closes_remote
                else 0)
            + (if passes && is_none n.dial && is_finished r.1 then unit test closes_remote else 0))
        × (r.0.active ≡ s.active)
        × (r.0.accepted ≡ s.accepted)
  unfolding handshake_and_serve note
  handshake_lem test s no_opening no_handshake = ground (
    arith,
    dial_lem test (note handshaking s) no_opening,
    dial_lem test s no_opening,
    closes_both_lem s (note handshaking s),
    count_effects_last test s.trace handshaking,
  )

  start_lem :
      (test : Effect → Bool) (s : StartState)
      → test opened ≡ false
      → test handshaking ≡ false
      → let r = start net p n s in
        (count_effects test r.0.trace
          ≡ count_effects test s.trace
            + (if passes then unit test dialling else 0)
            + (if passes && is_none n.dial && closes_both s
                then unit test closes_server + unit test closes_remote
                else 0)
            + (if passes && is_none n.dial && is_finished r.1 then unit test closes_remote else 0)
            + (if is_finished r.1 then unit test closes_server else 0))
        × (r.0.active
            ≡ (if s.link.metrics && not (is_finished r.1) then inc s.active else s.active))
        × (r.0.accepted ≡ (if s.link.metrics then s.accepted + 1 else s.accepted))
  unfolding start enter finish leave note
  start_lem test s no_opening no_handshake =
      let r = handshake_and_serve net p n (enter s) in
      ground (
        arith,
        handshake_lem test (enter s) no_opening no_handshake,
        closes_both_lem s (enter s),
        count_effects_last test r.0.trace closes_server,
        dec-inc s.active,
      )

  -- Start dials the backend exactly once where the listener has no TLS or the client's handshake
  -- succeeds, and else not at all.
  pub start-dials :
      (s : StartState)
      → count_effects is_dial (start net p n s).0.trace
        ≡ count_effects is_dial s.trace + (if not p.server_tls || n.handshake then 1 else 0)
  start-dials s = ground (arith, start_lem is_dial s refl refl)

  -- When Start returns it has closed the client's connection once, and the backend's once if it was
  -- dialled with success, and the gauge of active connections is as before; while it waits, it has
  -- closed nothing, and the gauge is one higher where metrics are on. The goroutine that watches
  -- the context closes both once more, exactly where the pipes were started, the context has ended
  -- and that goroutine has not received the ErrorSignal before.
  pub start-closes :
      (s : StartState)
      → let r = start net p n s in
        let dialled = (not p.server_tls || n.handshake) && is_none n.dial in
        (count_effects is_close_server r.0.trace
          ≡ count_effects is_close_server s.trace
            + (if is_finished r.1 then 1 else 0)
            + (if dialled && closes_both s then 1 else 0))
        × (count_effects is_close_remote r.0.trace
            ≡ count_effects is_close_remote s.trace
              + (if dialled && is_finished r.1 then 1 else 0)
              + (if dialled && closes_both s then 1 else 0))
        × (r.0.active
            ≡ (if s.link.metrics && not (is_finished r.1) then inc s.active else s.active))
        × (r.0.accepted ≡ (if s.link.metrics then s.accepted + 1 else s.accepted))
  start-closes s =
      ground (arith, start_lem is_close_server s refl refl, start_lem is_close_remote s refl refl)
