-- ===== src/Proxy/Start.antt =====
-- Start of internal/proxy/tcp.go: the life of one TCP connection. What the network does is given. The
-- two pipes share only counters and CloseOnce, so that they run here one after the other, each with
-- its own destination.
pub mod Gate
pub mod Wire
pub mod Operations
use tlspxy.Common.{
  ℕ, zero, suc, ◌+◌, ◌-◌, String, str_eq, Bool, true, false, ◌||◌, ◌&&◌, List, [], ◌∷◌, ◌++◌,
  Option, none, some, ◌==◌, ltb, length, take, if◌then◌else◌,
}
use tlspxy.Common.Result.{Result, ok, err}
use tlspxy.Config.Koanf.{ℤ, pos, negsuc}
use tlspxy.Proxy.Gauge.{inc, dec}
use tlspxy.Proxy.Header.{NetText, Addr}
use tlspxy.Proxy.Header.Text.{proxy_header}
use tlspxy.Proxy.Pipe.{IoError, other, WriteResult, Round, PipeState, signal, report, pipe}

-- The fields of TCPProxy that Start reads: whether ServerConn is a *tls.Conn, whether RemoteTLSConf is
-- set, and the addresses of ServerConn.
pub record TcpProxy : Type 0 where
  pub server_tls : Bool
  pub remote_tls : Bool
  pub handshake_timeout : ℤ
  pub dial_timeout : ℤ
  pub proxy_proto : String
  pub remote_addr : Addr
  pub local_addr : Addr

-- What the network does: whether the client's handshake succeeds, the error of the dial, the Write of
-- the header, the rounds of the two pipes, whether the context ends, and whether the goroutine that
-- watches it then closes the connections: it does not where it has received the ErrorSignal first.
pub record Network : Type 0 where
  pub handshake : Bool
  pub dial : Option IoError
  pub header : WriteResult
  pub forward : List Round
  pub backward : List Round
  pub cancelled : Bool
  pub watched : Bool

-- What is done to the two connections, in order. Times are in nanoseconds.
pub data Effect : Type 0 where
  handshakes : ℕ → Effect
  dials : Bool → ℕ → Effect
  opened : Effect
  closes_server : Effect
  closes_remote : Effect

-- The state of the connection's goroutines with the backend as destination, what the client has
-- received, the trace, and the metrics ConnectionsActive and ConnectionsTotal.
pub record StartState : Type 0 where
  pub link : PipeState
  pub received : List ℕ
  pub trace : List Effect
  pub active : ℤ
  pub accepted : ℕ

-- `if t <= 0 { t = fallback }`.
unfoldable pub or_timeout : ℤ → ℕ → ℕ
or_timeout (pos zero) fallback = fallback
or_timeout (pos (suc n)) fallback = suc n
or_timeout (negsuc n) fallback = fallback

unfoldable pub note : Effect → StartState → StartState
note e s = record s { trace = s.trace ++ e ∷ [] }

-- The gauges at the start, and their deferred counterpart.
unfoldable pub enter : StartState → StartState
enter s =
    if s.link.metrics then record s { active = inc s.active; accepted = s.accepted + 1 } else s

unfoldable pub leave : Bool → StartState → StartState
leave counted s = if counted then record s { active = dec s.active } else s

-- The Write of the header, which is written whole where Write has no error.
unfoldable pub write_header : List ℕ → WriteResult → StartState → StartState × Bool
write_header header w s = elim w.error [
  | none ↦ (record s { link = record s.link { delivered = s.link.delivered ++ header } }, true)
  | some e ↦ (
    record s {
      link = report e (record s.link { delivered = s.link.delivered ++ take w.room header });
    },
    false,
  )
]

-- `if p.ProxyProto != "" { … }`: false where Start returns. An error of ProxyHeader is reported as any
-- other.
unfoldable pub send_header : NetText → TcpProxy → WriteResult → StartState → StartState × Bool
send_header net p w s =
    if str_eq p.proxy_proto ""
    then (s, true)
    else elim (proxy_header net p.proxy_proto p.remote_addr p.local_addr) [
      | err e ↦ (record s { link = report other s.link }, false)
      | ok header ↦ if ltb 0 (length header) then write_header header w s else (s, true)
    ]

-- Both pipes.
unfoldable pub run_pipes : Network → StartState → StartState
run_pipes n s =
    let sent = (pipe true n.forward s.link).0 in
    let answered = (pipe false n.backward (record sent { delivered = s.received })).0 in
    record s {
      link = record answered { delivered = sent.delivered };
      received = answered.delivered;
    }

pub data Ending : Type 0 where
  finished : Ending
  waiting : Ending

-- The goroutine that watches the context. In the trace its closes stand before those of Start, but the
-- two run beside each other.
unfoldable pub watch_context : Network → StartState → StartState
watch_context n s =
    if n.cancelled && n.watched then note closes_remote (note closes_server s) else s

-- From the dialled backend on. The select ends by the signal or by the context.
unfoldable pub serve : NetText → TcpProxy → Network → StartState → StartState × Ending
serve net p n s =
    let (s', goes_on) = send_header net p n.header s in
    let s'' = run_pipes n (note opened s') in
    if goes_on
    then (if n.cancelled || ltb 0 s''.link.signals
        then (note closes_remote (watch_context n s''), finished)
        else (s'', waiting))
    else (note closes_remote s', finished)

-- From the handshake on.
unfoldable pub dial_and_serve : NetText → TcpProxy → Network → StartState → StartState × Ending
dial_and_serve net p n s =
    let s' = note (dials p.remote_tls (or_timeout p.dial_timeout 30000000000)) s in
    elim n.dial [
      | some e ↦ (record s' { link = report e s'.link }, finished)
      | none ↦ serve net p n s'
    ]

-- The handshake comes first where the listener has TLS.
unfoldable pub handshake_and_serve : NetText → TcpProxy → Network → StartState → StartState × Ending
handshake_and_serve net p n s =
    let s' = note (handshakes (or_timeout p.handshake_timeout 10000000000)) s in
    if p.server_tls
    then (if n.handshake
        then dial_and_serve net p n s'
        else (record s' { link = signal s'.link }, finished))
    else dial_and_serve net p n s

-- The deferred calls, where Start returns; whether the gauge is among them was decided at the start.
unfoldable pub finish : Bool → StartState × Ending → StartState × Ending
finish counted (s, finished) = (leave counted (note closes_server s), finished)
finish counted (s, waiting) = (s, waiting)

-- Start.
unfoldable pub start : NetText → TcpProxy → Network → StartState → StartState × Ending
start net p n s = finish s.link.metrics (handshake_and_serve net p n (enter s))
