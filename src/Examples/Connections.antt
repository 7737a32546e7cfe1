-- ===== src/Examples/Connections.antt =====
-- A TLS connection that is proxied with version 2 of the PROXY protocol, and an HTTP exchange.
use tlspxy.Common.{
  ℕ, ◌+◌, ◌≡◌, refl, arith, true, false, not, ◌&&◌, ◌||◌, List, [], ◌∷◌, ◌++◌, none, some, length,
  if◌then◌else◌,
}
use tlspxy.Config.Koanf.{pos}
use tlspxy.Proxy.Gauge.{inc}
use tlspxy.Proxy.Counter.{u64}
use tlspxy.Proxy.Header.{NetText, tcp_addr, endpoint}
use tlspxy.Proxy.Header.V2.{HasIp, decode_v2, told}
use tlspxy.Proxy.Pipe.{eof, Round}
use tlspxy.Proxy.Pipe.Delivery.{read_bytes}
use tlspxy.Proxy.Start.{TcpProxy, Network, StartState, start}
use tlspxy.Proxy.Start.Gate.{
  count_effects, is_close_server, is_close_remote, is_none, is_finished, closes_both, start-closes,
}
use tlspxy.Proxy.Start.Wire.{decode_v2-start}
use tlspxy.Proxy.Transport.{Transport, Body, Exchange, read_bodies, close_response, round_trip}
use tlspxy.Proxy.Transport.Bodies.{round_trip-received}
use tlspxy.Proxy.Rewrite.{Request, RewriteOps, values, join_values}
use tlspxy.Proxy.Rewrite.Forwarding.{sent_values, rewrite-forwards}

abbrev pub net : NetText
net = record {
  split_host_port = λ s. none;
  parse_ip = λ s. none;
  scan_int = λ s. none;
  ip6_text = λ ip. [];
}

abbrev pub proxied : TcpProxy
proxied = record {
  server_tls = true;
  remote_tls = false;
  handshake_timeout = pos 0;
  dial_timeout = pos 5;
  proxy_proto = "v2";
  remote_addr = tcp_addr (10 ∷ 0 ∷ 0 ∷ 1 ∷ []) (pos 51000);
  local_addr = tcp_addr (10 ∷ 0 ∷ 0 ∷ 2 ∷ []) (pos 443);
}

-- Two bytes go to the backend, and the client closes.
abbrev request_bytes : Round
request_bytes = record {
  cancelled = false;
  read = record { bytes = 7 ∷ 8 ∷ []; error = none; cancelled = false };
  writes = record { room = 9; error = none; cancelled = false } ∷ [];
}

abbrev client_closes : Round
client_closes = record {
  cancelled = false;
  read = record { bytes = []; error = some eof; cancelled = false };
  writes = [];
}

abbrev pub network : Network
network = record {
  handshake = true;
  dial = none;
  header = record { room = 99; error = none; cancelled = false };
  forward = request_bytes ∷ client_closes ∷ [];
  backward = [];
  cancelled = false;
  watched = false;
}

abbrev fresh : StartState
fresh = record {
  link = record {
    delivered = [];
    counter = record { to = 0; from = 0 };
    closed_once = false;
    signals = 0;
    warnings = 0;
    errors = 0;
    bytes_sent = 0;
    bytes_received = 0;
    metrics = true;
  };
  received = [];
  trace = [];
  active = pos 3;
  accepted = 8;
}

-- The context ends, and its goroutine closes both connections.
abbrev stopping : Network
stopping = record network { cancelled = true; watched = true }

start-closes_example :
    let r = start net proxied stopping fresh in
    let dialled = (not true || true) && is_none stopping.dial in
    (count_effects is_close_server r.0.trace
      ≡ 0
        + (if is_finished r.1 then 1 else 0)
        + (if dialled && closes_both net proxied stopping fresh then 1 else 0))
    × (count_effects is_close_remote r.0.trace
        ≡ 0
          + (if dialled && is_finished r.1 then 1 else 0)
          + (if dialled && closes_both net proxied stopping fresh then 1 else 0))
    × (r.0.active ≡ (if true && not (is_finished r.1) then inc (pos 3) else pos 3))
    × (r.0.accepted ≡ (if true then 8 + 1 else 8))
start-closes_example = start-closes net proxied stopping fresh

client_ip : HasIp (endpoint net proxied.remote_addr)
unfolding endpoint
client_ip = ground arith

listener_ip : HasIp (endpoint net proxied.local_addr)
unfolding endpoint
listener_ip = ground arith

decode_v2-start_example :
    (sent : List ℕ) × (left : List ℕ) × (decode_v2
        (start net proxied network fresh).0.link.delivered
      ≡ some (told (endpoint net proxied.remote_addr) (endpoint net proxied.local_addr), sent))
    × (sent ++ left ≡ read_bytes network.forward)
decode_v2-start_example =
    decode_v2-start net proxied network fresh refl refl refl refl refl client_ip listener_ip

abbrev exchange : Exchange
exchange = record { reads = 2 ∷ 2 ∷ []; closes = true; response = some (4 ∷ 5 ∷ 6 ∷ []) }

abbrev transport : Transport
transport = record {
  bytes_to = 1;
  bytes_from = 2;
  show_content = true;
  metrics = true;
  errors = 0;
  bytes_sent = 0;
  bytes_received = 5;
}

round_trip-received_example :
    let r = round_trip exchange (some (1 ∷ 2 ∷ 3 ∷ [])) transport in
    (body : Body) × (left : List ℕ) × (r.1 ≡ some body)
    × ((read_bodies (2 ∷ []) body).0 ++ left ≡ 4 ∷ 5 ∷ 6 ∷ [])
    × ((close_response (read_bodies (2 ∷ []) body).1 r.0).bytes_from
        ≡ u64 (2 + length (read_bodies (2 ∷ []) body).0))
    × ((close_response (read_bodies (2 ∷ []) body).1 r.0).bytes_received
        ≡ (if true then 5 + length (read_bodies (2 ∷ []) body).0 else 5))
round_trip-received_example =
    round_trip-received exchange (some (1 ∷ 2 ∷ 3 ∷ [])) transport (4 ∷ 5 ∷ 6 ∷ []) (2 ∷ []) refl

abbrev rewriting : RewriteOps
rewriting = record { route = λ target url. target; split_host = λ addr. some "10.0.0.1" }

abbrev inbound : Request
inbound = record {
  url = "/";
  host = "a.test";
  remote_addr = "10.0.0.1:51000";
  tls = true;
  headers = ("X-Forwarded-For", "6.6.6.6" ∷ []) ∷ [];
}

rewrite-forwards_example :
    (sent_values rewriting "http://b" "b" inbound inbound false "X-Forwarded-For"
      ≡ (if false
          then join_values (values "X-Forwarded-For" inbound.headers ++ "10.0.0.1" ∷ [])
          else "10.0.0.1")
        ∷ [])
    × (sent_values rewriting "http://b" "b" inbound inbound false "X-Real-IP" ≡ "10.0.0.1" ∷ [])
    × (sent_values rewriting "http://b" "b" inbound inbound false "X-Forwarded-Proto"
        ≡ (if true then "https" else "http") ∷ [])
    × (sent_values rewriting "http://b" "b" inbound inbound false "X-Forwarded-Host"
        ≡ "a.test" ∷ [])
rewrite-forwards_example =
    rewrite-forwards rewriting "http://b" "b" inbound inbound false "10.0.0.1" refl
