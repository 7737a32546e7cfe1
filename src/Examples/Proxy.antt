-- ===== src/Examples/Proxy.antt =====
-- A connection of four bytes, a header of two IPv4 addresses, and counters.
use tlspxy.Common.{
  ◌&&◌, not, ℕ, ◌+◌, ◌≡◌, ◌≢◌, refl, arith, true, false, List, [], ◌∷◌, ◌++◌, none, some, length,
}
use tlspxy.Config.Koanf.{pos}
use tlspxy.Proxy.Counter.{Counter}
use tlspxy.Proxy.Header.{NetText, Addr, tcp_addr, endpoint, proxy_header_v2}
use tlspxy.Proxy.Header.V2.{HasIp, decode_v2, told, decode_v2-proxy_header_v2}
use tlspxy.Proxy.Header.{to4}
use tlspxy.Proxy.Header.V2.{tcp4}
use tlspxy.Proxy.Header.Text.{proxy_header_v1}
use tlspxy.Proxy.Header.V1.{decode_v1, decode_v1-proxy_header_v1}
use tlspxy.Proxy.Pipe.{
  eof, other, WriteResult, Round, PipeState, pipe, write_loop, count, meter, wrote, returned,
  in_read,
}
use tlspxy.Proxy.Pipe.Delivery.{Delivers, read_bytes, pipe-Delivers}
use tlspxy.Proxy.Pipe.Counting.{counted, metered, IsCounter, pipe_in_read}
use tlspxy.Proxy.Pipe.Teardown.{SignalsOnce, Uncancelled}
use tlspxy.Proxy.Pipe.Endings.{Progress, Ordinary, write_loop_total, pipe_loses_last_bytes}

abbrev zero_counter : Counter
zero_counter = record { to = 0; from = 0 }

abbrev net : NetText
net = record {
  split_host_port = λ s. none;
  parse_ip = λ s. none;
  scan_int = λ s. none;
  ip6_text = λ ip. [];
}

abbrev client : Addr
client = tcp_addr (10 ∷ 0 ∷ 0 ∷ 1 ∷ []) (pos 51000)

abbrev listener : Addr
listener = tcp_addr (10 ∷ 0 ∷ 0 ∷ 2 ∷ []) (pos 443)

client_ip : HasIp (endpoint net client)
unfolding endpoint
client_ip = ground arith

listener_ip : HasIp (endpoint net listener)
unfolding endpoint
listener_ip = ground arith

decode_v2-proxy_header_v2_example :
    decode_v2 (proxy_header_v2 net client listener ++ 1 ∷ 2 ∷ [])
    ≡ some (told (endpoint net client) (endpoint net listener), 1 ∷ 2 ∷ [])
decode_v2-proxy_header_v2_example =
    decode_v2-proxy_header_v2 net client listener (1 ∷ 2 ∷ []) client_ip listener_ip

abbrev fresh_pipe : PipeState
fresh_pipe = record {
  delivered = [];
  counter = zero_counter;
  closed_once = false;
  signals = 0;
  warnings = 0;
  errors = 0;
  bytes_sent = 0;
  bytes_received = 0;
  metrics = true;
}

-- Four bytes are read, and written by two Writes.
abbrev moved : Round
moved = record {
  cancelled = false;
  read = record { bytes = 1 ∷ 2 ∷ 3 ∷ 4 ∷ []; error = none; cancelled = false };
  writes =
      record { room = 3; error = none; cancelled = false }
      ∷ record { room = 9; error = none; cancelled = false }
      ∷ [];
}

-- A last byte comes with the end of file.
abbrev last : Round
last = record {
  cancelled = false;
  read = record { bytes = 5 ∷ []; error = some eof; cancelled = false };
  writes = [];
}

abbrev reset_by_peer : Round
reset_by_peer = record {
  cancelled = false;
  read = record { bytes = []; error = some other; cancelled = false };
  writes = [];
}

pipe-Delivers_example :
    Delivers []
      (pipe true (moved ∷ reset_by_peer ∷ []) fresh_pipe).0.delivered
      (read_bytes (moved ∷ reset_by_peer ∷ []))
pipe-Delivers_example = pipe-Delivers true (moved ∷ reset_by_peer ∷ []) fresh_pipe

start_counts : IsCounter zero_counter
start_counts = ground arith

moved_in_read : (pipe true (moved ∷ []) fresh_pipe).1 ≡ in_read
unfolding pipe write_loop count meter
moved_in_read = refl

pipe_in_read_example : (pipe true (moved ∷ []) fresh_pipe).0 ≡ record fresh_pipe {
  delivered = [] ++ read_bytes (moved ∷ []);
  counter = counted true (length (read_bytes (moved ∷ []))) zero_counter;
  bytes_sent = metered (true && fresh_pipe.metrics) (length (read_bytes (moved ∷ []))) 0;
  bytes_received = metered (not true && fresh_pipe.metrics) (length (read_bytes (moved ∷ []))) 0;
}
pipe_in_read_example = pipe_in_read true (moved ∷ []) fresh_pipe start_counts moved_in_read

start_signals : SignalsOnce fresh_pipe
start_signals = ground arith

reset-Uncancelled : Uncancelled (moved ∷ reset_by_peer ∷ [])
reset-Uncancelled = ground arith

reset_returns : (pipe true (moved ∷ reset_by_peer ∷ []) fresh_pipe).1 ≡ returned
unfolding pipe write_loop count meter
reset_returns = refl

last-Ordinary : Ordinary (moved ∷ last ∷ [])
last-Ordinary = ground arith

abbrev two_bytes : List ℕ
two_bytes = 7 ∷ 8 ∷ []

abbrev single_bytes : List WriteResult
single_bytes =
    record { room = 1; error = none; cancelled = false }
    ∷ record { room = 1; error = none; cancelled = false }
    ∷ []

single_bytes-Progress : Progress single_bytes
single_bytes-Progress = ground arith

write_loop_total_example :
    (write_loop two_bytes 0 single_bytes fresh_pipe).1 ≡ wrote (0 + length two_bytes)
write_loop_total_example =
    write_loop_total two_bytes 0 single_bytes fresh_pipe single_bytes-Progress (omega arith)

last_fails : last.read.error ≢ none
last_fails = ground arith

pipe_loses_last_bytes_example :
    let after = pipe true ((moved ∷ []) ++ last ∷ []) fresh_pipe in
    (after.1 ≡ returned)
    × (after.0.delivered ≡ [] ++ read_bytes (moved ∷ []))
    × (after.0.counter ≡ (pipe true (moved ∷ []) fresh_pipe).0.counter)
pipe_loses_last_bytes_example =
    pipe_loses_last_bytes true (moved ∷ []) last fresh_pipe start_counts moved_in_read refl
      last_fails

client_known : endpoint net client ≡ some (10 ∷ 0 ∷ 0 ∷ 1 ∷ [], pos 51000)
unfolding endpoint
client_known = refl

listener_known : endpoint net listener ≡ some (10 ∷ 0 ∷ 0 ∷ 2 ∷ [], pos 443)
unfolding endpoint
listener_known = refl

client_family : to4 (10 ∷ 0 ∷ 0 ∷ 1 ∷ []) ≡ some (10 ∷ 0 ∷ 0 ∷ 1 ∷ [])
unfolding to4
client_family = refl

listener_family : to4 (10 ∷ 0 ∷ 0 ∷ 2 ∷ []) ≡ some (10 ∷ 0 ∷ 0 ∷ 2 ∷ [])
unfolding to4
listener_family = refl

decode_v1-proxy_header_v1_example :
    decode_v1 (proxy_header_v1 net client listener ++ 1 ∷ 2 ∷ [])
    ≡ some (tcp4 (10 ∷ 0 ∷ 0 ∷ 1 ∷ []) (10 ∷ 0 ∷ 0 ∷ 2 ∷ []) 51000 443)
decode_v1-proxy_header_v1_example =
    decode_v1-proxy_header_v1 net client listener (10 ∷ 0 ∷ 0 ∷ 1 ∷ []) (10 ∷ 0 ∷ 0 ∷ 2 ∷ [])
      (10 ∷ 0 ∷ 0 ∷ 1 ∷ []) (10 ∷ 0 ∷ 0 ∷ 2 ∷ []) 51000 443 (1 ∷ 2 ∷ []) client_known listener_known
      client_family listener_family
