-- ===== src/Examples/Traffic.antt =====
-- Two connections at the same time: one whose backend refuses it, and one that is served.
use tlspxy.Common.{◌≡◌, refl, true, false, List, [], ◌∷◌, some, length, if◌then◌else◌}
use tlspxy.Common.Merges.{stop, left, right, alone, Interleaved, thread, no_thread, run_all}
use tlspxy.Config.Koanf.{pos}
use tlspxy.Proxy.Counter.{u64, interrupt_handler}
use tlspxy.Proxy.Pipe.{other}
use tlspxy.Proxy.Pipe.Operations.{
  warns, counts_error, signals, counts, meters, report_ops, fail_ops, write_ops, pipe_ops,
}
use tlspxy.Proxy.Start.{TcpProxy, Network}
use tlspxy.Proxy.Start.Operations.{
  ConnOp, enters, leaves, shares, run_conn_op, header_ops, dial_ops, first_ops, ConnTrace, quits,
  serves,
}
use tlspxy.Proxy.Start.Operations.Serial.{Connection, Traces, no_connection, connection}
use tlspxy.Proxy.Start.Operations.Sums.{total_moved}
use tlspxy.Proxy.Start.Operations.Totals.{still_open, no_traffic, interrupt_handler-run_all}
use tlspxy.Examples.Connections.{net, proxied, network}

abbrev pub plain : TcpProxy
plain = record proxied { proxy_proto = "" }

abbrev pub refusing : Network
refusing = record network { dial = some other }

abbrev pub refused_ops : List ConnOp
refused_ops = enters ∷ shares warns ∷ shares counts_error ∷ shares signals ∷ leaves ∷ []

abbrev served_ops : List ConnOp
served_ops = enters ∷ shares (counts true 2) ∷ shares (meters true 2) ∷ shares signals ∷ leaves ∷ []

pub refused : ConnTrace net plain refusing refused_ops
unfolding first_ops dial_ops report_ops
refused = quits refl

served : ConnTrace net plain network served_ops
unfolding first_ops dial_ops header_ops report_ops pipe_ops write_ops fail_ops
served = serves refl (alone (pipe_ops true network.forward)) (left (left (left (right stop))))

abbrev connections : List Connection
connections = (plain, refusing) ∷ (plain, network) ∷ []

traced : Traces net connections (refused_ops ∷ served_ops ∷ [])
traced = connection refused (connection served no_connection)

-- The second connection comes first, and is counted while the first one is refused.
abbrev traffic : List ConnOp
traffic =
    enters
    ∷ enters
    ∷ shares warns
    ∷ shares (counts true 2)
    ∷ shares counts_error
    ∷ shares signals
    ∷ shares (meters true 2)
    ∷ leaves
    ∷ shares signals
    ∷ leaves
    ∷ []

interleaved : Interleaved (refused_ops ∷ served_ops ∷ []) traffic
interleaved =
    thread (right (left (left (right (left (left (right (left (right (right stop))))))))))
      (thread (alone served_ops) no_thread)

interrupt_handler-run_all_example :
    let sh = run_all run_conn_op traffic (no_traffic true) in
    let sent = total_moved net true connections in
    let received = total_moved net false connections in
    (interrupt_handler sh.counter ≡ (u64 sent, u64 received))
    × (sh.bytes_sent ≡ (if true then sent else 0))
    × (sh.bytes_received ≡ (if true then received else 0))
    × (sh.active ≡ pos (if true then still_open net connections else 0))
    × (sh.accepted ≡ (if true then length connections else 0))
interrupt_handler-run_all_example = interrupt_handler-run_all true traced interleaved

two_sent : total_moved net true connections ≡ 2
unfolding first_ops dial_ops header_ops write_ops
two_sent = refl
