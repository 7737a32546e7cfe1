-- ===== src/Loadtest/Generator.antt =====
-- TCPGenerator and HTTPGenerator of internal/loadtest/generator.go. What the network does in a round of a
-- worker is given; a worker is the operations that it makes on the shared Stats, and those of the
-- workers, which run concurrently, interleave in any order.
pub mod Counts
pub mod TcpRuns
pub mod HttpRuns
use Prim.Native.Nat.{min}
use tlspxy.Common.{
  ℕ, zero, suc, ◌+◌, ◌-◌, String, str_append, Bool, true, false, List, [], ◌∷◌, ◌++◌, map, Option,
  none, some, ltb, if◌then◌else◌,
}
use tlspxy.Common.Result.{Result, ok, err}
use tlspxy.Config.Koanf.{ℤ, pos, negsuc}
use tlspxy.Loadtest.Stats.{Op, connect, round_trip, success, error, bytes}

abbrev pub default_payload_size : ℕ
default_payload_size = 1024

-- The payload of Run, for TCP and for HTTP.
unfoldable pub tcp_size : ℤ → ℕ
tcp_size (pos zero) = default_payload_size
tcp_size (pos (suc n)) = suc n
tcp_size (negsuc n) = default_payload_size

unfoldable pub http_size : ℤ → ℕ
http_size (pos n) = n
http_size (negsuc n) = 0

-- A call of Read: the bytes that come, of which it gives what has room, and its error.
abbrev pub Read : Type 0
Read = ℕ × Option String

pub record TcpRound : Type 0 where
  -- The error of the dial, or how long it took.
  pub dial : Result String ℕ
  pub write : Option String
  pub reads : List Read
  pub latency : ℕ

pub data ReadEnd : Type 0 where
  all_read : ℕ → ReadEnd
  read_failed : String → ReadEnd
  waiting : ReadEnd

-- The loop `for received < len(payload)`, where len is the length of the payload and of the buffer.
unfoldable pub read_loop : ℕ → ℕ → List Read → ReadEnd
read_loop len received [] = if ltb received len then waiting else all_read received
read_loop len received (r ∷ reads) =
    let rest = read_loop len (received + min r.0 (len - received)) reads in
    if ltb received len
    then elim r.1 [ some e ↦ read_failed e | none ↦ rest ]
    else all_read received

-- A round after the dial that took `d`, by the end of its reads.
unfoldable pub tcp_reads : ℕ → ℕ → ℕ → ReadEnd → List Op × Bool
tcp_reads len d latency (all_read received) =
    (connect d ∷ round_trip latency ∷ bytes len received ∷ success ∷ [], true)
tcp_reads len d latency (read_failed e) = (connect d ∷ error (str_append "read: " e) ∷ [], true)
tcp_reads len d latency waiting = (connect d ∷ [], false)

-- The operations of a round, and whether it ends.
unfoldable pub tcp_round : ℕ → TcpRound → List Op × Bool
unfolding read_loop tcp_reads
tcp_round len r = elim r.dial [
  | err e ↦ (error (str_append "dial: " e) ∷ [], true)
  | ok d ↦ elim r.write [
    | some e ↦ (connect d ∷ error (str_append "write: " e) ∷ [], true)
    | none ↦ tcp_reads len d r.latency (read_loop len 0 r.reads)
  ]
]

-- tcpWorker, over the rounds that it begins before the context ends, and whether it returns.
unfoldable pub tcp_worker : ℕ → List TcpRound → List Op × Bool
unfolding tcp_round
tcp_worker len [] = ([], true)
tcp_worker len (r ∷ rounds) =
    let rest = tcp_worker len rounds in
    let here = tcp_round len r in if here.1 then (here.0 ++ rest.0, rest.1) else here

-- A round of httpWorker. The flag of an error is `ctx.Err() != nil`; a response has the two times that
-- pass since the start, and the length of its body.
pub data HttpRound : Type 0 where
  request_failed : String → HttpRound
  do_failed : String → Bool → HttpRound
  body_failed : String → Bool → HttpRound
  responded : ℕ → ℕ → ℕ → HttpRound

unfoldable pub http_method : ℕ → String
http_method len = if ltb 0 len then "POST" else "GET"

-- httpWorker.
unfoldable pub http_worker : ℕ → List HttpRound → List Op
http_worker len [] = []
http_worker len (request_failed e ∷ rounds) =
    error (str_append "request: " e) ∷ http_worker len rounds
http_worker len (do_failed e true ∷ rounds) = []
http_worker len (do_failed e false ∷ rounds) = error (str_append "do: " e) ∷ http_worker len rounds
http_worker len (body_failed e true ∷ rounds) = []
http_worker len (body_failed e false ∷ rounds) =
    error (str_append "read body: " e) ∷ http_worker len rounds
http_worker len (responded trip since received ∷ rounds) =
    round_trip trip ∷ connect since ∷ bytes len received ∷ success ∷ http_worker len rounds

-- Run, of a generator of each kind: what each of its workers does, where each has its rounds.
unfoldable pub tcp_run : ℤ → List (List TcpRound) → List (List Op)
tcp_run payload_size workers = map (λ rounds. (tcp_worker (tcp_size payload_size) rounds).0) workers

unfoldable pub http_run : ℤ → List (List HttpRound) → List (List Op)
http_run payload_size workers = map (http_worker (http_size payload_size)) workers
