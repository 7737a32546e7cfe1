-- ===== src/Proxy/Counter.antt =====
-- Counter of internal/proxy/tcp.go, shared by all connections: two uint64 that are added to
-- atomically, so that any interleaving of the adders is a list of adds.
use tlspxy.Common.{ℕ, ◌+◌, ◌%◌, ◌^◌, ◌≡◌, arith, List, [], ◌∷◌, ◌<◌}

pub record Counter : Type 0 where
  pub to : ℕ
  pub from : ℕ

abbrev pub u64 : ℕ → ℕ
u64 n = n % 2 ^ 64

-- Counter.To, From and Total.
unfoldable pub add_to : ℕ → Counter → Counter
add_to b p = record p { to = u64 (p.to + b) }

unfoldable pub add_from : ℕ → Counter → Counter
add_from b p = record p { from = u64 (p.from + b) }

unfoldable pub total : Counter → ℕ × ℕ
total p = (p.to, p.from)

-- InterruptHandler: what it logs as sent and as received.
unfoldable pub interrupt_handler : Counter → ℕ × ℕ
unfolding total
interrupt_handler p = total p

-- One add by one goroutine.
pub data Add : Type 0 where
  sent : ℕ → Add
  received : ℕ → Add

unfoldable pub run_add : Add → Counter → Counter
unfolding add_to add_from
run_add (sent b) p = add_to b p
run_add (received b) p = add_from b p

unfoldable pub run_adds : List Add → Counter → Counter
unfolding run_add
run_adds [] p = p
run_adds (a ∷ adds) p = run_adds adds (run_add a p)

abbrev pub sum_sent : List Add → ℕ
sum_sent [] = 0
sum_sent (sent b ∷ adds) = b + sum_sent adds
sum_sent (received b ∷ adds) = sum_sent adds

abbrev pub sum_received : List Add → ℕ
sum_received [] = 0
sum_received (sent b ∷ adds) = sum_received adds
sum_received (received b ∷ adds) = b + sum_received adds

-- However the adds of all goroutines interleave, the counter ends at what was sent and what was
-- received in total, mod 2^64.
pub total-run_adds :
    (adds : List Add) (p : Counter)
    → p.to < 2 ^ 64
    → p.from < 2 ^ 64
    → total (run_adds adds p) ≡ (u64 (p.to + sum_sent adds), u64 (p.from + sum_received adds))
unfolding total run_adds
total-run_adds [] p ht hf = ground arith
total-run_adds (sent b ∷ adds) p ht hf = ground (arith, total-run_adds adds (add_to b p))
total-run_adds (received b ∷ adds) p ht hf = ground (arith, total-run_adds adds (add_from b p))
