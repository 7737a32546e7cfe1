-- ===== src/Limit/Http/Harness.antt =====
-- The limit that the hook of internal/loadtest/harness.go does not keep.
use tlspxy.Common.{ℕ, zero, suc, ◌+◌, ◌<◌, ◌≡◌, refl, ◌∙◌, sym, arith, List, [], ◌∷◌, length}
use tlspxy.Limit.Tcp.{remove}
use tlspxy.Limit.Http.{Hook, ConnEvent, state_new, state_closed, harness_conn_state, run_hook}

-- A connection comes and is rejected, its close gives back a slot that it never had, and one more
-- connection comes; this k times over, with ids from n.
abbrev pub churn : ℕ → ℕ → List ConnEvent
churn zero n = []
churn (suc k) n = state_new n ∷ state_closed n ∷ state_new (n + 1) ∷ churn k (n + 2)

-- Every id is below n.
abbrev pub AllBelow : ℕ → List ℕ → Type 0
AllBelow n [] = Unit
AllBelow n (id ∷ ids) = (id < n) × AllBelow n ids

remove_fresh : (n : ℕ) (ids : List ℕ) → AllBelow n ids → remove n ids ≡ ids
unfolding remove
remove_fresh n [] h = refl
remove_fresh n (id ∷ ids) h = ground (arith, remove_fresh n ids h.1)

AllBelow-up : (n : ℕ) (ids : List ℕ) → AllBelow n ids → AllBelow (n + 2) ids
AllBelow-up n [] h = tt
AllBelow-up n (id ∷ ids) h = (omega arith, AllBelow-up n ids h.1)

abbrev round : ℕ → Hook → Hook
round n s =
    harness_conn_state (state_new (n + 1))
      (harness_conn_state (state_closed n) (harness_conn_state (state_new n) s))

round_lem :
    (n : ℕ) (s : Hook)
    → 0 < s.cap
    → s.used ≡ s.cap
    → AllBelow n s.served
    → (round n s).served ≡ (n + 1) ∷ s.served
      × ((round n s).used ≡ s.cap)
      × ((round n s).cap ≡ s.cap)
unfolding harness_conn_state
round_lem n s pos full fresh = ground (arith, remove_fresh n s.served fresh)

-- From a state in which all slots of the harness, at least one, are in use and the ids are below n,
-- k rejected connections that close, each followed by a new connection, raise the number of served
-- connections by k, beyond the limit.
pub length-harness_churn :
    (k n : ℕ) (s : Hook)
    → 0 < s.cap
    → s.used ≡ s.cap
    → AllBelow n s.served
    → length (run_hook harness_conn_state (churn k n) s).served ≡ length s.served + k
unfolding run_hook
length-harness_churn zero n s pos full fresh = omega arith
length-harness_churn (suc k) n s pos full fresh =
    let eqs = round_lem n s pos full fresh in
    let cap' = eqs.2 in
    length-harness_churn k (n + 2) (round n s) (rw cap' pos) (eqs.1 ∙ sym cap')
      (rw eqs.0 (omega arith, AllBelow-up n s.served fresh))
    ∙ rw eqs.0 (omega arith)
