-- ===== src/Limit/Http/Acquired.antt =====
-- The limit that the hook of main.go keeps.
use tlspxy.Common.{ℕ, ◌≤◌, ◌≡◌, refl, arith, false, List, [], ◌∷◌, length, Bool-cases, inl, inr}
use tlspxy.Limit.Tcp.{remove, has_id}
use tlspxy.Limit.Tcp.Slots.{length-remove}
use tlspxy.Limit.Http.{Hook, new_hook, ConnEvent, state_new, state_closed, conn_state, run_hook}

-- The slots in use are those of the connections that are served, at most as many as the limit.
pub record IsBounded (s : Hook) : Type 0 where
  pub used : s.used ≡ length s.served
  pub within : s.used ≤ s.cap
  pub same : s.acquired ≡ s.served

remove_other : (c : ℕ) (ids : List ℕ) → has_id c ids ≡ false → remove c ids ≡ ids
unfolding remove
remove_other c [] h = refl
remove_other c (j ∷ ids) h = ground (arith, remove_other c ids)

conn_state-IsBounded : (e : ConnEvent) (s : Hook) → IsBounded s → IsBounded (conn_state e s)
unfolding conn_state
conn_state-IsBounded (state_new c) s h = ground arith
conn_state-IsBounded (state_closed c) s h = elim (Bool-cases (has_id c s.served)) [
  | inl there ↦ ground (arith, length-remove c s.served there)
  | inr absent ↦ ground (arith, remove_other c s.served absent)
]

run_hook-keeps :
    (events : List ConnEvent) (s : Hook) → IsBounded s → IsBounded (run_hook conn_state events s)
unfolding run_hook
run_hook-keeps [] s h = h
run_hook-keeps (e ∷ events) s h =
    run_hook-keeps events (conn_state e s) (conn_state-IsBounded e s h)

cap-run_hook : (events : List ConnEvent) (s : Hook) → (run_hook conn_state events s).cap ≡ s.cap
unfolding run_hook conn_state
cap-run_hook [] s = refl
cap-run_hook (state_new c ∷ events) s =
    ground (arith, cap-run_hook events (conn_state (state_new c) s))
cap-run_hook (state_closed c ∷ events) s =
    ground (arith, cap-run_hook events (conn_state (state_closed c) s))

-- Whatever connections open and close, rejected ones too, the ConnState hook of main.go serves at
-- most max_conns at a time, and its slots are exactly those of the served connections.
pub served-run_hook :
    (max_conns : ℕ) (events : List ConnEvent)
    → let s = run_hook conn_state events (new_hook max_conns) in
      (length s.served ≤ max_conns) × (s.used ≡ length s.served) × (s.acquired ≡ s.served)
unfolding new_hook
served-run_hook max_conns events =
    let h = run_hook-keeps events (new_hook max_conns) (ground arith) in
    ground (arith, h, cap-run_hook events (new_hook max_conns))
