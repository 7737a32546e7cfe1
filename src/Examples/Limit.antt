-- ===== src/Examples/Limit.antt =====
-- Two connections under a limit of one.
use tlspxy.Common.{◌≤◌, ◌≡◌, refl, [], ◌∷◌, none, some, length, ◌==◌, if◌then◌else◌}
use tlspxy.Limit.Tcp.{AcceptLoop, new_accept_loop, on_accept, Runs, here, next, accept}
use tlspxy.Limit.Tcp.Slots.{IsLimited, Runs-IsLimited}
use tlspxy.Limit.Http.{new_hook, conn_state, run_hook, state_new, state_closed}
use tlspxy.Limit.Http.Acquired.{served-run_hook}

abbrev one_served : AcceptLoop
unfolding new_accept_loop on_accept
one_served = on_accept (new_accept_loop 1)

two_accepts : Runs (new_accept_loop 1) (on_accept one_served)
unfolding new_accept_loop on_accept
two_accepts = next (next here (accept (new_accept_loop 1) refl)) (accept one_served refl)

Runs-IsLimited_example :
    IsLimited (on_accept one_served)
    × ((on_accept one_served).cap ≡ (if 1 == 0 then none else some 1))
Runs-IsLimited_example = Runs-IsLimited 1 two_accepts

served-run_hook_example :
    let s = run_hook conn_state (state_new 4 ∷ state_new 5 ∷ state_closed 5 ∷ []) (new_hook 1) in
    (length s.served ≤ 1) × (s.used ≡ length s.served) × (s.acquired ≡ s.served)
served-run_hook_example = served-run_hook 1 (state_new 4 ∷ state_new 5 ∷ state_closed 5 ∷ [])
