-- ===== src/Limit/Http.antt =====
-- The hook http.Server.ConnState of main.go, and that of internal/loadtest/harness.go. `served` are
-- the connections that were not rejected and are not closed: the hooks do not keep them. The server
-- calls a hook with StateNew once for a connection, and once with StateClosed or StateHijacked, for a
-- connection that was rejected too.
pub mod Acquired
pub mod Harness
use tlspxy.Common.{ℕ, ◌+◌, ◌-◌, Bool, true, false, List, [], ◌∷◌, ltb, ◌==◌, if◌then◌else◌, ◌≡◌}
use tlspxy.Limit.Tcp.{remove, has_id}

pub record Hook : Type 0 where
  pub cap : ℕ
  pub used : ℕ
  -- main.go's set of the connections that hold a slot.
  pub acquired : List ℕ
  pub served : List ℕ
  pub rejected : ℕ

unfoldable pub new_hook : ℕ → Hook
new_hook max_conns = record { cap = max_conns; used = 0; acquired = []; served = []; rejected = 0 }

pub data ConnEvent : Type 0 where
  state_new : ℕ → ConnEvent
  state_closed : ℕ → ConnEvent

-- main.go.
unfoldable pub conn_state : ConnEvent → Hook → Hook
conn_state (state_new c) s =
    if ltb s.used s.cap
    then record s { used = s.used + 1; acquired = c ∷ s.acquired; served = c ∷ s.served }
    else record s { rejected = s.rejected + 1 }
conn_state (state_closed c) s =
    let s' = record s { served = remove c s.served } in
    if has_id c s.acquired
    then record s' { acquired = remove c s.acquired; used = s.used - 1 }
    else s'

-- The harness: a slot is given back for every connection that closes, if one is in use.
unfoldable pub harness_conn_state : ConnEvent → Hook → Hook
harness_conn_state (state_new c) s =
    if ltb s.used s.cap
    then record s { used = s.used + 1; served = c ∷ s.served }
    else record s { rejected = s.rejected + 1 }
harness_conn_state (state_closed c) s = record s {
  served = remove c s.served;
  used = if ltb 0 s.used then s.used - 1 else s.used;
}

unfoldable pub run_hook : (ConnEvent → Hook → Hook) → List ConnEvent → Hook → Hook
run_hook hook [] s = s
run_hook hook (e ∷ events) s = run_hook hook events (hook e s)
