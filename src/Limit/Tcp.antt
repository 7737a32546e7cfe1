-- ===== src/Limit/Tcp.antt =====
-- The accept loop of main.go for TCP. `sem` is a channel of capacity maxconns: a slot is taken when a
-- connection is accepted, and given back when its goroutine ends. Connections are known by the ids
-- that the loop gives them.
pub mod Slots
use tlspxy.Common.{
  ℕ, ◌+◌, ◌-◌, Bool, true, false, List, [], ◌∷◌, Option, none, some, ltb, ◌==◌, if◌then◌else◌, ◌≡◌,
}

pub record AcceptLoop : Type 0 where
  -- cap(sem); `none` where there is no limit.
  pub cap : Option ℕ
  -- len(sem).
  pub used : ℕ
  pub conn_id : ℕ
  -- The connections whose goroutines run, the newest first.
  pub running : List ℕ
  pub rejected : ℕ
  -- wg's counter.
  pub waiting : ℕ
  pub accepting : Bool

-- `if maxConns := …; maxConns > 0 { sem = make(chan struct{}, maxConns) }`, for what is no negative
-- number.
unfoldable pub new_accept_loop : ℕ → AcceptLoop
new_accept_loop max_conns = record {
  cap = if max_conns == 0 then none else some max_conns;
  used = 0;
  conn_id = 0;
  running = [];
  rejected = 0;
  waiting = 0;
  accepting = true;
}

abbrev pub start_connection : AcceptLoop → AcceptLoop
start_connection s = record s {
  conn_id = s.conn_id + 1;
  running = (s.conn_id + 1) ∷ s.running;
  waiting = s.waiting + 1;
}

-- Accept returns a connection: it is closed at once where the channel is full.
unfoldable pub on_accept : AcceptLoop → AcceptLoop
on_accept s = elim s.cap [
  | none ↦ start_connection s
  | some n ↦
      if ltb s.used n
      then start_connection (record s { used = s.used + 1 })
      else record s { rejected = s.rejected + 1 }
]

-- Accept fails: the loop ends if the context has ended, and goes on if not.
unfoldable pub on_accept_error : Bool → AcceptLoop → AcceptLoop
on_accept_error cancelled s = if cancelled then record s { accepting = false } else s

unfoldable pub remove : ℕ → List ℕ → List ℕ
remove id [] = []
remove id (j ∷ ids) = let rest = remove id ids in if j == id then ids else j ∷ rest

-- The goroutine of a connection ends, by whatever way: its deferred calls give back the slot.
unfoldable pub on_done : ℕ → AcceptLoop → AcceptLoop
unfolding remove
on_done id s = record s {
  used = elim s.cap [ none ↦ s.used | some n ↦ s.used - 1 ];
  running = remove id s.running;
  waiting = s.waiting - 1;
}

abbrev pub has_id : ℕ → List ℕ → Bool
has_id id [] = false
has_id id (j ∷ ids) = if j == id then true else has_id id ids

pub data LoopStep : AcceptLoop → AcceptLoop → Type 0 where
  accept : (s : AcceptLoop) → s.accepting ≡ true → LoopStep s (on_accept s)
  accept_error :
      (s : AcceptLoop) (cancelled : Bool)
      → s.accepting ≡ true
      → LoopStep s (on_accept_error cancelled s)
  done : (s : AcceptLoop) (id : ℕ) → has_id id s.running ≡ true → LoopStep s (on_done id s)

pub data Runs (s : AcceptLoop) : AcceptLoop → Type 0 where
  here : Runs s s
  next : {t u : AcceptLoop} → Runs s t → LoopStep t u → Runs s u
