-- ===== src/Loadtest/Harness/Accepting.antt =====
-- The accept loop of setupTCP in internal/loadtest/harness.go, beside that of main.go.
use tlspxy.Common.{
  ℕ, ◌+◌, ◌-◌, ◌≡◌, refl, ◌∙◌, ap, sym, arith, Bool, true, false, List, [], ◌∷◌, Option, none, some,
  ltb, if◌then◌else◌,
}
use tlspxy.Limit.Tcp.{AcceptLoop, on_accept, on_accept_error, on_done, remove}

-- `sem`, connID, and the proxies that run, the newest first.
pub record HarnessLoop : Type 0 where
  pub cap : Option ℕ
  pub used : ℕ
  pub conn_id : ℕ
  pub running : List ℕ
  pub accepting : Bool

unfoldable pub start_proxy : HarnessLoop → HarnessLoop
start_proxy s = record s { conn_id = s.conn_id + 1; running = (s.conn_id + 1) ∷ s.running }

-- Accept returns a connection, which is closed at once where the channel is full.
unfoldable pub harness_accept : HarnessLoop → HarnessLoop
unfolding start_proxy
harness_accept s = elim s.cap [
  | none ↦ start_proxy s
  | some n ↦ if ltb s.used n then start_proxy (record s { used = s.used + 1 }) else s
]

-- Any error of Accept ends the loop.
unfoldable pub harness_accept_error : HarnessLoop → HarnessLoop
harness_accept_error s = record s { accepting = false }

-- Start returns.
unfoldable pub harness_done : ℕ → HarnessLoop → HarnessLoop
harness_done id s = record s {
  used = elim s.cap [ none ↦ s.used | some n ↦ s.used - 1 ];
  running = remove id s.running;
}

pub data LoopEvent : Type 0 where
  accepted : LoopEvent
  cancelled : LoopEvent
  done : ℕ → LoopEvent

-- An event while the loop accepts, or of a connection that it has accepted.
unfoldable pub harness_event : LoopEvent → HarnessLoop → HarnessLoop
unfolding harness_accept harness_accept_error harness_done
harness_event accepted s = if s.accepting then harness_accept s else s
harness_event cancelled s = if s.accepting then harness_accept_error s else s
harness_event (done id) s = harness_done id s

-- The same of main.go, where an error of Accept ends the loop once the context has ended.
unfoldable pub main_event : LoopEvent → AcceptLoop → AcceptLoop
unfolding on_accept on_accept_error on_done
main_event accepted s = if s.accepting then on_accept s else s
main_event cancelled s = if s.accepting then on_accept_error true s else s
main_event (done id) s = on_done id s

unfoldable pub run_harness : List LoopEvent → HarnessLoop → HarnessLoop
run_harness [] s = s
run_harness (e ∷ events) s = run_harness events (harness_event e s)

unfoldable pub run_loop : List LoopEvent → AcceptLoop → AcceptLoop
run_loop [] s = s
run_loop (e ∷ events) s = run_loop events (main_event e s)

-- What main.go's loop has of the harness's: all but the count of rejections and the drain.
abbrev pub view : AcceptLoop → HarnessLoop
view s = record {
  cap = s.cap;
  used = s.used;
  conn_id = s.conn_id;
  running = s.running;
  accepting = s.accepting;
}

view-event : (e : LoopEvent) (s : AcceptLoop) → view (main_event e s) ≡ harness_event e (view s)
unfolding main_event harness_event on_accept harness_accept start_proxy on_accept_error
    harness_accept_error on_done harness_done
view-event accepted s = ground arith
view-event cancelled s = ground arith
view-event (done id) s = refl

-- Over the same connections, the loop of the harness holds the slots, ids and connections of main.go's.
pub run_harness-view :
    (events : List LoopEvent) (s : AcceptLoop)
    → run_harness events (view s) ≡ view (run_loop events s)
unfolding run_harness run_loop
run_harness-view [] s = refl
run_harness-view (e ∷ events) s =
    ap (run_harness events) (sym (view-event e s)) ∙ run_harness-view events (main_event e s)
