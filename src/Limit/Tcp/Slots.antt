-- ===== src/Limit/Tcp/Slots.antt =====
-- The slots of the accept loop of main.go.
use tlspxy.Common.{
  ℕ, ◌+◌, ◌≤◌, ◌≡◌, refl, ◌∙◌, arith, true, false, List, [], ◌∷◌, Option, none, some, ◌==◌,
  if◌then◌else◌, length, Bool-cases, inl, inr,
}
use tlspxy.Limit.Tcp.{
  AcceptLoop, new_accept_loop, on_accept, on_accept_error, remove, on_done, has_id, LoopStep,
  accept, accept_error, done, Runs, here, next,
}

abbrev pub Within : ℕ → Option ℕ → Type 0
Within n none = Unit
Within n (some cap) = n ≤ cap

abbrev pub AllAtMost : ℕ → List ℕ → Type 0
AllAtMost n [] = Unit
AllAtMost n (id ∷ ids) = (id ≤ n) × AllAtMost n ids

-- No two of the ids are equal.
abbrev pub Distinct : List ℕ → Type 0
Distinct [] = Unit
Distinct (id ∷ ids) = (has_id id ids ≡ false) × Distinct ids

abbrev pub slots : AcceptLoop → ℕ
slots s = elim s.cap [ none ↦ 0 | some cap ↦ length s.running ]

-- The slots in use are the connections that run, at most as many as there are slots; the connections
-- have ids of their own; the wait group counts them.
pub record IsLimited (s : AcceptLoop) : Type 0 where
  pub used : s.used ≡ slots s
  pub within : Within s.used s.cap
  pub waiting : s.waiting ≡ length s.running
  pub known : AllAtMost s.conn_id s.running
  pub distinct : Distinct s.running

AllAtMost-up : (n : ℕ) (ids : List ℕ) → AllAtMost n ids → AllAtMost (n + 1) ids
AllAtMost-up n [] h = tt
AllAtMost-up n (id ∷ ids) h = (omega arith, AllAtMost-up n ids h.1)

fresh_id : (n : ℕ) (ids : List ℕ) → AllAtMost n ids → has_id (n + 1) ids ≡ false
fresh_id n [] h = refl
fresh_id n (id ∷ ids) h = ground (arith, fresh_id n ids h.1)

pub length-remove :
    (id : ℕ) (ids : List ℕ) → has_id id ids ≡ true → length (remove id ids) + 1 ≡ length ids
unfolding remove
length-remove id [] h = ground arith
length-remove id (j ∷ ids) h = ground (arith, length-remove id ids)

AllAtMost-remove : (n id : ℕ) (ids : List ℕ) → AllAtMost n ids → AllAtMost n (remove id ids)
unfolding remove
AllAtMost-remove n id [] h = tt
AllAtMost-remove n id (j ∷ ids) h = elim (Bool-cases (j == id)) [
  | inl same ↦ rw same h.1
  | inr other ↦ rw other (h.0, AllAtMost-remove n id ids h.1)
]

has_id-remove : (x id : ℕ) (ids : List ℕ) → has_id x ids ≡ false → has_id x (remove id ids) ≡ false
unfolding remove
has_id-remove x id [] h = refl
has_id-remove x id (j ∷ ids) h = ground (arith, has_id-remove x id ids)

Distinct-remove : (id : ℕ) (ids : List ℕ) → Distinct ids → Distinct (remove id ids)
unfolding remove
Distinct-remove id [] h = tt
Distinct-remove id (j ∷ ids) h = elim (Bool-cases (j == id)) [
  | inl same ↦ rw same h.1
  | inr other ↦ rw other (has_id-remove j id ids h.0, Distinct-remove id ids h.1)
]

LoopStep-IsLimited : {s t : AcceptLoop} → LoopStep s t → IsLimited s → IsLimited t
unfolding on_accept on_accept_error on_done
LoopStep-IsLimited (accept s a) h =
    ground (arith, AllAtMost-up s.conn_id s.running h.known, fresh_id s.conn_id s.running h.known)
LoopStep-IsLimited (accept_error s cancelled a) h = ground arith
LoopStep-IsLimited (done s id r) h = ground (
  arith,
  length-remove id s.running r,
  AllAtMost-remove s.conn_id id s.running h.known,
  Distinct-remove id s.running h.distinct,
)

Runs-keeps : {s t : AcceptLoop} → IsLimited s → Runs s t → IsLimited t
Runs-keeps h here = h
Runs-keeps h (next r st) = LoopStep-IsLimited st (Runs-keeps h r)

cap-LoopStep : {s t : AcceptLoop} → LoopStep s t → t.cap ≡ s.cap
unfolding on_accept on_accept_error on_done
cap-LoopStep (accept s a) = ground arith
cap-LoopStep (accept_error s cancelled a) = ground arith
cap-LoopStep (done s id r) = refl

cap-Runs : {s t : AcceptLoop} → Runs s t → t.cap ≡ s.cap
cap-Runs here = refl
cap-Runs (next r st) = cap-LoopStep st ∙ cap-Runs r

-- However connections come and go, the slots of the TCP accept loop are exactly the running
-- connections, never more than the limit that was configured; ids are never shared, and the drain
-- waits for those that run.
pub Runs-IsLimited :
    (max_conns : ℕ) {s : AcceptLoop}
    → Runs (new_accept_loop max_conns) s
    → IsLimited s × (s.cap ≡ (if max_conns == 0 then none else some max_conns))
unfolding new_accept_loop
Runs-IsLimited max_conns r = (Runs-keeps (ground arith) r, cap-Runs r)
