-- ===== src/Startup/Serving/Settling.antt =====
-- The goroutines that main.go has started can always come to the end of their steps.
use tlspxy.Common.{◌≡◌, refl, ap, List, [], ◌∷◌}
use tlspxy.Proxy.Header.{NetText}
use tlspxy.Proxy.Start.Operations.{Shared, ConnOp, run_conn_op}
use tlspxy.Startup.Shutdown.{TcpMain}
use tlspxy.Startup.Serving.{
  Phase, ConnThread, next_phase, Works, this_works, other_works, Serving, works, ServingRuns,
  serving_stays, serving_goes,
}
use tlspxy.Startup.Serving.Serial.{AllIdle, connections}

-- A place among other goroutines.
abbrev Place : (List ConnThread → List ConnThread) → Type 0
Place f = (op : ConnOp) (gs hs : List ConnThread) → Works op gs hs → Works op (f gs) (f hs)

abbrev state : TcpMain → Shared → List ConnThread → Serving
state m sh gs = record { main = m; shared = sh; goroutines = gs }

module _ (net : NetText) (s : Serving) (m : TcpMain) where
  finish_one :
      (todo : List ConnOp) (g : ConnThread) (f : List ConnThread → List ConnThread)
      (gs : List ConnThread) (sh : Shared)
      → Place f
      → ServingRuns net s (state m sh (f (record g { todo = todo } ∷ gs)))
      → (sh' : Shared) × (phase : Phase) × ServingRuns net s
          (state m sh' (f (record g { phase = phase; todo = [] } ∷ gs)))
  finish_one [] g f gs sh place r = (sh, g.phase, r)
  finish_one (op ∷ todo) g f gs sh place r =
      let before = record g { todo = op ∷ todo } ∷ gs in
      let after = record g { phase = next_phase op g.phase; todo = todo } ∷ gs in
      let step = works (state m sh (f before)) (place op before after this_works) in
      finish_one todo (record g { phase = next_phase op g.phase }) f gs (run_conn_op op sh) place
        (serving_goes r step)

  finish_all :
      (gs : List ConnThread) (f : List ConnThread → List ConnThread) (sh : Shared)
      → Place f
      → ServingRuns net s (state m sh (f gs))
      → (sh' : Shared) × (hs : List ConnThread) × AllIdle hs
        × (connections hs ≡ connections gs)
        × ServingRuns net s (state m sh' (f hs))
  finish_all [] f sh place r = (sh, [], tt, refl, r)
  finish_all (g ∷ gs) f sh place r =
      let (sh', phase, r') = finish_one g.todo g f gs sh place r in
      let g' = record g { phase = phase; todo = [] } in
      let inner : Place (λ hs. f (g' ∷ hs)) =
        λ op xs ys w. place op (g' ∷ xs) (g' ∷ ys) (other_works w) in
      let (sh'', hs, idle, same, r'') = finish_all gs (λ hs. f (g' ∷ hs)) sh' inner r' in
      (sh'', g' ∷ hs, (refl, idle), ap (λ conns. g.conn ∷ conns) same, r'')

-- From any state all goroutines can finish their steps, with nothing else happening to main and no
-- connection more or less.
pub finishes :
    (net : NetText) (s : Serving)
    → (t : Serving) × ServingRuns net s t
      × AllIdle t.goroutines
      × (t.main ≡ s.main)
      × (connections t.goroutines ≡ connections s.goroutines)
finishes net s =
    let (sh, hs, idle, same, r) =
      finish_all net s s.main s.goroutines (λ gs. gs) s.shared (λ op xs ys w. w) serving_stays in
    (state s.main sh hs, r, idle, refl, same)
