-- ===== src/Proxy/Pipe/Delivery.antt =====
-- What reaches the destination of a pipe of internal/proxy/tcp.go.
use Prim.Native.Nat.{min}
use mathlib.Core.List.{append-nil, append_assoc}
use tlspxy.Common.{
  ℕ, ◌+◌, ◌≡◌, ◌⊎◌, refl, ap, sym, ◌∙◌, arith, Bool, true, false, List, [], ◌∷◌, ◌++◌, none, some,
  ◌==◌, length, take, drop, take-append-drop, length-drop, Bool-cases, Option-cases, inl, inr,
}
use tlspxy.Proxy.Pipe.{
  IoError, other, WriteResult, Round, PipeState, report, fail, WriteExit, wrote, gave_up, writing,
  write_loop, count, meter, pipe,
}

-- From `before` to `after` a first part of `all` was added at the end, in order.
pub record Delivers (before after all : List ℕ) : Type 0 where
  pub taken : List ℕ
  pub left : List ℕ
  pub added : after ≡ before ++ taken
  pub split : taken ++ left ≡ all

-- What the rounds read, up to the Read that fails or the end of the context.
abbrev pub read_bytes : List Round → List ℕ
read_bytes [] = []
read_bytes (r ∷ rounds) = elim r.cancelled [
  | true ↦ []
  | false ↦ elim r.read.error [ some e ↦ [] | none ↦ r.read.bytes ++ read_bytes rounds ]
]

delivered-fail : (e : IoError) (c : Bool) (st : PipeState) → (fail e c st).delivered ≡ st.delivered
unfolding fail
delivered-fail e c st = ground arith

delivered-report : (e : IoError) (st : PipeState) → (report e st).delivered ≡ st.delivered
unfolding report
delivered-report e st = ground arith

abbrev pub took : ℕ → List ℕ → PipeState → PipeState
took n b st = record st { delivered = st.delivered ++ take n b }

pub write_loop_step :
    (c : ℕ) (b : List ℕ) (written : ℕ) (w : WriteResult) (ws : List WriteResult) (st : PipeState)
    → let n = min w.room (length (c ∷ b)) in
      w.error ≡ none
      → (n == 0) ≡ false
      → write_loop (c ∷ b) written (w ∷ ws) st
        ≡ write_loop (drop n (c ∷ b)) (written + n) ws (took n (c ∷ b) st)
unfolding write_loop
write_loop_step c b written w ws st fine more = ground arith

write_loop-Delivers :
    (b : List ℕ) (written : ℕ) (ws : List WriteResult) (st : PipeState)
    → Delivers st.delivered (write_loop b written ws st).0.delivered b
unfolding write_loop
write_loop-Delivers [] written ws st = record {
  taken = [];
  left = [];
  added = sym (append-nil st.delivered);
  split = refl;
}
write_loop-Delivers (c ∷ b) written [] st = record {
  taken = [];
  left = c ∷ b;
  added = sym (append-nil st.delivered);
  split = refl;
}
write_loop-Delivers (c ∷ b) written (w ∷ ws) st =
    let n = min w.room (length (c ∷ b)) in
    elim (Option-cases w.error) [
      | inr (e, failed) ↦ record {
        taken = take n (c ∷ b);
        left = drop n (c ∷ b);
        added = ground (arith, delivered-fail e w.cancelled (took n (c ∷ b) st));
        split = take-append-drop n (c ∷ b);
      }
      | inl fine ↦ elim (Bool-cases (n == 0)) [
        | inl stuck ↦ record {
          taken = take n (c ∷ b);
          left = drop n (c ∷ b);
          added = ground (arith, delivered-report other (took n (c ∷ b) st));
          split = take-append-drop n (c ∷ b);
        }
        | inr more ↦
            let r = write_loop-Delivers (drop n (c ∷ b)) (written + n) ws (took n (c ∷ b) st) in
            record {
              taken = take n (c ∷ b) ++ r.taken;
              left = r.left;
              added =
                  rw (write_loop_step c b written w ws st fine more)
                    (r.added ∙ append_assoc st.delivered (take n (c ∷ b)) r.taken);
              split =
                  append_assoc (take n (c ∷ b)) r.taken r.left
                  ∙ ap (λ t. take n (c ∷ b) ++ t) r.split
                  ∙ take-append-drop n (c ∷ b);
            }
      ]
    ]

pub write_loop-wrote :
    (b : List ℕ) (written : ℕ) (ws : List WriteResult) (st : PipeState) (n : ℕ)
    → (write_loop b written ws st).1 ≡ wrote n
    → (n ≡ written + length b)
      × ((write_loop b written ws st).0 ≡ record st { delivered = st.delivered ++ b })
unfolding write_loop
write_loop-wrote [] written ws st n h = ground (arith, append-nil st.delivered)
write_loop-wrote (c ∷ b) written [] st n h = ground arith
write_loop-wrote (c ∷ b) written (w ∷ ws) st m h =
    let n = min w.room (length (c ∷ b)) in
    elim (Option-cases w.error) [
      | inr (e, failed) ↦ absurd (ground arith)
      | inl fine ↦ elim (Bool-cases (n == 0)) [
        | inl stuck ↦ absurd (ground arith)
        | inr more ↦
            let step = write_loop_step c b written w ws st fine more in
            let (counted, state) =
              write_loop-wrote (drop n (c ∷ b)) (written + n) ws (took n (c ∷ b) st) m
                (rw step at h) in
            (
              omega (arith, counted, length-drop {0} n (c ∷ b)),
              ground (
                arith,
                step,
                state,
                take-append-drop n (c ∷ b),
                append_assoc st.delivered (take n (c ∷ b)) (drop n (c ∷ b)),
              ),
            )
      ]
    ]

pub WriteExit-cases : (e : WriteExit) → ((n : ℕ) × (e ≡ wrote n)) ⊎ (e ≡ gave_up) ⊎ (e ≡ writing)
WriteExit-cases (wrote n) = inl (n, refl)
WriteExit-cases gave_up = inr (inl refl)
WriteExit-cases writing = inr (inr refl)

Delivers-none : {before after : List ℕ} (all : List ℕ) → after ≡ before → Delivers before after all
Delivers-none {before} all same = record {
  taken = [];
  left = all;
  added = same ∙ sym (append-nil before);
  split = refl;
}

module _ {before after after' : List ℕ} where
  Delivers-more :
      {all all' : List ℕ} (more : List ℕ)
      → Delivers before after all
      → after' ≡ after
      → all' ≡ all ++ more
      → Delivers before after' all'
  Delivers-more {all} more d same longer = record {
    taken = d.taken;
    left = d.left ++ more;
    added = same ∙ d.added;
    split = sym (append_assoc d.taken d.left more) ∙ ap (λ t. t ++ more) d.split ∙ sym longer;
  }

  Delivers-then :
      {middle all all' : List ℕ} (first : List ℕ)
      → middle ≡ before ++ first
      → Delivers middle after all
      → after' ≡ after
      → all' ≡ first ++ all
      → Delivers before after' all'
  Delivers-then first began d same longer = record {
    taken = first ++ d.taken;
    left = d.left;
    added = same ∙ d.added ∙ ap (λ t. t ++ d.taken) began ∙ append_assoc before first d.taken;
    split = append_assoc first d.taken d.left ∙ ap (λ t. first ++ t) d.split ∙ sym longer;
  }

-- Whatever the network does, what a pipe adds to the bytes that the destination has taken is a
-- first part of the bytes that were read, in order.
pub pipe-Delivers :
    (islocal : Bool) (rounds : List Round) (st : PipeState)
    → Delivers st.delivered (pipe islocal rounds st).0.delivered (read_bytes rounds)
unfolding pipe count meter
pipe-Delivers islocal [] st = Delivers-none [] refl
pipe-Delivers islocal (r ∷ rounds) st = elim (Bool-cases r.cancelled) [
  | inl stop ↦ Delivers-none _ (ground arith)
  | inr going ↦ elim (Option-cases r.read.error) [
    | inr (e, failed) ↦ Delivers-none _ (ground (arith, delivered-fail e r.read.cancelled st))
    | inl fine ↦
        let w = write_loop r.read.bytes 0 r.writes st in
        let d = write_loop-Delivers r.read.bytes 0 r.writes st in
        elim (WriteExit-cases w.1) [
          | inl (n, done) ↦
              let (m, state) = write_loop-wrote r.read.bytes 0 r.writes st n done in
              Delivers-then r.read.bytes (ap (λ (s : PipeState). s.delivered) state)
                (pipe-Delivers islocal rounds (count islocal n w.0)) (ground arith) (ground arith)
          | inr (inl stopped) ↦ Delivers-more (read_bytes rounds) d (ground arith) (ground arith)
          | inr (inr blocked) ↦ Delivers-more (read_bytes rounds) d (ground arith) (ground arith)
        ]
  ]
]
