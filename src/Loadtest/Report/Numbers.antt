-- ===== src/Loadtest/Report/Numbers.antt =====
-- The numbers of the reports of internal/loadtest/report.go.
use mathlib.Core.List.{append-nil}
use tlspxy.Common.{
  ◌⊎◌, ℕ, zero, suc, ◌*◌, ◌-◌, ◌/◌, ◌≤◌, ◌<◌, ◌≡◌, refl, ◌∙◌, ap, sym, arith, true, false, List, [],
  ◌∷◌, ◌++◌, some, leb, ◌==◌, length, take, drop, if◌then◌else◌, Bool-cases, inl, inr, tests,
  length-take, length-drop, take-append-drop,
}
use tlspxy.Config.Koanf.{ℤ, pos, negsuc}
use tlspxy.Proxy.Header.Text.{decimal, digits}
use tlspxy.Proxy.Header.V1.{Clean, Clean-digits, number, number-digits}
use tlspxy.Loadtest.Float.{to_int}
use tlspxy.Loadtest.Report.{write_groups, sign_length, first_group, add_commas, format_int}

abbrev remove_commas : List ℕ → List ℕ
remove_commas [] = []
remove_commas (c ∷ s) = if c == b',' then remove_commas s else c ∷ remove_commas s

-- Groups of three, with a comma before each.
abbrev pub IsGroups : List ℕ → Type 0
IsGroups [] = Unit
IsGroups (x ∷ []) = ⊥
IsGroups (x ∷ a ∷ []) = ⊥
IsGroups (x ∷ a ∷ b ∷ []) = ⊥
IsGroups (x ∷ a ∷ b ∷ c ∷ t) = (x ≡ b',') × IsGroups t

remove_commas-append : (s t : List ℕ) → Clean b',' s → remove_commas (s ++ t) ≡ s ++ remove_commas t
remove_commas-append [] t h = refl
remove_commas-append (c ∷ s) t h = rw h.0 (ap (λ u. c ∷ u) (remove_commas-append s t h.1))

-- The loop never slices out of range where the digits come in threes.
write_groups_lem :
    (k : ℕ) (s : List ℕ)
    → length s ≡ 3 * k
    → Clean b',' s
    → (t : List ℕ) × (write_groups s ≡ some t) × (remove_commas t ≡ s) × IsGroups t
unfolding write_groups
write_groups_lem zero [] e h = ([], refl, refl, tt)
write_groups_lem (suc k) [] e h = ([], refl, refl, tt)
write_groups_lem k (a ∷ []) e h = absurd (omega arith)
write_groups_lem k (a ∷ b ∷ []) e h = absurd (omega arith)
write_groups_lem zero (a ∷ b ∷ c ∷ s) e h = absurd (omega arith)
write_groups_lem (suc k) (a ∷ b ∷ c ∷ s) e h =
    let rest = write_groups_lem k s (omega arith) h.1.1.1 in
    (b',' ∷ a ∷ b ∷ c ∷ rest.0, ground (arith, rest.1), ground (arith, rest.2, h), (refl, rest.3))

Clean-drop : (sep n : ℕ) (s : List ℕ) → Clean sep s → Clean sep (drop n s)
Clean-drop sep zero s h = h
Clean-drop sep (suc n) [] h = h
Clean-drop sep (suc n) (c ∷ s) h = Clean-drop sep n s h.1

Clean-take : (sep n : ℕ) (s : List ℕ) → Clean sep s → Clean sep (take n s)
Clean-take sep zero s h = tt
Clean-take sep (suc n) [] h = tt
Clean-take sep (suc n) (c ∷ s) h = (h.0, Clean-take sep n s h.1)

remove_commas-Clean : (s : List ℕ) → Clean b',' s → remove_commas s ≡ s
remove_commas-Clean [] h = refl
remove_commas-Clean (c ∷ s) h = rw h.0 (ap (λ u. c ∷ u) (remove_commas-Clean s h.1))

-- A sign or none, one to three digits, and groups of three.
abbrev IsGrouped : List ℕ → Type 0
IsGrouped t =
    (sign : List ℕ) × (head : List ℕ) × (groups : List ℕ) × (t ≡ sign ++ (head ++ groups))
    × (length sign ≤ 1)
    × (length head ≤ 3)
    × ((groups ≡ []) ⊎ (0 < length head))
    × IsGroups groups

add_commas-some :
    (s groups : List ℕ)
    → leb (length (drop (sign_length s) s)) 3 ≡ false
    → write_groups (drop (first_group (length (drop (sign_length s) s))) (drop (sign_length s) s))
      ≡ some groups
    → add_commas s
      ≡ some (
          take (sign_length s) s
          ++ (take (first_group (length (drop (sign_length s) s))) (drop (sign_length s) s)
              ++ groups))
unfolding add_commas
add_commas-some s groups long e = ground (arith, long, e)

add_commas-short :
    (s : List ℕ) → leb (length (drop (sign_length s) s)) 3 ≡ true → add_commas s ≡ some s
unfolding add_commas
add_commas-short s short = rw short refl

sign_length_le : (s : List ℕ) → sign_length s ≤ 1
sign_length_le [] = omega arith
sign_length_le (c ∷ s) = ground arith

first_group_lem :
    (n : ℕ)
    → leb n 3 ≡ false
    → (n - first_group n ≡ 3 * ((n - first_group n) / 3))
      × (first_group n ≤ 3)
      × (0 < first_group n)
first_group_lem n h = ground arith

-- addCommas never slices out of range.
pub add_commas_lem :
    (s : List ℕ)
    → Clean b',' s
    → (t : List ℕ) × (add_commas s ≡ some t) × (remove_commas t ≡ s) × IsGrouped t
add_commas_lem s clean =
    let k = sign_length s in
    let digs = drop k s in
    let n = length digs in
    let f = first_group n in
    let whole = take-append-drop k s in
    let sign_le : length (take k s) ≤ 1 = omega (arith, sign_length_le s, length-take k s) in
    elim (Bool-cases (leb n 3)) [
      | inl short ↦ (
        s,
        add_commas-short s short,
        remove_commas-Clean s clean,
        (
          take k s,
          digs,
          [],
          sym (ap (λ u. take k s ++ u) (append-nil digs) ∙ whole),
          sign_le,
          omega tests,
          inl refl,
          tt,
        ),
      )
      | inr long ↦
          let at = first_group_lem n long in
          let clean' = Clean-drop b',' k s clean in
          let head = take f digs in
          let rest =
            write_groups_lem ((n - f) / 3) (drop f digs) (length-drop f digs ∙ at.0)
              (Clean-drop b',' f digs clean') in
          (
            take k s ++ (head ++ rest.0),
            add_commas-some s rest.0 long rest.1,
            remove_commas-append (take k s) (head ++ rest.0) (Clean-take b',' k s clean)
                ∙ ap (λ u. take k s ++ u)
                    (remove_commas-append head rest.0 (Clean-take b',' f digs clean')
                      ∙ ap (λ u. head ++ u) rest.2
                      ∙ take-append-drop f digs)
                ∙ whole,
            (
              take k s,
              head,
              rest.0,
              refl,
              sign_le,
              omega (arith, length-take f digs, at.1),
              inr (ground (arith, length-take f digs, at.2, long)),
              rest.3,
            ),
          )
    ]

write_groups_total :
    (k : ℕ) (s : List ℕ) → length s ≡ 3 * k → (t : List ℕ) × (write_groups s ≡ some t)
unfolding write_groups
write_groups_total k [] e = ([], refl)
write_groups_total k (a ∷ []) e = absurd (omega arith)
write_groups_total k (a ∷ b ∷ []) e = absurd (omega arith)
write_groups_total zero (a ∷ b ∷ c ∷ s) e = absurd (omega arith)
write_groups_total (suc k) (a ∷ b ∷ c ∷ s) e =
    let rest = write_groups_total k s (omega arith) in
    (b',' ∷ a ∷ b ∷ c ∷ rest.0, ground (arith, rest.1))

-- addCommas never slices out of range, whatever the text is.
pub add_commas_total : (s : List ℕ) → (t : List ℕ) × (add_commas s ≡ some t)
add_commas_total s =
    let k = sign_length s in
    let digs = drop k s in
    let n = length digs in
    let f = first_group n in
    elim (Bool-cases (leb n 3)) [
      | inl short ↦ (s, add_commas-short s short)
      | inr long ↦
          let at = first_group_lem n long in
          let rest = write_groups_total ((n - f) / 3) (drop f digs) (length-drop f digs ∙ at.0) in
          (take k s ++ (take f digs ++ rest.0), add_commas-some s rest.0 long rest.1)
    ]

-- The integer that a text says.
abbrev read_int : List ℕ → ℤ
read_int [] = pos 0
read_int (c ∷ s) = if c == b'-' then negsuc (number 0 s - 1) else pos (number 0 (c ∷ s))

read_int-Clean : (s : List ℕ) → Clean b'-' s → read_int s ≡ pos (number 0 s)
read_int-Clean [] h = refl
read_int-Clean (c ∷ s) h = rw h.0 refl

read_int-decimal : (n : ℤ) → read_int (decimal n) ≡ n
unfolding decimal
read_int-decimal (pos n) =
    read_int-Clean (digits (suc n) n) (Clean-digits b'-' (suc n) n (omega arith))
    ∙ ap pos (number-digits (suc n) n (omega arith))
read_int-decimal (negsuc n) =
    ap (λ m. negsuc (m - 1)) (number-digits (suc (suc n)) (suc n) (omega arith))
    ∙ ap negsuc (omega arith)

Clean-decimal : (n : ℤ) → Clean b',' (decimal n)
unfolding decimal
Clean-decimal (pos n) = Clean-digits b',' (suc n) n (omega arith)
Clean-decimal (negsuc n) = (refl, Clean-digits b',' (suc (suc n)) (suc n) (omega arith))

-- formatInt never slices out of range: it writes every int64 as a sign or none, up to three
-- characters, and groups of three behind commas, and without the commas this reads as that number.
read_int-format_int :
    (n : ℕ)
    → (t : List ℕ) × (format_int n ≡ some t) × IsGrouped t × (read_int (remove_commas t) ≡ to_int n)
unfolding format_int
read_int-format_int n =
    let t = add_commas_lem (decimal (to_int n)) (Clean-decimal (to_int n)) in
    (t.0, t.1, t.3, ap read_int t.2 ∙ read_int-decimal (to_int n))
