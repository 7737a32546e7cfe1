-- ===== src/Proxy/Header/V1.antt =====
-- A receiver of version 1 of the PROXY protocol, and what it reads behind the line that
-- internal/proxy/proxyproto.go builds.
use mathlib.Core.List.{append_assoc}
use tlspxy.Common.{
  ℕ, zero, suc, ◌+◌, ◌-◌, ◌*◌, ◌/◌, ◌%◌, ◌≤◌, ◌<◌, ◌≡◌, refl, ap, ◌∙◌, arith, false, ◌&&◌, List, [],
  ◌∷◌, ◌++◌, map, Option, none, some, ◌==◌, ltb, codes, split, length, extend, if◌then◌else◌,
  text_eq, Bool-cases, inl, inr,
}
use tlspxy.Config.Koanf.{pos}
use tlspxy.Proxy.Header.{NetText, Addr, endpoint, to4}
use tlspxy.Proxy.Header.V2.{Decoded, tcp4, length-to4}
use tlspxy.Proxy.Header.Text.{
  digits, decimal, ip4_text, v1_line, v1_of_families, v1_of_endpoints, proxy_header_v1,
}

-- The number that decimal digits stand for, behind those of acc.
abbrev pub number : ℕ → List ℕ → ℕ
number acc [] = acc
number acc (c ∷ s) = number (acc * 10 + (c - 48)) s

abbrev pub IsDigits : List ℕ → Type 0
IsDigits [] = Unit
IsDigits (c ∷ s) = (48 ≤ c) × (c < 58) × IsDigits s

-- No character is the separator.
abbrev pub Clean : ℕ → List ℕ → Type 0
Clean sep [] = Unit
Clean sep (c ∷ s) = ((c == sep) ≡ false) × Clean sep s

number-append : (acc : ℕ) (xs ys : List ℕ) → number acc (xs ++ ys) ≡ number (number acc xs) ys
number-append acc [] ys = refl
number-append acc (x ∷ xs) ys = number-append (acc * 10 + (x - 48)) xs ys

pub number-digits : (fuel n : ℕ) → n < fuel → number 0 (digits fuel n) ≡ n
unfolding digits
number-digits zero n h = absurd (omega arith)
number-digits (suc fuel) n h = elim (Bool-cases (ltb n 10)) [
  | inl small ↦ rw small (omega arith)
  | inr large ↦
      let rest : number 0 (digits fuel (n / 10)) ≡ n / 10 =
        number-digits fuel (n / 10) (ground arith) in
      rw large (
        number-append 0 (digits fuel (n / 10)) ((48 + n % 10) ∷ [])
        ∙ ap (λ t. number t ((48 + n % 10) ∷ [])) rest
        ∙ omega arith)
]

Clean-append : (sep : ℕ) (xs ys : List ℕ) → Clean sep xs → Clean sep ys → Clean sep (xs ++ ys)
Clean-append sep [] ys h k = k
Clean-append sep (x ∷ xs) ys h k = (h.0, Clean-append sep xs ys h.1 k)

pub Clean-digits : (sep fuel n : ℕ) → sep < 48 → Clean sep (digits fuel n)
unfolding digits
Clean-digits sep zero n h = tt
Clean-digits sep (suc fuel) n h = elim (Bool-cases (ltb n 10)) [
  | inl small ↦ rw small (ground arith)
  | inr large ↦ rw large (
      Clean-append sep (digits fuel (n / 10)) ((48 + n % 10) ∷ [])
        (Clean-digits sep fuel (n / 10) h) (ground arith))
]

Clean-ip4_text :
    (sep : ℕ) (ip : List ℕ) → sep < 48 → (b'.' == sep) ≡ false → Clean sep (ip4_text ip)
unfolding ip4_text decimal
Clean-ip4_text sep [] h k = tt
Clean-ip4_text sep (b ∷ []) h k = Clean-digits sep (suc b) b h
Clean-ip4_text sep (b ∷ c ∷ ip) h k =
    Clean-append sep (digits (suc b) b) (b'.' ∷ ip4_text (c ∷ ip)) (Clean-digits sep (suc b) b h)
      (k, Clean-ip4_text sep (c ∷ ip) h k)

split_once :
    (sep : ℕ) (xs ys : List ℕ) → Clean sep xs → split sep (xs ++ sep ∷ ys) ≡ xs ∷ split sep ys
unfolding split
split_once sep [] ys h = ground arith
split_once sep (x ∷ xs) ys h = rw h.0 (ap (λ t. extend x t) (split_once sep xs ys h.1))

split-Clean : (sep : ℕ) (xs : List ℕ) → Clean sep xs → split sep xs ≡ xs ∷ []
unfolding split
split-Clean sep [] h = refl
split-Clean sep (x ∷ xs) h = rw h.0 (ap (λ t. extend x t) (split-Clean sep xs h.1))

-- The bytes of an address in dotted decimals.
abbrev pub dotted : List ℕ → List ℕ
dotted s = map (number 0) (split b'.' s)

dotted-ip4_text : (b : ℕ) (ip : List ℕ) → dotted (ip4_text (b ∷ ip)) ≡ b ∷ ip
unfolding ip4_text decimal
dotted-ip4_text b [] =
    ap (map (number 0))
      (split-Clean b'.' (digits (suc b) b) (Clean-digits b'.' (suc b) b (omega arith)))
    ∙ ap (λ t. t ∷ []) (number-digits (suc b) b (omega arith))
dotted-ip4_text b (c ∷ ip) =
    ap (map (number 0)) (
      split_once b'.' (digits (suc b) b) (ip4_text (c ∷ ip))
        (Clean-digits b'.' (suc b) b (omega arith)))
    ∙ ap (λ t. t ∷ dotted (ip4_text (c ∷ ip))) (number-digits (suc b) b (omega arith))
    ∙ ap (λ t. b ∷ t) (dotted-ip4_text c ip)

-- The fields of the line, between spaces.
abbrev read_fields : List (List ℕ) → Option Decoded
read_fields (proxy ∷ family ∷ s ∷ d ∷ sport ∷ dport ∷ []) =
    if text_eq proxy (codes "PROXY") && text_eq family (codes "TCP4")
    then some (tcp4 (dotted s) (dotted d) (number 0 sport) (number 0 dport))
    else none
read_fields _ = none

-- The line up to the carriage return.
abbrev first_field : List (List ℕ) → List ℕ
first_field [] = []
first_field (f ∷ fields) = f

-- A receiver of the line of two IPv4 addresses; for any other it learns nothing here.
pub decode_v1 : List ℕ → Option Decoded
decode_v1 bytes = read_fields (split b' ' (first_field (split 13 bytes)))

module _ (s d a b : List ℕ) where
  -- The line without its end.
  abbrev bare_line : List ℕ
  bare_line = codes "PROXY TCP4 " ++ (s ++ b' ' ∷ (d ++ b' ' ∷ (a ++ b' ' ∷ b)))

  split_fields :
      Clean b' ' s
      → Clean b' ' d
      → Clean b' ' a
      → Clean b' ' b
      → split b' ' bare_line ≡ codes "PROXY" ∷ codes "TCP4" ∷ s ∷ d ∷ a ∷ b ∷ []
  unfolding split
  split_fields hs hd ha hb =
      rw
        (
          split_once b' ' s (d ++ b' ' ∷ (a ++ b' ' ∷ b)) hs,
          split_once b' ' d (a ++ b' ' ∷ b) hd,
          split_once b' ' a b ha,
          split-Clean b' ' b hb,
        )
        refl

  Clean-bare_line : Clean 13 s → Clean 13 d → Clean 13 a → Clean 13 b → Clean 13 bare_line
  Clean-bare_line hs hd ha hb =
      let rest : Clean 13 (s ++ b' ' ∷ (d ++ b' ' ∷ (a ++ b' ' ∷ b))) =
        Clean-append 13 s (b' ' ∷ (d ++ b' ' ∷ (a ++ b' ' ∷ b))) hs (
          refl,
          Clean-append 13 d (b' ' ∷ (a ++ b' ' ∷ b)) hd
              (refl, Clean-append 13 a (b' ' ∷ b) ha (refl, hb)),
        ) in
      ground (arith, rest)

  bare_line_ends :
      (t : List ℕ)
      → codes "PROXY TCP4 " ++ (s ++ b' ' ∷ (d ++ b' ' ∷ (a ++ b' ' ∷ (b ++ t)))) ≡ bare_line ++ t
  bare_line_ends t = simp append_assoc

decode_line :
    (b c sport dport : ℕ) (s d payload : List ℕ)
    → decode_v1
        (v1_line "TCP4" (ip4_text (b ∷ s)) (ip4_text (c ∷ d)) (pos sport) (pos dport) ++ payload)
      ≡ some (tcp4 (b ∷ s) (c ∷ d) sport dport)
unfolding decimal decode_v1
decode_line b c sport dport s d payload =
    let s' = ip4_text (b ∷ s) in
    let d' = ip4_text (c ∷ d) in
    let p = digits (suc sport) sport in
    let q = digits (suc dport) dport in
    let ended : v1_line "TCP4" s' d' (pos sport) (pos dport) ++ payload
        ≡ bare_line s' d' p q ++ 13 ∷ 10 ∷ payload =
      simp append_assoc in
    let no_cr =
      Clean-bare_line s' d' p q (Clean-ip4_text 13 (b ∷ s) (omega arith) refl)
        (Clean-ip4_text 13 (c ∷ d) (omega arith) refl)
        (Clean-digits 13 (suc sport) sport (omega arith))
        (Clean-digits 13 (suc dport) dport (omega arith)) in
    let fields =
      split_fields s' d' p q (Clean-ip4_text b' ' (b ∷ s) (omega arith) refl)
        (Clean-ip4_text b' ' (c ∷ d) (omega arith) refl)
        (Clean-digits b' ' (suc sport) sport (omega arith))
        (Clean-digits b' ' (suc dport) dport (omega arith)) in
    ap (λ t. read_fields (split b' ' (first_field (split 13 t)))) ended
    ∙ ap (λ f. read_fields (split b' ' (first_field f)))
        (split_once 13 (bare_line s' d' p q) (10 ∷ payload) no_cr)
    ∙ ap read_fields fields
    ∙ rw
        (
          dotted-ip4_text b s,
          dotted-ip4_text c d,
          number-digits (suc sport) sport (omega arith),
          number-digits (suc dport) dport (omega arith),
        )
        refl

decode_families_v1 :
    (s4 d4 : List ℕ) (sport dport : ℕ) (payload : List ℕ)
    → length s4 ≡ 4
    → length d4 ≡ 4
    → decode_v1 (v1_line "TCP4" (ip4_text s4) (ip4_text d4) (pos sport) (pos dport) ++ payload)
      ≡ some (tcp4 s4 d4 sport dport)
decode_families_v1 [] d4 sport dport payload hs hd = absurd (omega arith)
decode_families_v1 (b ∷ s) [] sport dport payload hs hd = absurd (omega arith)
decode_families_v1 (b ∷ s) (c ∷ d) sport dport payload hs hd =
    decode_line b c sport dport s d payload

-- Where both addresses are IPv4, with ports that are not negative, a receiver of version 1 of the
-- PROXY protocol reads in the header, whatever bytes follow, exactly the four bytes of each address
-- and the ports.
pub decode_v1-proxy_header_v1 :
    (net : NetText) (src dst : Addr) (sip dip s4 d4 : List ℕ) (sport dport : ℕ) (payload : List ℕ)
    → endpoint net src ≡ some (sip, pos sport)
    → endpoint net dst ≡ some (dip, pos dport)
    → to4 sip ≡ some s4
    → to4 dip ≡ some d4
    → decode_v1 (proxy_header_v1 net src dst ++ payload) ≡ some (tcp4 s4 d4 sport dport)
unfolding proxy_header_v1 v1_of_endpoints v1_of_families
decode_v1-proxy_header_v1 net src dst sip dip s4 d4 sport dport payload hs hd fs fd =
    rw (hs, hd, fs, fd)
      (decode_families_v1 s4 d4 sport dport payload (length-to4 sip s4 fs) (length-to4 dip d4 fd))
