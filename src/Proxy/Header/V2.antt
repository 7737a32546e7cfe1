-- ===== src/Proxy/Header/V2.antt =====
-- A receiver of version 2 of the PROXY protocol, and what it reads behind the header that
-- internal/proxy/proxyproto.go builds.
use tlspxy.Common.{
  ℕ, ◌+◌, ◌*◌, ◌/◌, ◌%◌, ◌≡◌, refl, ap, arith, List, [], ◌∷◌, ◌++◌, Option, none, some, ◌==◌,
  length, take, drop, text_eq, if◌then◌else◌, ◌⊎◌, ◌∙◌, take-append, drop-append, length-append,
  length-drop,
}
use tlspxy.Config.Koanf.{ℤ}
use tlspxy.Proxy.Header.{
  Addr, NetText, Endpoint, endpoint, to4, to16, to_u16, be16, v2_signature, v2_block, v2_unspec,
  v2_addresses, v2_of_families, v2_of_endpoints, proxy_header_v2,
}

-- What a receiver learns: nothing, or the family, the addresses and the ports.
pub data Decoded : Type 0 where
  unspec : Decoded
  tcp4 : List ℕ → List ℕ → ℕ → ℕ → Decoded
  tcp6 : List ℕ → List ℕ → ℕ → ℕ → Decoded

abbrev from_be16 : List ℕ → ℕ
from_be16 (hi ∷ lo ∷ r) = hi * 256 + lo
from_be16 _ = 0

-- An address block with addresses of n bytes each.
abbrev decode_block : (List ℕ → List ℕ → ℕ → ℕ → Decoded) → ℕ → List ℕ → Decoded
decode_block family n block =
    let ports = drop n (drop n block) in
    family (take n block) (take n (drop n block)) (from_be16 ports) (from_be16 (drop 2 ports))

abbrev decode_family : ℕ → List ℕ → Option Decoded
decode_family family block =
    if family == 0x00
    then some unspec
    else if family == 0x11
    then some (decode_block tcp4 4 block)
    else if family == 0x21
    then some (decode_block tcp6 16 block)
    else none

abbrev with_rest : Option Decoded → List ℕ → Option (Decoded × List ℕ)
with_rest none r = none
with_rest (some d) r = some (d, r)

abbrev decode_body : List ℕ → Option (Decoded × List ℕ)
decode_body (command ∷ family ∷ hi ∷ lo ∷ r) =
    let n = hi * 256 + lo in
    if command == 0x21 then with_rest (decode_family family (take n r)) (drop n r) else none
decode_body _ = none

-- The header is taken off, and the bytes of the connection are left.
pub decode_v2 : List ℕ → Option (Decoded × List ℕ)
decode_v2 bytes = if text_eq (take 12 bytes) v2_signature then decode_body (drop 12 bytes) else none

-- What the header of two endpoints has to say.
abbrev pub told_of_families : Option (List ℕ) → Option (List ℕ) → Endpoint → Endpoint → Decoded
told_of_families (some s4) (some d4) (sip, sport) (dip, dport) =
    tcp4 s4 d4 (to_u16 sport) (to_u16 dport)
told_of_families none none (sip, sport) (dip, dport) = tcp6 sip dip (to_u16 sport) (to_u16 dport)
told_of_families (some s4) none _ _ = unspec
told_of_families none (some d4) _ _ = unspec

abbrev pub told : Option Endpoint → Option Endpoint → Decoded
told (some s) (some d) = told_of_families (to4 s.0) (to4 d.0) s d
told (some s) none = unspec
told none _ = unspec

-- An IP of Go's net package: 4 or 16 bytes.
abbrev pub IsIp : List ℕ → Type 0
IsIp ip = (length ip ≡ 4) ⊎ (length ip ≡ 16)

abbrev pub HasIp : Option Endpoint → Type 0
HasIp none = Unit
HasIp (some e) = IsIp e.0

be16_lem : (n : ℕ) (r : List ℕ) → from_be16 (be16 n ++ r) ≡ n
be16_lem n r = omega arith

pub length-to4 : (ip s : List ℕ) → to4 ip ≡ some s → length s ≡ 4
unfolding to4
length-to4 ip s h = ground (arith, length-drop 12 ip)

to16_of_long : (ip : List ℕ) → IsIp ip → to4 ip ≡ none → (length ip ≡ 16) × (to16 ip ≡ ip)
unfolding to4 to16
to16_of_long ip h none4 = ground arith

module _ (family : List ℕ → List ℕ → ℕ → ℕ → Decoded) (n : ℕ) (s d : List ℕ) where
  decode_block_lem :
      (sport dport : ℤ)
      → length s ≡ n
      → length d ≡ n
      → decode_block family n (v2_addresses s d sport dport)
        ≡ family s d (to_u16 sport) (to_u16 dport)
  decode_block_lem sport dport ls ld =
      let ports = be16 (to_u16 sport) ++ be16 (to_u16 dport) in
      rw (
        take-append n s (d ++ ports) ls,
        drop-append n s (d ++ ports) ls,
        take-append n d ports ld,
        drop-append n d ports ld,
        be16_lem (to_u16 sport) (be16 (to_u16 dport)),
        be16_lem (to_u16 dport) [],
      )

-- Any block comes back, with what follows it.
decode_v2_block :
    (family size : ℕ) (addresses payload : List ℕ)
    → length addresses ≡ size
    → decode_v2 (v2_block family size addresses ++ payload)
      ≡ with_rest (decode_family family addresses) payload
unfolding decode_v2
decode_v2_block family size addresses payload h =
    let e : size / 256 * 256 + size % 256 ≡ size = omega arith in
    rw e (rw (take-append size addresses payload h, drop-append size addresses payload h))

length-v2_addresses :
    (n : ℕ) (s d : List ℕ) (sport dport : ℤ)
    → length s ≡ n
    → length d ≡ n
    → length (v2_addresses s d sport dport) ≡ n + n + 4
length-v2_addresses n s d sport dport ls ld =
    let ports = be16 (to_u16 sport) ++ be16 (to_u16 dport) in
    omega (arith, length-append {0} s (d ++ ports), length-append {0} d ports)

unspec_lem : (payload : List ℕ) → decode_v2 (v2_unspec ++ payload) ≡ some (unspec, payload)
unspec_lem payload = decode_v2_block 0 0 [] payload refl

decode_families :
    (a b : Option (List ℕ)) (s d : Endpoint) (payload : List ℕ)
    → to4 s.0 ≡ a
    → to4 d.0 ≡ b
    → IsIp s.0
    → IsIp d.0
    → decode_v2 (v2_of_families a b s d ++ payload) ≡ some (told_of_families a b s d, payload)
unfolding v2_of_families
decode_families (some s4) (some d4) (sip, sport) (dip, dport) payload es ed hs hd =
    let ls = length-to4 sip s4 es in
    let ld = length-to4 dip d4 ed in
    decode_v2_block 0x11 12 (v2_addresses s4 d4 sport dport) payload
      (length-v2_addresses 4 s4 d4 sport dport ls ld)
    ∙ ap (λ t. some (t, payload)) (decode_block_lem tcp4 4 s4 d4 sport dport ls ld)
decode_families none none (sip, sport) (dip, dport) payload es ed hs hd =
    let (ls, same) = to16_of_long sip hs es in
    let (ld, same') = to16_of_long dip hd ed in
    rw (same, same')
      (decode_v2_block 0x21 36 (v2_addresses sip dip sport dport) payload
          (length-v2_addresses 16 sip dip sport dport ls ld)
        ∙ ap (λ t. some (t, payload)) (decode_block_lem tcp6 16 sip dip sport dport ls ld))
decode_families (some s4) none s d payload es ed hs hd = unspec_lem payload
decode_families none (some d4) s d payload es ed hs hd = unspec_lem payload

decode_endpoints :
    (s d : Option Endpoint) (payload : List ℕ)
    → HasIp s
    → HasIp d
    → decode_v2 (v2_of_endpoints s d ++ payload) ≡ some (told s d, payload)
unfolding v2_of_endpoints
decode_endpoints (some s) (some d) payload hs hd =
    decode_families (to4 s.0) (to4 d.0) s d payload refl refl hs hd
decode_endpoints (some s) none payload hs hd = unspec_lem payload
decode_endpoints none d payload hs hd = unspec_lem payload

-- A receiver of version 2 of the PROXY protocol reads, behind the header of two addresses whose
-- IPs, where known, have 4 or 16 bytes, what these addresses are, or that they are not told, and
-- keeps the bytes that follow.
pub decode_v2-proxy_header_v2 :
    (net : NetText) (src dst : Addr) (payload : List ℕ)
    → HasIp (endpoint net src)
    → HasIp (endpoint net dst)
    → decode_v2 (proxy_header_v2 net src dst ++ payload)
      ≡ some (told (endpoint net src) (endpoint net dst), payload)
unfolding proxy_header_v2
decode_v2-proxy_header_v2 net src dst payload hs hd =
    decode_endpoints (endpoint net src) (endpoint net dst) payload hs hd
