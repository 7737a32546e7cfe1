-- ===== src/Proxy/Header.antt =====
-- internal/proxy/proxyproto.go: the HAProxy PROXY protocol header that carries the client's address
-- to the backend. Addresses are bytes, as in Go's net.IP. What Go's libraries read in the text of an
-- address, and the text of an IPv6 address, are parameters.
pub mod V2
pub mod V1
pub mod Text
use tlspxy.Common.{
  ℕ, zero, suc, ◌+◌, ◌-◌, ◌*◌, ◌/◌, ◌%◌, String, str_eq, Bool, true, false, not, ◌&&◌, ◌||◌, List,
  [], ◌∷◌, ◌++◌, Option, none, some, ◌==◌, ltb, length, take, drop, codes, text_eq, if◌then◌else◌,
}
use tlspxy.Common.Result.{Result, ok, err}
use tlspxy.Config.Koanf.{ℤ, pos, negsuc}

-- net.Addr: a *net.TCPAddr, or any other by its String().
pub data Addr : Type 0 where
  tcp_addr : List ℕ → ℤ → Addr
  other_addr : String → Addr

-- net.SplitHostPort, net.ParseIP, fmt.Sscanf with "%d", and net.IP.String where To4 is nil.
pub record NetText : Type 0 where
  pub split_host_port : String → Option (String × String)
  pub parse_ip : String → Option (List ℕ)
  pub scan_int : String → Option ℤ
  pub ip6_text : List ℕ → List ℕ

abbrev pub Endpoint : Type 0
Endpoint = List ℕ × ℤ

-- tcpAddr: the IP and the port, `none` where there is none.
unfoldable pub endpoint : NetText → Addr → Option Endpoint
endpoint net (tcp_addr ip port) = some (ip, port)
endpoint net (other_addr text) = elim (net.split_host_port text) [
  | none ↦ none
  | some (host, port_text) ↦ elim (net.parse_ip host) [
    | none ↦ none
    | some ip ↦ elim (net.scan_int port_text) [ none ↦ none | some port ↦ some (ip, port) ]
  ]
]

abbrev pub v4_in_v6_prefix : List ℕ
v4_in_v6_prefix = 0 ∷ 0 ∷ 0 ∷ 0 ∷ 0 ∷ 0 ∷ 0 ∷ 0 ∷ 0 ∷ 0 ∷ 0xff ∷ 0xff ∷ []

-- net.IP.To4; `none` is nil.
unfoldable pub to4 : List ℕ → Option (List ℕ)
to4 ip =
    if length ip == 4
    then some ip
    else if length ip == 16 && text_eq (take 12 ip) v4_in_v6_prefix
    then some (drop 12 ip)
    else none

-- net.IP.To16; nil is the empty list.
unfoldable pub to16 : List ℕ → List ℕ
to16 ip = if length ip == 4 then v4_in_v6_prefix ++ ip else if length ip == 16 then ip else []

-- uint16(n).
unfoldable pub to_u16 : ℤ → ℕ
to_u16 (pos n) = n % 65536
to_u16 (negsuc n) = 65535 - n % 65536

-- binary.BigEndian.AppendUint16 appends these two bytes.
abbrev pub be16 : ℕ → List ℕ
be16 n = (n / 256) ∷ (n % 256) ∷ []

abbrev pub v2_signature : List ℕ
v2_signature =
    0x0d ∷ 0x0a ∷ 0x0d ∷ 0x0a ∷ 0x00 ∷ 0x0d ∷ 0x0a ∷ 0x51 ∷ 0x55 ∷ 0x49 ∷ 0x54 ∷ 0x0a ∷ []

-- The header of one family: the signature, version 2 with the command PROXY, the family and
-- protocol, the length, and the addresses.
abbrev pub v2_block : ℕ → ℕ → List ℕ → List ℕ
v2_block family size addresses = v2_signature ++ (0x21 ∷ family ∷ (be16 size ++ addresses))

abbrev pub v2_unspec : List ℕ
v2_unspec = v2_block 0x00 0 []

abbrev pub v2_addresses : List ℕ → List ℕ → ℤ → ℤ → List ℕ
v2_addresses s d sport dport = s ++ (d ++ (be16 (to_u16 sport) ++ be16 (to_u16 dport)))

-- proxyHeaderV2, by what To4 gives for the two addresses.
unfoldable pub v2_of_families : Option (List ℕ) → Option (List ℕ) → Endpoint → Endpoint → List ℕ
v2_of_families (some s4) (some d4) (sip, sport) (dip, dport) =
    v2_block 0x11 12 (v2_addresses s4 d4 sport dport)
v2_of_families none none (sip, sport) (dip, dport) =
    v2_block 0x21 36 (v2_addresses (to16 sip) (to16 dip) sport dport)
v2_of_families (some s4) none _ _ = v2_unspec
v2_of_families none (some d4) _ _ = v2_unspec

-- proxyHeaderV2, by what tcpAddr gives for the two addresses.
unfoldable pub v2_of_endpoints : Option Endpoint → Option Endpoint → List ℕ
unfolding v2_of_families
v2_of_endpoints (some s) (some d) = v2_of_families (to4 s.0) (to4 d.0) s d
v2_of_endpoints (some s) none = v2_unspec
v2_of_endpoints none _ = v2_unspec

unfoldable pub proxy_header_v2 : NetText → Addr → Addr → List ℕ
unfolding v2_of_endpoints
proxy_header_v2 net src dst = v2_of_endpoints (endpoint net src) (endpoint net dst)
