-- ===== src/Proxy/Header/Text.antt =====
-- Version 1 of the header, which is text, and ProxyHeader, which chooses the version, of
-- internal/proxy/proxyproto.go.
use tlspxy.Common.{
  ℕ, zero, suc, ◌+◌, ◌/◌, ◌%◌, String, str_eq, List, [], ◌∷◌, ◌++◌, Option, none, some, ltb, codes,
  if◌then◌else◌,
}
use tlspxy.Common.Result.{Result, ok, err}
use tlspxy.Config.Koanf.{ℤ, pos, negsuc}
use tlspxy.Proxy.Header.{NetText, Addr, Endpoint, endpoint, to4, proxy_header_v2}

-- The decimal digits of n; fuel above n is enough.
unfoldable pub digits : ℕ → ℕ → List ℕ
digits zero n = []
digits (suc fuel) n =
    let higher = digits fuel (n / 10) in
    if ltb n 10 then (48 + n) ∷ [] else higher ++ (48 + n % 10) ∷ []

-- fmt's "%d".
unfoldable pub decimal : ℤ → List ℕ
unfolding digits
decimal (pos n) = digits (suc n) n
decimal (negsuc n) = b'-' ∷ digits (suc (suc n)) (suc n)

-- net.IP.String of the four bytes of an IPv4 address; a text of another length is not asked for.
unfoldable pub ip4_text : List ℕ → List ℕ
unfolding decimal
ip4_text [] = []
ip4_text (b ∷ []) = decimal (pos b)
ip4_text (b ∷ c ∷ ip) = decimal (pos b) ++ b'.' ∷ ip4_text (c ∷ ip)

abbrev pub crlf : List ℕ
crlf = 13 ∷ 10 ∷ []

abbrev pub v1_unknown : List ℕ
v1_unknown = codes "PROXY UNKNOWN" ++ crlf

-- fmt.Sprintf("PROXY <family> %s %s %d %d\r\n", …).
abbrev pub v1_line : String → List ℕ → List ℕ → ℤ → ℤ → List ℕ
v1_line family s d sport dport =
    let ports = decimal sport ++ b' ' ∷ (decimal dport ++ crlf) in
    codes "PROXY " ++ (codes family ++ b' ' ∷ (s ++ b' ' ∷ (d ++ b' ' ∷ ports)))

-- proxyHeaderV1, by what To4 gives for the two addresses.
unfoldable pub v1_of_families :
    NetText → Option (List ℕ) → Option (List ℕ) → Endpoint → Endpoint → List ℕ
unfolding ip4_text
v1_of_families net (some s4) (some d4) s d = v1_line "TCP4" (ip4_text s4) (ip4_text d4) s.1 d.1
v1_of_families net none none s d = v1_line "TCP6" (net.ip6_text s.0) (net.ip6_text d.0) s.1 d.1
v1_of_families net (some s4) none s d = v1_unknown
v1_of_families net none (some d4) s d = v1_unknown

-- proxyHeaderV1, by what tcpAddr gives for the two addresses.
unfoldable pub v1_of_endpoints : NetText → Option Endpoint → Option Endpoint → List ℕ
unfolding v1_of_families
v1_of_endpoints net (some s) (some d) = v1_of_families net (to4 s.0) (to4 d.0) s d
v1_of_endpoints net (some s) none = v1_unknown
v1_of_endpoints net none _ = v1_unknown

unfoldable pub proxy_header_v1 : NetText → Addr → Addr → List ℕ
unfolding v1_of_endpoints
proxy_header_v1 net src dst = v1_of_endpoints net (endpoint net src) (endpoint net dst)

pub data HeaderError : Type 0 where
  unknown_proxy_protocol : String → HeaderError

-- ProxyHeader; nil is the empty list.
unfoldable pub proxy_header : NetText → String → Addr → Addr → Result HeaderError (List ℕ)
proxy_header net version src dst =
    if str_eq version "v1"
    then ok (proxy_header_v1 net src dst)
    else if str_eq version "v2"
    then ok (proxy_header_v2 net src dst)
    else if str_eq version ""
    then ok []
    else err (unknown_proxy_protocol version)
