-- ===== src/Loadtest/Harness/Director.antt =====
-- The director of setupHTTP in internal/loadtest/harness.go.
use tlspxy.Common.{
  ℕ, String, str_eq, str_append, false, ◌≡◌, arith, List, [], ◌∷◌, Option, none, some, lookup,
  insert, if◌then◌else◌,
}
use tlspxy.Proxy.Join.{single_joining_slash}
use tlspxy.Proxy.Rewrite.{Headers, values}

-- url.URL: its scheme, host and path.
pub record TargetUrl : Type 0 where
  pub scheme : String
  pub host : String
  pub path : List ℕ

-- http.Request, as far as the director goes.
pub record OutRequest : Type 0 where
  pub host : String
  pub url : TargetUrl
  pub remote_addr : String
  pub headers : Headers

-- Header.Get: the first value, or the empty text.
unfoldable pub first_value : String → Headers → String
first_value key headers = elim (values key headers) [ [] ↦ "" | v ∷ vs ↦ v ]

-- Header.Set.
abbrev pub set_value : String → String → Headers → Headers
set_value key v headers = insert key (v ∷ []) headers

-- clientIP, behind what came before it.
unfoldable pub shown_ip : String → Headers → String
shown_ip ip headers =
    let prior = first_value "X-Forwarded-For" headers in
    if str_eq prior "" then ip else str_append prior (str_append ", " ip)

-- The headers, where net.SplitHostPort takes the address.
unfoldable pub forward_headers : Option String → Headers → Headers
forward_headers none headers = headers
forward_headers (some ip) headers =
    let shown = shown_ip ip headers in
    set_value "X-Real-IP" shown (set_value "X-Forwarded-For" shown headers)

unfoldable pub director : (String → Option String) → TargetUrl → OutRequest → OutRequest
director split_host backend req = record req {
  host = backend.host;
  url = record {
    scheme = backend.scheme;
    host = backend.host;
    path = single_joining_slash backend.path req.url.path;
  };
  headers = forward_headers (split_host req.remote_addr) req.headers;
}

-- Where the client sends an X-Forwarded-For, X-Real-IP is the whole chain of addresses.
pub director-real_ip :
    (split_host : String → Option String) (backend : TargetUrl) (req : OutRequest) (ip : String)
    → split_host req.remote_addr ≡ some ip
    → str_eq (first_value "X-Forwarded-For" req.headers) "" ≡ false
    → let shown = str_append (first_value "X-Forwarded-For" req.headers) (str_append ", " ip) in
      (lookup "X-Real-IP" (director split_host backend req).headers ≡ some (shown ∷ []))
      × (lookup "X-Forwarded-For" (director split_host backend req).headers ≡ some (shown ∷ []))
unfolding director forward_headers shown_ip lookup insert
director-real_ip split_host backend req ip addr prior = ground (arith, addr, prior)
