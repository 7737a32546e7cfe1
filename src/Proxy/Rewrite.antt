-- ===== src/Proxy/Rewrite.antt =====
-- NewRewrite of internal/proxy/rewrite.go, and CheckMiddleware of internal/health/health.go. Go's
-- ProxyRequest.SetURL is a parameter; SetXForwarded does what its documentation says: it appends the
-- peer's IP to the X-Forwarded-For headers of the outbound request, joined by ", ", and sets
-- X-Forwarded-Host and X-Forwarded-Proto. The keys of headers are canonical.
pub mod Forwarding
use tlspxy.Common.{
  ℕ, String, str_eq, str_append, Bool, true, false, List, [], ◌∷◌, ◌++◌, Option, none, some, lookup,
  insert, if◌then◌else◌,
}

abbrev pub Headers : Type 0
Headers = List (String × List String)

-- A map without a key.
unfoldable pub without : String → Headers → Headers
without key [] = []
without key (h ∷ headers) =
    let others = without key headers in if str_eq h.0 key then others else h ∷ others

-- http.Request: what the rewrite reads and writes of it. `tls` is TLS != nil.
pub record Request : Type 0 where
  pub url : String
  pub host : String
  pub remote_addr : String
  pub tls : Bool
  pub headers : Headers

-- SetURL's routed URL, and net.SplitHostPort.
pub record RewriteOps : Type 0 where
  pub route : String → String → String
  pub split_host : String → Option String

-- h[key]: nil, the empty list, where the key is missing.
abbrev pub values : String → Headers → List String
values key headers = elim (lookup key headers) [ none ↦ [] | some vs ↦ vs ]

-- strings.Join(vs, ", ").
unfoldable pub join_values : List String → String
join_values [] = ""
join_values (v ∷ []) = v
join_values (v ∷ w ∷ vs) = str_append v (str_append ", " (join_values (w ∷ vs)))

-- ProxyRequest.SetXForwarded: it deletes X-Forwarded-For where the peer's address does not parse.
unfoldable pub set_x_forwarded : RewriteOps → Request → Headers → Headers
set_x_forwarded ops inbound out =
    let out' : Headers = elim (ops.split_host inbound.remote_addr) [
      | none ↦ without "X-Forwarded-For" out
      | some ip ↦
          insert "X-Forwarded-For" (join_values (values "X-Forwarded-For" out ++ ip ∷ []) ∷ []) out
    ] in
    insert "X-Forwarded-Proto" ((if inbound.tls then "https" else "http") ∷ [])
      (insert "X-Forwarded-Host" (inbound.host ∷ []) out')

-- `if trustXFF { … } else { … }`.
unfoldable pub carry_forwarded : Bool → Request → Headers → Headers
carry_forwarded trust inbound out =
    if trust
    then insert "X-Forwarded-For" (values "X-Forwarded-For" inbound.headers) out
    else without "X-Forwarded-For" out

unfoldable pub set_real_ip : RewriteOps → Request → Headers → Headers
set_real_ip ops inbound out = elim (ops.split_host inbound.remote_addr) [
  | none ↦ out
  | some ip ↦ insert "X-Real-IP" (ip ∷ []) out
]

unfoldable pub set_user_agent : Headers → Headers
set_user_agent out = elim (lookup "User-Agent" out) [
  | none ↦ insert "User-Agent" ("" ∷ []) out
  | some vs ↦ out
]

-- The function that NewRewrite returns, on the inbound and the outbound request.
unfoldable pub rewrite : RewriteOps → String → String → Bool → Request → Request → Request
rewrite ops target target_host trust inbound out = record out {
  url = ops.route target out.url;
  host = target_host;
  headers = set_user_agent (
      set_real_ip ops inbound
        (set_x_forwarded ops inbound (carry_forwarded trust inbound out.headers)));
}

-- Who answers a request: the health check, or the next handler.
pub data Answer : Type 0 where
  healthy : Answer
  forwarded : Answer

unfoldable pub check_middleware : String → String → Answer
check_middleware path request_path = if str_eq request_path path then healthy else forwarded
