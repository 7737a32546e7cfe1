-- ===== src/Proxy/Rewrite/Forwarding.antt =====
-- The forwarding headers that internal/proxy/rewrite.go sends to the backend.
use tlspxy.Common.{
  String, str_eq, ◌≡◌, refl, ap, ◌∙◌, arith, Bool, true, false, List, [], ◌∷◌, ◌++◌, none, some,
  lookup, insert, lookup-insert, if◌then◌else◌,
}
use tlspxy.Proxy.Rewrite.{
  Headers, without, Request, RewriteOps, values, join_values, set_x_forwarded, carry_forwarded,
  set_real_ip, set_user_agent, rewrite,
}

lookup-without : (key : String) (headers : Headers) → lookup key (without key headers) ≡ none
unfolding lookup without
lookup-without key [] = refl
lookup-without key (h ∷ headers) = ground (arith, lookup-without key headers)

values-without : (key : String) (headers : Headers) → values key (without key headers) ≡ []
values-without key headers = ground (arith, lookup-without key headers)

join_one : (v : String) → join_values (v ∷ []) ∷ [] ≡ v ∷ []
unfolding join_values
join_one v = refl

values-set_user_agent :
    (key : String) (headers : Headers)
    → str_eq "User-Agent" key ≡ false
    → values key (set_user_agent headers) ≡ values key headers
unfolding set_user_agent
values-set_user_agent key headers differs =
    ground (arith, differs, lookup-insert "User-Agent" key ("" ∷ []) headers)

module _ (ops : RewriteOps) (target target_host : String) (inbound out : Request) where
  -- The values of one header of the request to the backend.
  abbrev pub sent_values : Bool → String → List String
  sent_values trust key = values key (rewrite ops target target_host trust inbound out).headers

  -- Both ways to treat the header of the client.
  sent_lem :
      (trust : Bool) (key ip : String)
      → str_eq "User-Agent" key ≡ false
      → ops.split_host inbound.remote_addr ≡ some ip
      → sent_values trust key
        ≡ values key (
            insert "X-Real-IP" (ip ∷ []) (
              insert "X-Forwarded-Proto" ((if inbound.tls then "https" else "http") ∷ []) (
                insert "X-Forwarded-Host" (inbound.host ∷ []) (
                  insert "X-Forwarded-For"
                    (join_values (
                        values "X-Forwarded-For" (carry_forwarded trust inbound out.headers)
                        ++ ip ∷ [])
                      ∷ [])
                    (carry_forwarded trust inbound out.headers)))))
  unfolding rewrite set_real_ip set_x_forwarded
  sent_lem trust key ip differs known =
      values-set_user_agent key
        (set_real_ip ops inbound
          (set_x_forwarded ops inbound (carry_forwarded trust inbound out.headers)))
        differs
      ∙ ground (arith, known)

  -- If the peer's address has an IP, then without trust the backend gets that IP alone as
  -- X-Forwarded-For, whatever the client sent; with trust it gets what the client sent, with the IP
  -- appended. X-Real-IP is the IP, X-Forwarded-Proto tells whether the client used TLS, and
  -- X-Forwarded-Host is the host that the client asked for, in both cases.
  pub rewrite-forwards :
      (trust : Bool) (ip : String)
      → ops.split_host inbound.remote_addr ≡ some ip
      → (sent_values trust "X-Forwarded-For"
          ≡ (if trust
              then join_values (values "X-Forwarded-For" inbound.headers ++ ip ∷ [])
              else ip)
            ∷ [])
        × (sent_values trust "X-Real-IP" ≡ ip ∷ [])
        × (sent_values trust "X-Forwarded-Proto" ≡ (if inbound.tls then "https" else "http") ∷ [])
        × (sent_values trust "X-Forwarded-Host" ≡ inbound.host ∷ [])
  unfolding lookup insert carry_forwarded
  rewrite-forwards true ip known = (
    sent_lem true "X-Forwarded-For" ip refl known,
    sent_lem true "X-Real-IP" ip refl known,
    sent_lem true "X-Forwarded-Proto" ip refl known,
    sent_lem true "X-Forwarded-Host" ip refl known,
  )
  rewrite-forwards false ip known = (
    sent_lem false "X-Forwarded-For" ip refl known
        ∙ ap (λ vs. join_values (vs ++ ip ∷ []) ∷ []) (values-without "X-Forwarded-For" out.headers)
        ∙ join_one ip,
    sent_lem false "X-Real-IP" ip refl known,
    sent_lem false "X-Forwarded-Proto" ip refl known,
    sent_lem false "X-Forwarded-Host" ip refl known,
  )
