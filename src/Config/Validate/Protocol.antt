-- ===== src/Config/Validate/Protocol.antt =====
-- What validation promises about the PROXY protocol of internal/proxy/proxyproto.go.
use tlspxy.Common.{ℕ, ◌≡◌, ◌⊎◌, inl, inr, refl, String, List, [], Bool-cases, arith}
use tlspxy.Common.Result.{ok}
use tlspxy.Config.Koanf.{Koanf, set_string}
use tlspxy.Config.Validate.{Env, server_type, validate_config, folds_to_warning}
use tlspxy.Config.Validate.Accepts.{normalized, validate_config_iff}
use tlspxy.Tls.Versions.{CipherTable}
use tlspxy.Proxy.Header.{NetText, Addr, proxy_header_v2}
use tlspxy.Proxy.Header.Text.{proxy_header_v1, proxy_header}

proxy_header_builds :
    (net : NetText) (version : String) (src dst : Addr)
    → (version ≡ "") ⊎ (version ≡ "v1") ⊎ (version ≡ "v2")
    → (header : List ℕ) × (proxy_header net version src dst ≡ ok header)
unfolding proxy_header
proxy_header_builds net version src dst (inl off) = ([], rw off refl)
proxy_header_builds net version src dst (inr (inl v1)) = (proxy_header_v1 net src dst, rw v1 refl)
proxy_header_builds net version src dst (inr (inr v2)) = (proxy_header_v2 net src dst, rw v2 refl)

protocol_is_known :
    (k : Koanf)
    → (k.string "remote.proxyprotocol" ≡ "")
      ⊎ ((server_type k ≡ "tcp")
          × ((k.string "remote.proxyprotocol" ≡ "v1") ⊎ (k.string "remote.proxyprotocol" ≡ "v2")))
    → ((normalized k).string "remote.proxyprotocol" ≡ "")
      ⊎ ((normalized k).string "remote.proxyprotocol" ≡ "v1")
      ⊎ ((normalized k).string "remote.proxyprotocol" ≡ "v2")
unfolding set_string
protocol_is_known k h = elim (Bool-cases (folds_to_warning (k.string "log.level"))) [
  | inl warning ↦ rw warning (ground arith)
  | inr other ↦ rw other (ground arith)
]

-- After validation ProxyHeader has no error for the configured version of the PROXY protocol,
-- whatever the addresses.
pub validated_proxy_header :
    (env : Env) (table : CipherTable) (k k' : Koanf) (net : NetText) (src dst : Addr)
    → validate_config env table k ≡ ok k'
    → (header : List ℕ) × (proxy_header net (k'.string "remote.proxyprotocol") src dst ≡ ok header)
validated_proxy_header env table k k' net src dst accepted =
    let (valid, same) = (validate_config_iff env table k k').0 accepted in
    proxy_header_builds net (k'.string "remote.proxyprotocol") src dst
      (rw same (protocol_is_known k valid.proxy_protocol))
