-- ===== src/Startup/Exits.antt =====
-- Where the start of main.go ends although the configuration is valid.
use tlspxy.Common.{
  ◌≡◌, ◌≢◌, refl, arith, str_eq, eq_iff, Bool, true, false, Option, ◌⊎◌, Bool-cases, inl, inr,
}
use tlspxy.Common.Result.{Result-cases}
use tlspxy.Config.Koanf.{Koanf, set_string}
use tlspxy.Config.Validate.{server_type, folds_to_warning, validate_config}
use tlspxy.Config.Validate.Checks.{IsHttpUrl}
use tlspxy.Config.Validate.Accepts.{IsValidConfig, normalized, validate_config_iff}
use tlspxy.Tls.CertStore.{CertStore}
use tlspxy.Tls.Host.{TlsConfig}
use tlspxy.Tls.Server.{Listener, config_server}
use tlspxy.Tls.Remote.{config_remote}
use tlspxy.Startup.{
  Surroundings, Outcome, choose_server, set_up_tls, set_up_metrics, set_up_listener, run_loaded,
  unknown_server_type, bad_remote_url, no_remote_addr,
}

module _ {C P : Type 0} (s : Surroundings C P) where
  -- The ends of the switch on server.type that serve nothing.
  abbrev pub serves_nothing : Outcome C P → Bool
  serves_nothing unknown_server_type = true
  serves_nothing bad_remote_url = true
  serves_nothing no_remote_addr = true
  serves_nothing _ = false

  choose_server_serves :
      (k : Koanf) (l : Listener C P) (store : Option (CertStore C))
      (remote : Option (TlsConfig C P))
      → (k.string "server.type" ≡ "tcp")
        ⊎ (k.string "server.type" ≡ "http")
        ⊎ (k.string "server.type" ≡ "https")
      → k.string "remote.addr" ≢ ""
      → ((k.string "server.type" ≢ "http") × (k.string "server.type" ≢ "https"))
        ⊎ IsHttpUrl s.env (k.string "remote.addr")
      → serves_nothing (choose_server s k l store remote) ≡ false
  unfolding choose_server
  choose_server_serves k l store remote (inl tcp) addr url =
      elim (Bool-cases (str_eq (k.string "remote.addr") "")) [
        | inl blank ↦ absurd (addr ((eq_iff (k.string "remote.addr") "").0 blank))
        | inr given ↦ rw (tcp, given) refl
      ]
  choose_server_serves k l store remote (inr (inl http)) addr (inl other) = absurd (other.0 http)
  choose_server_serves k l store remote (inr (inl http)) addr (inr url) = rw (http, url.parses) refl
  choose_server_serves k l store remote (inr (inr https)) addr (inl other) = absurd (other.1 https)
  choose_server_serves k l store remote (inr (inr https)) addr (inr url) =
      rw (https, url.parses) refl

  server_type_given :
      (k : Koanf)
      → str_eq (k.string "server.type") "" ≡ false
      → server_type k ≡ k.string "server.type"
  server_type_given k given = rw given refl

  choose_server-valid :
      (k : Koanf) (l : Listener C P) (store : Option (CertStore C))
      (remote : Option (TlsConfig C P))
      → IsValidConfig s.env s.table k
      → str_eq (k.string "server.type") "" ≡ false
      → serves_nothing (choose_server s (normalized k) l store remote) ≡ false
  unfolding set_string
  choose_server-valid k l store remote valid given =
      let same = server_type_given k given in
      elim (Bool-cases (folds_to_warning (k.string "log.level"))) [
        | inl warning ↦ rw warning (
            choose_server_serves (set_string k "log.level" "warn") l store remote
              (rw⁻¹ same valid.type) valid.remote (rw⁻¹ same valid.remote_url))
        | inr other ↦ rw other (
            choose_server_serves k l store remote (rw⁻¹ same valid.type) valid.remote
              (rw⁻¹ same valid.remote_url))
      ]

  listener_unserved :
      (k : Koanf)
      → ((l : Listener C P) (store : Option (CertStore C)) (remote : Option (TlsConfig C P))
          → serves_nothing (choose_server s k l store remote) ≡ false)
      → serves_nothing (set_up_listener s k) ≡ false
  unfolding set_up_listener set_up_metrics set_up_tls
  listener_unserved k chosen = elim (Result-cases (config_server s.table s.host k)) [
    | inr (e, failed) ↦ ground (arith, failed)
    | inl ((l, store), listens) ↦ elim (Result-cases (config_remote s.table s.host k)) [
      | inr (e, failed) ↦ ground (arith, listens, failed)
      | inl (remote, dials) ↦ ground (arith, listens, dials, chosen l store remote)
    ]
  ]

  choose_server-untyped :
      (k : Koanf) (l : Listener C P) (store : Option (CertStore C))
      (remote : Option (TlsConfig C P))
      → (normalized k).string "server.type" ≡ k.string "server.type"
      → k.string "server.type" ≡ ""
      → choose_server s (normalized k) l store remote ≡ unknown_server_type
  unfolding choose_server
  choose_server-untyped k l store remote same blank = rw (same, blank) refl

  type-normalized : (k : Koanf) → (normalized k).string "server.type" ≡ k.string "server.type"
  unfolding set_string
  type-normalized k = elim (Bool-cases (folds_to_warning (k.string "log.level"))) [
    | inl warning ↦ rw warning refl
    | inr other ↦ rw other refl
  ]

  listener_ends :
      (k : Koanf)
      → ((l : Listener C P) (store : Option (CertStore C)) (remote : Option (TlsConfig C P))
          → choose_server s k l store remote ≡ unknown_server_type)
      → serves_nothing (set_up_listener s k) ≡ true
      → set_up_listener s k ≡ unknown_server_type
  unfolding set_up_listener set_up_metrics set_up_tls
  listener_ends k chosen ends = elim (Result-cases (config_server s.table s.host k)) [
    | inr (e, failed) ↦ ground (arith, failed, ends)
    | inl ((l, store), listens) ↦ elim (Result-cases (config_remote s.table s.host k)) [
      | inr (e, failed) ↦ ground (arith, listens, failed, ends)
      | inl (remote, dials) ↦ ground (arith, listens, dials, chosen l store remote, ends)
    ]
  ]

  -- Where main ends at its switch on server.type, for an unknown type, a missing remote.addr or a
  -- backend URL that does not parse, ValidateConfig has accepted the configuration, server.type is
  -- empty, and the end is that for an unknown type: the other two are never reached.
  pub run_loaded-exits :
      (k : Koanf)
      → serves_nothing (run_loaded s k) ≡ true
      → (k.string "server.type" ≡ "")
        × (run_loaded s k ≡ unknown_server_type)
        × IsValidConfig s.env s.table k
  unfolding run_loaded
  run_loaded-exits k ends = elim (Result-cases (validate_config s.env s.table k)) [
    | inr (e, failed) ↦ absurd (ground (arith, failed))
    | inl (k', accepted) ↦
        let (valid, same) = (validate_config_iff s.env s.table k k').0 accepted in
        elim (Bool-cases (str_eq (k.string "server.type") "")) [
          | inl blank ↦
              let empty = (eq_iff (k.string "server.type") "").0 blank in
              let last = listener_ends k' (λ l store remote.
                rw same (choose_server-untyped k l store remote (type-normalized k) empty)) in
              (empty, ground (arith, accepted, last, ends), valid)
          | inr given ↦
              let serves =
                listener_unserved k'
                  (λ l store remote. rw same (choose_server-valid k l store remote valid given)) in
              absurd (ground (arith, accepted, serves))
        ]
  ]
