-- ===== src/Service/Logging.antt =====
-- internal/logging/logging.go: the level and the destination of the log.
use tlspxy.Common.{
  ℕ, ◌≡◌, ◌≢◌, ◌↔◌, refl, ap, arith, String, str_eq, eq_iff, Bool, true, false, not, ◌&&◌, List,
  if◌then◌else◌, codes, has_prefix, drop, length, Bool-cases, inl, inr,
}
use tlspxy.Common.Result.{ok}
use tlspxy.Config.Koanf.{Koanf, set_string}
use tlspxy.Config.Validate.{Env, folds_to_warning, validate_config}
use tlspxy.Config.Validate.Accepts.{normalized, validate_config_iff}
use tlspxy.Tls.Versions.{CipherTable}

pub data LogLevel : Type 0 where
  level_debug level_info level_warn level_error : LogLevel

-- The switch on log.level.
unfoldable pub level_of : String → LogLevel
level_of verbosity =
    if str_eq verbosity "debug"
    then level_debug
    else if str_eq verbosity "warning"
    then level_warn
    else if str_eq verbosity "error"
    then level_error
    else level_info

pub data Destination : Type 0 where
  to_stdout : Destination
  to_file : String → Destination
  to_syslog : List ℕ → Destination

-- What Configure does: it sets up the destination, or ends the program where syslog has an error.
pub data Configured : Type 0 where
  configured : LogLevel → Destination → Configured
  exits : Configured

-- The systems that syslogging is written for.
pub data Platform : Type 0 where
  linux darwin windows : Platform

-- syslog.Dial, and os.OpenFile for appending: whether they succeed.
pub record LogTargets : Type 0 where
  pub platform : Platform
  pub dials : List ℕ → Bool
  pub opens : String → Bool

-- syslogging, true where it has no error.
unfoldable pub syslogging : LogTargets → List ℕ → Bool
syslogging targets address = elim targets.platform [
  | linux ↦ targets.dials address
  | darwin ↦ targets.dials address
  | windows ↦ false
]

unfoldable pub log_dest : Koanf → String
log_dest k = let dest = k.string "log.destination" in if str_eq dest "" then "stdout" else dest

-- Configure.
unfoldable pub configure : LogTargets → Koanf → Configured
configure targets k =
    let level = level_of (k.string "log.level") in
    let dest = log_dest k in
    let syslog_prefix = codes "syslog://" in
    if has_prefix (codes dest) syslog_prefix
    then (let address = drop (length syslog_prefix) (codes dest) in
        if syslogging targets address then configured level (to_syslog address) else exits)
    else if not (str_eq dest "") && not (str_eq dest "stdout")
    then (if targets.opens dest
        then configured level (to_file dest)
        else configured level to_stdout)
    else configured level to_stdout

-- Configure ends the program exactly where the destination is a syslog address for which syslogging
-- has an error.
configure-exits :
    (targets : LogTargets) (k : Koanf)
    → (configure targets k ≡ exits) ↔ (
        (has_prefix (codes (log_dest k)) (codes "syslog://") ≡ true)
        × (syslogging targets (drop (length (codes "syslog://")) (codes (log_dest k))) ≡ false))
unfolding configure
configure-exits targets k = (λ h. ground (arith, h), λ h. ground (arith, h))

abbrev LevelIs : LogLevel → Configured → Type 0
LevelIs l (configured m d) = m ≡ l
LevelIs l exits = Unit

configure-level :
    (targets : LogTargets) (k : Koanf)
    → LevelIs (level_of (k.string "log.level")) (configure targets k)
unfolding configure
configure-level targets k = ground arith

level_of_folding : (v : String) → folds_to_warning v ≡ false → level_of v ≢ level_warn
unfolding level_of folds_to_warning
level_of_folding v other = elim (Bool-cases (str_eq v "warning")) [
  | inl same ↦
      let folds : folds_to_warning v ≡ true = ap folds_to_warning ((eq_iff v "warning").0 same) in
      absurd (ground (arith, folds, other))
  | inr differs ↦ λ h. absurd (ground (arith, differs, h))
]

level_of-normalized :
    (k : Koanf)
    → level_of ((normalized k).string "log.level") ≡ (
        if folds_to_warning (k.string "log.level")
        then level_info
        else level_of (k.string "log.level"))
unfolding level_of set_string
level_of-normalized k = elim (Bool-cases (folds_to_warning (k.string "log.level"))) [
  | inl warning ↦ rw warning refl
  | inr other ↦ rw other refl
]

level_of-normalized_warn : (k : Koanf) → level_of ((normalized k).string "log.level") ≢ level_warn
level_of-normalized_warn k = elim (Bool-cases (folds_to_warning (k.string "log.level"))) [
  | inl warning ↦ λ h. absurd (ground (arith, level_of-normalized k, warning, h))
  | inr other ↦ λ h.
      level_of_folding (k.string "log.level") other
        (ground (arith, level_of-normalized k, other, h))
]

-- After validation the log never has the level "warn": the level is "info" wherever any spelling of
-- "warning" was asked for, and else that of the text.
validated_level :
    (env : Env) (table : CipherTable) (k k' : Koanf) (targets : LogTargets)
    → validate_config env table k ≡ ok k'
    → (level_of (k'.string "log.level") ≢ level_warn)
      × LevelIs (level_of (k'.string "log.level")) (configure targets k')
      × (level_of (k'.string "log.level") ≡ (
          if folds_to_warning (k.string "log.level")
          then level_info
          else level_of (k.string "log.level")))
validated_level env table k k' targets accepted =
    let same = ((validate_config_iff env table k k').0 accepted).1 in
    (
      rw same (level_of-normalized_warn k),
      configure-level targets k',
      rw same (level_of-normalized k),
    )
