-- ===== src/Config/Sources/Arguments.antt =====
-- The paths that the command line of internal/config/config.go names.
use mathlib.Core.List.{append-nil}
use tlspxy.Common.{
  sym, ◌∙◌, ◌≡◌, refl, ap, arith, Bool, true, false, List, [], ◌∷◌, ◌++◌, codes, if◌then◌else◌,
}
use tlspxy.Config.Sources.{Text, is_config_flag, inline_path, parse_config_paths}

-- An argument: a path after the flag or joined to it, with one dash or two, or any other word.
data Argument : Type 0 where
  separate joined : Bool → Text → Argument
  word : Text → Argument

abbrev words : List Argument → List Text
words [] = []
words (separate two path ∷ args) =
    (if two then codes "--config" else codes "-config") ∷ path ∷ words args
words (joined two path ∷ args) =
    ((if two then codes "--config=" else codes "-config=") ++ path) ∷ words args
words (word w ∷ args) = w ∷ words args

abbrev named_paths : List Argument → List Text
named_paths [] = []
named_paths (separate two path ∷ args) = path ∷ named_paths args
named_paths (joined two path ∷ args) = path ∷ named_paths args
named_paths (word w ∷ args) = named_paths args

-- No other word is or begins like the flag.
abbrev PlainWords : List Argument → Type 0
PlainWords [] = Unit
PlainWords (separate two path ∷ args) = PlainWords args
PlainWords (joined two path ∷ args) = PlainWords args
PlainWords (word w ∷ args) = (is_config_flag w ≡ false) × (inline_path w ≡ []) × PlainWords args

parse_flag :
    (arg : Text) (args : List Text)
    → is_config_flag arg ≡ false
    → parse_config_paths (arg ∷ args) ≡ inline_path arg ++ parse_config_paths args
unfolding parse_config_paths
parse_flag arg [] h = rw h (sym (append-nil (inline_path arg)))
parse_flag arg (value ∷ args) h = ground (arith, h)

-- Every path that the command line gives for the flag -config, in any of its four spellings, is
-- found, in order, and nothing else, if no other word is or begins like the flag.
parse_config_paths-words :
    (args : List Argument) → PlainWords args → parse_config_paths (words args) ≡ named_paths args
unfolding parse_config_paths inline_path
parse_config_paths-words [] h = refl
parse_config_paths-words (separate true path ∷ args) h =
    ap (λ t. path ∷ t) (parse_config_paths-words args h)
parse_config_paths-words (separate false path ∷ args) h =
    ap (λ t. path ∷ t) (parse_config_paths-words args h)
parse_config_paths-words (joined true path ∷ args) h =
    parse_flag (codes "--config=" ++ path) (words args) refl
    ∙ ap (λ t. path ∷ t) (parse_config_paths-words args h)
parse_config_paths-words (joined false path ∷ args) h =
    parse_flag (codes "-config=" ++ path) (words args) refl
    ∙ ap (λ t. path ∷ t) (parse_config_paths-words args h)
parse_config_paths-words (word w ∷ args) h =
    parse_flag w (words args) h.0
    ∙ ap (λ t. t ++ parse_config_paths (words args)) h.1
    ∙ parse_config_paths-words args h.2
