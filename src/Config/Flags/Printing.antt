-- ===== src/Config/Flags/Printing.antt =====
-- What internal/config/config.go prints of its flags: printGroupedHelp, flag.Usage of LoadFlags, and
-- PrettyPrintFlagMap. Texts are code points.
use tlspxy.Common.{
  Bool, true, false, ◌||◌, not, String, str_eq, List, [], ◌∷◌, ◌++◌, Option, none, some, ltb, ◌==◌,
  codes, text_eq, newline, pad_right, if◌then◌else◌,
}
use tlspxy.Config.Koanf.{Value, absent, str, boolean, int, list, object, Fields, end, field}
use tlspxy.Config.Sources.{Text}
use tlspxy.Config.Flags.{Flag, describe}
use tlspxy.Config.Flags.Help.{flag_desc, FlagGroup, help_groups}
use tlspxy.Proxy.Header.Text.{decimal}

-- The text of a default: DefValue of a flag, and "%+v" of a value.
unfoldable pub value_text : Value → Text
value_text (str s) = codes s
value_text (boolean b) = if b then codes "true" else codes "false"
value_text (int n) = decimal n
value_text absent = []
value_text (list items) = []
value_text (object m) = []

-- registered[name].
unfoldable pub find_flag : Text → List Flag → Option Flag
find_flag name [] = none
find_flag name (f ∷ flags) =
    let rest = find_flag name flags in if text_eq f.name name then some f else rest

abbrev pub default_or_quotes : Text → Text
default_or_quotes [] = b'"' ∷ b'"' ∷ []
default_or_quotes (c ∷ s) = c ∷ s

-- The line of a flag.
unfoldable pub help_line : List Flag → String → Text
help_line registered name =
    let column =
      codes "    -"
      ++ (pad_right 38 (codes name) ++ (codes " " ++ describe (codes name) flag_desc)) in
    elim (find_flag (codes name) registered) [
      | none ↦ column ++ newline
      | some f ↦
          column
          ++ (codes " (default: "
              ++ (default_or_quotes (value_text f.default) ++ (codes ")" ++ newline)))
    ]

unfoldable pub help_lines : List Flag → List String → Text
help_lines registered [] = []
help_lines registered (name ∷ names) = help_line registered name ++ help_lines registered names

unfoldable pub help_group : List Flag → FlagGroup → Text
help_group registered group =
    codes "  "
    ++ (codes group.name
        ++ (codes ":" ++ (newline ++ (help_lines registered group.flags ++ newline))))

-- printGroupedHelp, where these flags are registered.
unfoldable pub print_grouped_help : List Flag → List FlagGroup → Text
print_grouped_help registered [] = []
print_grouped_help registered (group ∷ groups) =
    help_group registered group ++ print_grouped_help registered groups

unfoldable pub version_lines : String → String → Text
version_lines app_version commit_id =
    if not (str_eq app_version "") || not (str_eq commit_id "")
    then codes "  Version:  "
      ++ (codes app_version
          ++ (codes " (commit " ++ (codes commit_id ++ (codes ")" ++ (newline ++ newline)))))
    else []

-- One line after the other.
abbrev pub lines : List String → Text
lines [] = []
lines (s ∷ texts) = codes s ++ (newline ++ lines texts)

-- flag.Usage.
unfoldable pub print_usage : List Flag → String → String → Text
print_usage registered app_version commit_id =
    lines ("tlspxy — TLS-terminating TCP and HTTP reverse proxy" ∷ "" ∷ [])
    ++ (version_lines app_version commit_id
        ++ (lines ("Usage:" ∷ "  tlspxy [OPTIONS]" ∷ "" ∷ [])
            ++ (print_grouped_help registered help_groups
                ++ lines (
                    "Configuration is loaded in layers (each overrides the previous):"
                    ∷ "  1. Built-in defaults"
                    ∷ "  2. YAML files in working directory (auto-discovered)"
                    ∷ "  3. YAML files/directories specified via -config"
                    ∷ "  4. Environment variables (TLSPXY_ prefix)" ∷ "  5. CLI flags" ∷ ""
                    ∷ "See https://github.com/colebrumley/tlspxy for documentation." ∷ []))))

-- The order of sort.Strings.
unfoldable pub before : Text → Text → Bool
before [] t = true
before (c ∷ s) [] = false
before (c ∷ s) (d ∷ t) = let rest = before s t in if c == d then rest else ltb c d

unfoldable pub insert_entry : Text × Text → List (Text × Text) → List (Text × Text)
unfolding before
insert_entry e [] = e ∷ []
insert_entry e (f ∷ entries) =
    let rest = insert_entry e entries in if before e.0 f.0 then e ∷ f ∷ entries else f ∷ rest

-- The texts of the entries, by their keys in order.
unfoldable pub print_sorted : List (Text × Text) → Text
print_sorted [] = []
print_sorted (e ∷ entries) = e.1 ++ print_sorted entries

-- "-" and strings.Join(prefix, "-") with the key, where there is a prefix.
unfoldable pub dashed : List Text → Text → Text
dashed [] key = key
dashed (p ∷ prefix) key = p ++ b'-' ∷ dashed prefix key

-- The line of a value that is no map.
unfoldable pub pretty_leaf : Value → Text → List Text → Text
pretty_leaf v k prefix =
    codes "  -" ++ (dashed prefix k ++ (codes "=" ++ (value_text v ++ newline)))

unfoldable mutual
  -- What PrettyPrintFlagMap prints for each key, with the keys in order. What is printed for a key does
  -- not depend on the others, so that the texts can be put in order after they are made.
  pub pretty_entries : Fields → List Text → List (Text × Text)
  pretty_entries end prefix = []
  pretty_entries (field k v m) prefix =
      insert_entry (codes k, pretty_value v (codes k) prefix) (pretty_entries m prefix)

  pub pretty_value : Value → Text → List Text → Text
  pretty_value (object v) k prefix = print_sorted (pretty_entries v (prefix ++ k ∷ []))
  pretty_value (str s) k prefix = pretty_leaf (str s) k prefix
  pretty_value (int n) k prefix = pretty_leaf (int n) k prefix
  pretty_value (boolean b) k prefix = pretty_leaf (boolean b) k prefix
  pretty_value absent k prefix = []
  pretty_value (list items) k prefix = []

unfoldable pub pretty_print_flag_map : Fields → List Text → Text
pretty_print_flag_map m prefix = print_sorted (pretty_entries m prefix)
