-- ===== src/Config/Flags/Keys.antt =====
-- The keys under which LoadFlags of internal/config/config.go stores the flags of RegisterFlags.
use mathlib.Core.List.{map-append}
use tlspxy.Common.{
  ℕ, false, ◌≡◌, refl, ap, sym, ◌∙◌, arith, List, [], ◌∷◌, ◌++◌, map, Option, some, ◌==◌, codes,
  text_eq, text_eq→eq, if◌then◌else◌, Bool-cases, inl, inr,
}
use mathlib.Core.Path.{subst}
use tlspxy.Config.Koanf.{Value, absent, str, boolean, int, list, object, Fields, end, field}
use tlspxy.Config.Sources.{Text}
use tlspxy.Config.Flags.{
  Flag, flag_name, register_flags, register_value, replace_all, flag_key, describe,
}
use tlspxy.Config.Flags.Help.{flag_desc}
use tlspxy.Proxy.Header.V1.{Clean}

-- The key of an entry of a map that stands at a key itself.
abbrev pub join_key : Text → Text → Text
join_key [] key = key
join_key (c ∷ parent) key = (c ∷ parent) ++ b'.' ∷ key

unfoldable mutual
  -- The values of a configuration that are no maps or lists, with their keys, in order.
  pub leaves : Fields → Text → List (Text × Value)
  leaves end parent = []
  leaves (field key val m) parent = leaves_of val (join_key parent (codes key)) ++ leaves m parent

  pub leaves_of : Value → Text → List (Text × Value)
  leaves_of (object v) key = leaves v key
  leaves_of (str s) key = (key, str s) ∷ []
  leaves_of (boolean b) key = (key, boolean b) ∷ []
  leaves_of (int n) key = (key, int n) ∷ []
  leaves_of absent key = []
  leaves_of (list items) key = []

unfoldable mutual
  -- No name in the configuration has a dash, or is "config".
  pub HasPlainNames : Fields → Type 0
  HasPlainNames end = Unit
  HasPlainNames (field key val m) =
      Clean b'-' (codes key)
      × (text_eq (codes key) (codes "config") ≡ false)
      × HasPlainNamesIn val
      × HasPlainNames m

  pub HasPlainNamesIn : Value → Type 0
  HasPlainNamesIn (object v) = HasPlainNames v
  HasPlainNamesIn (str s) = Unit
  HasPlainNamesIn (boolean b) = Unit
  HasPlainNamesIn (int n) = Unit
  HasPlainNamesIn absent = Unit
  HasPlainNamesIn (list items) = Unit

replace_all-append :
    (old new : ℕ) (s t : Text)
    → replace_all old new (s ++ t) ≡ replace_all old new s ++ replace_all old new t
unfolding replace_all
replace_all-append old new [] t = refl
replace_all-append old new (c ∷ s) t =
    ap (λ u. (if c == old then new else c) ∷ u) (replace_all-append old new s t)

replace_all-Clean : (old new : ℕ) (s : Text) → Clean old s → replace_all old new s ≡ s
unfolding replace_all
replace_all-Clean old new [] h = refl
replace_all-Clean old new (c ∷ s) h = rw h.0 (ap (λ u. c ∷ u) (replace_all-Clean old new s h.1))

-- A dash in a flag's name is a point in its key.
join_key-replace_all :
    (prefix key : Text)
    → Clean b'-' key
    → replace_all b'-' b'.' (flag_name prefix key) ≡ join_key (replace_all b'-' b'.' prefix) key
unfolding replace_all
join_key-replace_all [] key h = replace_all-Clean b'-' b'.' key h
join_key-replace_all (c ∷ prefix) key h =
    replace_all-append b'-' b'.' (c ∷ prefix) (b'-' ∷ key)
    ∙ ap (λ u. replace_all b'-' b'.' (c ∷ prefix) ++ b'.' ∷ u) (replace_all-Clean b'-' b'.' key h)

has_dash : (s t : Text) → Clean b'-' (s ++ b'-' ∷ t) → ⊥
has_dash [] t h = ground (arith, h.0)
has_dash (c ∷ s) t h = has_dash s t h.1

-- The flag "config" is none of those that are registered.
flag_name-other :
    (prefix key : Text)
    → text_eq key (codes "config") ≡ false
    → text_eq (flag_name prefix key) (codes "config") ≡ false
flag_name-other [] key h = h
flag_name-other (c ∷ prefix) key h =
    elim (Bool-cases (text_eq (flag_name (c ∷ prefix) key) (codes "config"))) [
      | inr other ↦ other
      | inl same ↦ absurd (
          has_dash (c ∷ prefix) key (
            subst (Clean b'-') (sym (text_eq→eq (flag_name (c ∷ prefix) key) (codes "config") same))
              (ground arith)))
    ]

-- What LoadFlags makes of a flag that is not set on the command line, and what it should.
abbrev pub stored : Flag → Option Text × Value
stored f = (flag_key f.name, f.default)

abbrev pub expected : Text × Value → Option Text × Value
expected leaf = (some leaf.0, leaf.1)

flag_key-some :
    (name : Text)
    → text_eq name (codes "config") ≡ false
    → flag_key name ≡ some (replace_all b'-' b'.' name)
unfolding flag_key
flag_key-some name h = rw h refl

stored_one :
    (name : Text) (v : Value)
    → text_eq name (codes "config") ≡ false
    → map stored (record { name = name; default = v; usage = describe name flag_desc } ∷ [])
      ≡ map expected ((replace_all b'-' b'.' name, v) ∷ [])
stored_one name v h = ap (λ k. (k, v) ∷ []) (flag_key-some name h)

mutual
  unfolding register_flags leaves HasPlainNames

  -- At every prefix.
  leaves-register_flags :
      (m : Fields) (prefix : Text)
      → HasPlainNames m
      → map stored (register_flags m prefix)
        ≡ map expected (leaves m (replace_all b'-' b'.' prefix))
  leaves-register_flags end prefix h = refl
  leaves-register_flags (field key val m) prefix h =
      let name = flag_name prefix (codes key) in
      let first = leaves-register_value val name h.2 (flag_name-other prefix (codes key) h.1) in
      let rest = leaves-register_flags m prefix h.3 in
      let flags = register_value val name in
      map-append stored flags (register_flags m prefix)
      ∙ ap (λ u. u ++ map stored (register_flags m prefix)) first
      ∙ ap (λ u. map expected (leaves_of val (replace_all b'-' b'.' name)) ++ u) rest
      ∙ ap
          (λ k.
            map expected (leaves_of val k)
            ++ map expected (leaves m (replace_all b'-' b'.' prefix)))
          (join_key-replace_all prefix (codes key) h.0)
      ∙ sym (
          map-append expected (leaves_of val (join_key (replace_all b'-' b'.' prefix) (codes key)))
            (leaves m (replace_all b'-' b'.' prefix)))

  leaves-register_value :
      (v : Value) (name : Text)
      → HasPlainNamesIn v
      → text_eq name (codes "config") ≡ false
      → map stored (register_value v name) ≡ map expected (leaves_of v (replace_all b'-' b'.' name))
  leaves-register_value (object v) name h other = leaves-register_flags v name h
  leaves-register_value (str s) name h other = stored_one name (str s) other
  leaves-register_value (boolean b) name h other = stored_one name (boolean b) other
  leaves-register_value (int n) name h other = stored_one name (int n) other
  leaves-register_value absent name h other = refl
  leaves-register_value (list items) name h other = refl

-- If no name in a configuration has a dash or is "config", the flags that RegisterFlags makes of it
-- have, in order, the defaults of its values that are no maps or lists, and LoadFlags stores each
-- flag under the very key of its value.
pub stored-register_flags :
    (m : Fields) → HasPlainNames m → map stored (register_flags m []) ≡ map expected (leaves m [])
unfolding replace_all
stored-register_flags m h = leaves-register_flags m [] h
