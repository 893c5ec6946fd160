-- ===== src/Config.antt =====
-- config.c: the configurations by name, and the file that they are read from. The names are unique
-- in their first 21 bytes, the ones that `strncmp` compares and the array `name` holds.
pub mod File
pub mod Lookup
pub mod Invariant
pub mod Reach
pub mod Bounds
pub mod RoundTrip
mod Tests
use http_proxy.Base.{
  ℕ, zero, suc, ◌+◌, Bool, true, false, ◌&&◌, Option, none, some, List, [], ◌∷◌, ◌++◌, Bytes, ◌==◌,
  ltb, leb, if◌then◌else◌, ℤ, pos, negsuc, length, take,
}

abbrev pub max_name : ℕ
max_name = 20

abbrev pub max_config : ℕ
max_config = 100

-- `struct config`: the bytes of the name before its closing 0, and the memory at `value`, with its
-- closing 0.
pub record Entry : Type 0 where
  pub name : Bytes
  pub value : Bytes

-- `configurations[0]` to `configurations[config_size - 1]`.
abbrev pub Configs : Type 0
Configs = List Entry

-- `strncmp(a, b, n) == 0`, for C strings.
unfoldable pub strncmp_eq : ℕ → Bytes → Bytes → Bool
strncmp_eq zero a b = true
strncmp_eq (suc n) [] [] = true
strncmp_eq (suc n) [] (_ ∷ _) = false
strncmp_eq (suc n) (_ ∷ _) [] = false
strncmp_eq (suc n) (x ∷ xs) (y ∷ ys) = x == y && strncmp_eq n xs ys

abbrev pub named : Bytes → Entry → Bool
named name e = strncmp_eq (max_name + 1) name e.name

-- What `strcpy` into memory of `strlen(value) + 1` bytes leaves.
abbrev pub closed : Bytes → Bytes
closed value = value ++ (0 ∷ [])

abbrev pub behind : Entry → Option Configs → Option Configs
behind e none = none
behind e (some es) = some (e ∷ es)

-- The loop of `config_create`: the configuration of that name with its new value, if there is one.
unfoldable pub replace : Bytes → Bytes → Configs → Option Configs
replace name value [] = none
replace name value (e ∷ es) =
    let rest = replace name value es in
    if named name e then some (record e { value = closed value } ∷ es) else behind e rest

-- The result stands in front of the new configurations.
unfoldable pub config_create : Bytes → Bytes → Configs → ℤ × Configs
unfolding replace
config_create name value cs = elim (replace name value cs) [
  | some cs' ↦ (pos 0, cs')
  | none ↦
      if ltb max_config (length cs + 1)
      then (negsuc 0, cs)
      else (pos 0, cs ++ (record { name = take (max_name + 1) name; value = closed value } ∷ []))
]

unfoldable pub config_get : Bytes → Configs → Option Bytes
config_get name [] = none
config_get name (e ∷ es) =
    let rest = config_get name es in if named name e then some e.value else rest

-- The entry at an index; the callers' indices come from an `unsigned char`.
unfoldable pub entry_at : Configs → ℕ → Option Entry
entry_at [] i = none
entry_at (e ∷ es) zero = some e
entry_at (e ∷ es) (suc i) = entry_at es i

unfoldable pub set_value : Configs → ℕ → Bytes → Configs
set_value [] i value = []
set_value (e ∷ es) zero value = record e { value = value } ∷ es
set_value (e ∷ es) (suc i) value = e ∷ set_value es i value

unfoldable pub config_set_from_index : ℕ → Bytes → Configs → ℤ × Configs
unfolding set_value
config_set_from_index index value cs =
    if leb (length cs) index then (negsuc 0, cs) else (pos 0, set_value cs index value)

abbrev pub value_of : Option Entry → Option Bytes
value_of none = none
value_of (some e) = some e.value

abbrev pub name_of : Option Entry → Option Bytes
name_of none = none
name_of (some e) = some e.name

unfoldable pub config_get_from_index : ℕ → Configs → Option Bytes
unfolding entry_at
config_get_from_index index cs = value_of (entry_at cs index)

unfoldable pub config_get_name : ℕ → Configs → Option Bytes
unfolding entry_at
config_get_name number cs = name_of (entry_at cs number)

abbrev pub config_get_size : Configs → ℕ
config_get_size cs = length cs
