-- ===== src/CStrings.antt =====
-- The functions of <string.h> that client.c and logger.c call. Some memory is the list of its bytes, and
-- `none` is an access behind its end.
use http_proxy.Base.{
  ℕ, zero, suc, Bool, true, false, Option, none, some, [], ◌∷◌, Bytes, ◌==◌, if◌then◌else◌,
}

-- Whether `strncmp` of the first bytes gives 0.
unfoldable pub strncmp_equal : ℕ → Bytes → Bytes → Option Bool
strncmp_equal zero s t = some true
strncmp_equal (suc n) (x ∷ s) (y ∷ t) =
    let rest = strncmp_equal n s t in
    if x == y then (if x == 0 then some true else rest) else some false
strncmp_equal (suc n) _ _ = none

abbrev pub count_one : Option ℕ → Option ℕ
count_one none = none
count_one (some n) = some (suc n)

unfoldable pub strnlen : Bytes → ℕ → Option ℕ
strnlen s zero = some 0
strnlen [] (suc n) = none
strnlen (x ∷ s) (suc n) = let rest = strnlen s n in if x == 0 then some 0 else count_one rest

abbrev pub prepend : ℕ → Option Bytes → Option Bytes
prepend x none = none
prepend x (some s) = some (x ∷ s)

-- The zeros that `strncpy` writes behind a short string.
unfoldable pub pad : ℕ → Bytes → Option Bytes
pad zero s = some s
pad (suc n) [] = none
pad (suc n) (x ∷ s) = prepend 0 (pad n s)

-- The memory at the destination behind `strncpy`.
unfoldable pub strncpy : Bytes → Bytes → ℕ → Option Bytes
unfolding pad
strncpy s t zero = some s
strncpy (x ∷ s) (y ∷ t) (suc n) =
    let rest = strncpy s t n in if y == 0 then pad (suc n) (x ∷ s) else prepend y rest
strncpy _ _ (suc n) = none
