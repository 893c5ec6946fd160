-- ===== src/Base/Chars.antt =====
-- The functions of <ctype.h> on bytes, in the "C" locale, and C strings as the list of their bytes
-- without the closing 0.
use Prim.Native.Nat.{ℕ, ◌+◌, ◌-◌}
use Prim.Native.Char.{code}
use Prim.Native.String.{String}
use mathlib.Core.Bool.{Bool, ◌&&◌, ◌||◌}
use mathlib.Core.List.{List, [], ◌∷◌}
use http_proxy.Base.Booleans.{leb, if◌then◌else◌}

abbrev pub Bytes : Type 0
Bytes = List ℕ

-- Every literal that is used is ASCII.
abbrev pub codes : String → Bytes
codes String.[] = []
codes (String.◌∷◌ c s) = code c ∷ codes s

unfoldable pub is_lower : ℕ → Bool
is_lower c = leb b'a' c && leb c b'z'

unfoldable pub is_upper : ℕ → Bool
is_upper c = leb b'A' c && leb c b'Z'

unfoldable pub is_digit : ℕ → Bool
is_digit c = leb b'0' c && leb c b'9'

unfoldable pub is_alpha : ℕ → Bool
unfolding is_lower is_upper
is_alpha c = is_lower c || is_upper c

unfoldable pub is_xdigit : ℕ → Bool
unfolding is_digit
is_xdigit c = is_digit c || (leb b'a' c && leb c b'f') || (leb b'A' c && leb c b'F')

unfoldable pub to_upper : ℕ → ℕ
unfolding is_lower
to_upper c = if is_lower c then c - 32 else c

unfoldable pub to_lower : ℕ → ℕ
unfolding is_upper
to_lower c = if is_upper c then c + 32 else c
