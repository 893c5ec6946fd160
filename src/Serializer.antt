-- ===== src/Serializer.antt =====
-- serializer.c: the bytes of a message of the administration protocol. A function that writes to
-- `buffer` returns the bytes written; one that reads takes the bytes from `buffer` on, and returns
-- those behind what it has read. `none` is an access behind the end of the memory.
pub mod RoundTrip
mod Tests
use http_proxy.Base.{
  ℕ, ◌+◌, ◌*◌, ◌/◌, ◌%◌, ◌^◌, Bool, true, false, Option, none, some, ◌>>=◌, [], ◌∷◌, ◌++◌, Bytes,
  ◌==◌, if◌then◌else◌, int_mod, int_is_pos,
}

-- `msg_t`; the memory at `buffer` is empty for a null pointer.
pub record Msg : Type 0 where
  pub type : ℕ
  pub param : ℕ
  pub buffer_size : ℕ
  pub buffer : Bytes

unfoldable pub serialize_int : ℕ → Bytes
serialize_int value =
    value / 2 ^ 24 % 256 ∷ value / 2 ^ 16 % 256 ∷ value / 2 ^ 8 % 256 ∷ value % 256 ∷ []

unfoldable pub serialize_char : ℕ → Bytes
serialize_char value = value % 256 ∷ []

-- Up to the closing 0, which is written too; without one, the bytes behind `str` are read.
unfoldable pub serialize_string : Bytes → Option Bytes
unfolding serialize_char
serialize_string [] = none
serialize_string (c ∷ cs) =
    let rest = serialize_string cs >>= λ r. some (serialize_char c ++ r) in
    if c == 0 then some (serialize_char c) else rest

unfoldable pub serialize_msg : Msg → Option Bytes
unfolding serialize_int serialize_char serialize_string
serialize_msg m =
    (if int_is_pos m.buffer_size then serialize_string m.buffer else some []) >>= λ str.
    some (serialize_char m.type ++ (serialize_char m.param ++ (serialize_int m.buffer_size ++ str)))

unfoldable pub deserialize_int : Bytes → Option (ℕ × Bytes)
deserialize_int (a ∷ b ∷ c ∷ d ∷ rest) =
    some ((a * 2 ^ 24 + b * 2 ^ 16 + c * 2 ^ 8 + d) % int_mod, rest)
deserialize_int _ = none

unfoldable pub deserialize_char : Bytes → Option (ℕ × Bytes)
deserialize_char [] = none
deserialize_char (c ∷ rest) = some (c, rest)

abbrev pub with_char : ℕ → Option (Bytes × Bytes) → Option (Bytes × Bytes)
with_char c none = none
with_char c (some (str, rest)) = some (c ∷ str, rest)

-- The memory at `str`, into which a byte is copied for each byte read.
unfoldable pub deserialize_string : Bytes → Bytes → Option (Bytes × Bytes)
deserialize_string (x ∷ xs) (c ∷ cs) =
    let rest = deserialize_string xs cs in if c == 0 then some (0 ∷ xs, cs) else with_char c rest
deserialize_string [] (c ∷ cs) = none
deserialize_string str [] = none

-- The result is a pointer, `none` for NULL.
abbrev pub with_buffer : Msg → Option (Bytes × Bytes) → Option (Msg × Option Bytes)
with_buffer m none = none
with_buffer m (some (str, rest)) = some (record m { buffer = str }, some rest)

-- `malloc` gives the memory for a size, NULL or with what it holds.
abbrev pub allocated : Msg → Bytes → Option Bytes → Option (Msg × Option Bytes)
unfolding deserialize_string
allocated m buffer none = some (record m { buffer = [] }, none)
allocated m buffer (some str) = with_buffer m (deserialize_string str buffer)

-- What comes behind the size.
unfoldable pub deserialize_buffer : (ℕ → Option Bytes) → Msg → Bytes → Option (Msg × Option Bytes)
unfolding deserialize_string
deserialize_buffer malloc m buffer =
    if int_is_pos m.buffer_size
    then allocated m buffer (malloc m.buffer_size)
    else some (m, some buffer)

-- `m` is the message before.
unfoldable pub deserialize_msg : (ℕ → Option Bytes) → Msg → Bytes → Option (Msg × Option Bytes)
unfolding deserialize_int deserialize_char deserialize_buffer
deserialize_msg malloc m buffer = do
  (t, b1) ← deserialize_char buffer
  (p, b2) ← deserialize_char b1
  (n, b3) ← deserialize_int b2
  deserialize_buffer malloc (record m { type = t; param = p; buffer_size = n }) b3
