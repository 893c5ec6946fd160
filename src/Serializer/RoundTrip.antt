-- ===== src/Serializer/RoundTrip.antt =====
-- A message that is serialized is read back.
use http_proxy.Base.{
  ℕ, ◌+◌, ◌*◌, ◌/◌, ◌%◌, ◌^◌, ◌≤◌, ◌<◌, ◌≡◌, ◌∙◌, refl, ap, true, false, Option, none, some, [],
  ◌∷◌, ◌++◌, Bytes, int_mod, int_is_pos, length, drop, leb, arith, sym, subst, inl, inr, Bool-cases,
  ◌≢◌, ◌==◌,
}
use http_proxy.Serializer.{
  Msg, serialize_int, serialize_char, serialize_string, deserialize_string, serialize_msg,
  deserialize_msg, deserialize_buffer, with_char, with_buffer,
}

-- Bytes other than 0, and the 0 that closes them.
abbrev pub IsString : Bytes → Type 0
IsString [] = ⊥
IsString (c ∷ []) = c ≡ 0
IsString (c ∷ d ∷ cs) = (c ≢ 0) × (c < 256) × IsString (d ∷ cs)

serialize_string_lem : (s : Bytes) → IsString s → serialize_string s ≡ some s
unfolding serialize_string serialize_char
serialize_string_lem [] h = absurd h
serialize_string_lem (c ∷ []) h = rw h refl
serialize_string_lem (c ∷ d ∷ cs) h =
    let nz : (c == 0) ≡ false = ground arith in
    let small : c % 256 ≡ c = omega arith in rw (nz, small, serialize_string_lem (d ∷ cs) h.2) refl

-- The string overwrites the memory at its start.
deserialize_string_lem :
    (s str rest : Bytes)
    → IsString s
    → length s ≤ length str
    → deserialize_string str (s ++ rest) ≡ some (s ++ drop (length s) str, rest)
unfolding deserialize_string
deserialize_string_lem [] str rest h fits = absurd h
deserialize_string_lem (c ∷ s) [] rest h fits = absurd (omega arith)
deserialize_string_lem (c ∷ []) (x ∷ str) rest h fits = rw h refl
deserialize_string_lem (c ∷ d ∷ cs) (x ∷ str) rest h fits =
    let nz : (c == 0) ≡ false = ground arith in
    rw nz (ap (with_char c) (deserialize_string_lem (d ∷ cs) str rest h.2 (omega arith)))

-- A string that is longer than the memory is written behind its end.
deserialize_string_overflow :
    (s str rest : Bytes)
    → IsString s
    → length str < length s
    → deserialize_string str (s ++ rest) ≡ none
unfolding deserialize_string
deserialize_string_overflow [] str rest h long = absurd h
deserialize_string_overflow (c ∷ s) [] rest h long = refl
deserialize_string_overflow (c ∷ []) (x ∷ str) rest h long = absurd (omega arith)
deserialize_string_overflow (c ∷ d ∷ cs) (x ∷ str) rest h long =
    let nz : (c == 0) ≡ false = ground arith in
    rw nz (ap (with_char c) (deserialize_string_overflow (d ∷ cs) str rest h.2 (omega arith)))

-- The fields are bytes and an `int`, and a string is there if the size is positive.
pub record IsValid (m : Msg) : Type 0 where
  pub type_small : m.type < 256
  pub param_small : m.param < 256
  pub size_small : m.buffer_size < 2 ^ 32
  pub string_there : int_is_pos m.buffer_size ≡ true → IsString m.buffer

-- `malloc` gives as many bytes as it is asked for, or NULL.
abbrev pub GivesSize : (ℕ → Option Bytes) → Type 0
GivesSize malloc = (n : ℕ) (str : Bytes) → malloc n ≡ some str → length str ≡ n

-- What reading the bytes of `m`, with `rest` behind them, into the message `m0` comes to.
pub data ReadBack (malloc : ℕ → Option Bytes) (m m0 : Msg) (rest : Bytes)
    (o : Option (Msg × Option Bytes)) : Type 0 where
  no_string :
      int_is_pos m.buffer_size ≡ false
      → o ≡ some (record m { buffer = m0.buffer }, some rest)
      → ReadBack malloc m m0 rest o
  no_memory :
      int_is_pos m.buffer_size ≡ true
      → malloc m.buffer_size ≡ none
      → o ≡ some (record m { buffer = [] }, none)
      → ReadBack malloc m m0 rest o
  string_fits :
      (str : Bytes)
      → int_is_pos m.buffer_size ≡ true
      → malloc m.buffer_size ≡ some str
      → length m.buffer ≤ m.buffer_size
      → o ≡ some (record m { buffer = m.buffer ++ drop (length m.buffer) str }, some rest)
      → ReadBack malloc m m0 rest o
  overflows :
      (str : Bytes)
      → int_is_pos m.buffer_size ≡ true
      → malloc m.buffer_size ≡ some str
      → m.buffer_size < length m.buffer
      → o ≡ none
      → ReadBack malloc m m0 rest o

-- The bytes of a message with the bytes of its string.
abbrev written : Msg → Bytes → Bytes
written m str =
    serialize_char m.type ++ (serialize_char m.param ++ (serialize_int m.buffer_size ++ str))

header_lem :
    (malloc : ℕ → Option Bytes) (m m0 : Msg) (str rest : Bytes)
    → IsValid m
    → deserialize_msg malloc m0 (written m str ++ rest)
      ≡ deserialize_buffer malloc (record m { buffer = m0.buffer }) (str ++ rest)
unfolding deserialize_msg serialize_char serialize_int
header_lem malloc m m0 str rest v =
    let t : m.type % 256 ≡ m.type = omega arith in
    let p : m.param % 256 ≡ m.param = omega arith in
    let n : (m.buffer_size / 2 ^ 24 % 256 * 2 ^ 24
            + m.buffer_size / 2 ^ 16 % 256 * 2 ^ 16
            + m.buffer_size / 2 ^ 8 % 256 * 2 ^ 8
            + m.buffer_size % 256)
          % int_mod
        ≡ m.buffer_size =
      omega arith in
    rw (t, p, n) refl

module _ (malloc : ℕ → Option Bytes) (m m0 : Msg) (rest : Bytes) (v : IsValid m)
    (sized : GivesSize malloc) where
  string-ReadBack :
      (positive : int_is_pos m.buffer_size ≡ true)
      → (o : Option Bytes) → malloc m.buffer_size ≡ o
      → ReadBack malloc m m0 rest
          (deserialize_buffer malloc (record m { buffer = m0.buffer }) (m.buffer ++ rest))
  unfolding deserialize_buffer
  string-ReadBack positive none e = no_memory positive e (rw (positive, e) refl)
  string-ReadBack positive (some str) e = elim (Bool-cases (leb (length m.buffer) m.buffer_size)) [
    | inl fits ↦ string_fits str positive e (ground arith) (
        rw (positive, e)
          (ap (with_buffer m) (
            deserialize_string_lem m.buffer str rest (v.string_there positive)
              (ground (arith, sized m.buffer_size str e)))))
    | inr long ↦ overflows str positive e (ground arith) (
        rw (positive, e)
          (ap (with_buffer m) (
            deserialize_string_overflow m.buffer str rest (v.string_there positive)
              (ground (arith, sized m.buffer_size str e)))))
  ]

  -- A valid message is written, and its bytes, with others behind them, are read into any message,
  -- where `malloc` gives as much as it is asked for, or NULL. When the size is not positive, the type,
  -- the parameter and the size are read back, and the string stays what it was. When it is positive,
  -- NULL of `malloc` leaves a null string and NULL is returned; with memory, a string of at most as
  -- many bytes as the size is read back, in front of what the rest of the memory held; and a longer one
  -- is written behind the end of the memory.
  pub deserialize_msg-serialize_msg :
      (bytes : Bytes) × (serialize_msg m ≡ some bytes)
      × ReadBack malloc m m0 rest (deserialize_msg malloc m0 (bytes ++ rest))
  unfolding serialize_msg
  deserialize_msg-serialize_msg = elim (Bool-cases (int_is_pos m.buffer_size)) [
    | inl positive ↦ (
      written m m.buffer,
      rw (positive, serialize_string_lem m.buffer (v.string_there positive)) refl,
      subst (ReadBack malloc m m0 rest) (sym (header_lem malloc m m0 m.buffer rest v))
          (string-ReadBack positive (malloc m.buffer_size) refl),
    )
    | inr none_there ↦ (
      written m [],
      rw none_there refl,
      no_string none_there
          (header_lem malloc m m0 [] rest v ∙ unfold deserialize_buffer in (rw none_there refl)),
    )
  ]
