-- ===== src/Serializer/Tests.antt =====
-- A message with a string, and the theorem at it.
use http_proxy.Base.{
  ℕ, zero, suc, ◌≡◌, ◌∙◌, sym, refl, Option, none, some, [], ◌∷◌, ◌++◌, Bytes, codes, zeros, length,
  arith, ap,
}
use mathlib.Core.Option.{some-injective}
use http_proxy.Serializer.{Msg, serialize_msg, deserialize_msg}
use http_proxy.Serializer.RoundTrip.{GivesSize, ReadBack, deserialize_msg-serialize_msg}

abbrev set_host : Msg
set_host = record { type = 5; param = 1; buffer_size = 3; buffer = codes "ab" ++ (0 ∷ []) }

abbrev unset : Msg
unset = record { type = 0; param = 0; buffer_size = 0; buffer = [] }

abbrev cleared : ℕ → Option Bytes
cleared n = some (zeros n)

length-zeros : (n : ℕ) → length (zeros n) ≡ n
length-zeros zero = refl
length-zeros (suc n) = omega (arith, length-zeros n)

cleared-GivesSize : GivesSize cleared
cleared-GivesSize n str e = sym (ap length (some-injective _ _ e)) ∙ length-zeros n

deserialize_msg-serialize_msg_example :
    (bytes : Bytes) × (serialize_msg set_host ≡ some bytes)
    × ReadBack cleared set_host unset (7 ∷ []) (deserialize_msg cleared unset (bytes ++ (7 ∷ [])))
deserialize_msg-serialize_msg_example =
    deserialize_msg-serialize_msg cleared set_host unset (7 ∷ [])
      (record {
        type_small = omega arith;
        param_small = omega arith;
        size_small = omega arith;
        string_there = λ e. ground arith;
      })
      cleared-GivesSize

-- A string of three bytes is announced with a size of two: the last is written behind the memory.
abbrev too_long : Bytes
too_long = 5 ∷ 1 ∷ 0 ∷ 0 ∷ 0 ∷ 2 ∷ codes "ab" ++ (0 ∷ [])

too_long_overflows : deserialize_msg cleared unset too_long ≡ none
unfolding deserialize_msg
too_long_overflows = refl
