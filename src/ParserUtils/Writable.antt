-- ===== src/ParserUtils/Writable.antt =====
-- The decimal and the hexadecimal notation: what is put back in the reserved zone is read back as
-- the same number.
use http_proxy.Base.{
  false, ℕ, zero, suc, ◌+◌, ◌^◌, ◌≤◌, ◌<◌, ◌≡◌, ◌≢◌, ◌/◌, ◌%◌, refl, true, [], ◌∷◌, Bytes, ◌==◌,
  if◌then◌else◌, length, append-nil, Bool-cases, inl, inr, arith, subst, is_digit, is_xdigit,
  to_upper, is_lower,
}
use mathlib.Core.List.{concat-ne-nil}
use http_proxy.Buffer.{Buffer, write_reverse}
use http_proxy.ParserUtils.{
  digits_reverse_loop, write_dec_to_buf_reverse, write_hex_to_buf_reverse, dec_to_hex_char,
}
use http_proxy.ParserUtils.Numbers.{
  Notation, decimal, hexadecimal, simple_hexadecimal, hex_char_to_dec,
}
use http_proxy.ParserUtils.Digits.{span, value_from, Sane}
use http_proxy.ParserUtils.Streams.{Held, put_back}
use http_proxy.ParserUtils.PutBack.{
  digits_of, length-digits_of, digits_reverse_loop-Held, Agrees, span-digits_of,
  value_from-digits_of,
}

-- What a notation promises of the numbers that it puts back: the numeral that is written into an
-- emptied buffer, of at most `width` bytes, has that number for its value.
pub record Writable (nt : Notation) : Type 0 where
  pub width : ℕ
  pub numeral : ℕ → Bytes
  pub sane : Sane nt
  pub put :
      {b : Buffer} {zone : ℕ} (n : ℕ)
      → n < 2 ^ 31
      → width ≤ zone
      → Held b zone []
      → Held (nt.put_back n b) zone (numeral n)
  pub fits : (n : ℕ) → length (numeral n) ≤ width
  pub some_numeral : (n : ℕ) → numeral n ≢ []
  pub value_of : (n : ℕ) → n < 2 ^ 31 → value_from nt 0 (numeral n) ≡ n
  pub all_numerals : (n : ℕ) → n < 2 ^ 31 → span nt (numeral n) ≡ length (numeral n)

abbrev pub numeral_of : ℕ → (ℕ → ℕ) → ℕ → ℕ → Bytes
numeral_of base digit width n = if n == 0 then b'0' ∷ [] else digits_of base digit width n

pub length-numeral_of :
    (base : ℕ) (digit : ℕ → ℕ) (width : ℕ)
    → 0 < width
    → (n : ℕ) → length (numeral_of base digit width n) ≤ width
length-numeral_of base digit width h n = ground (arith, length-digits_of base digit width n)

pub numeral_of-ne_nil :
    (base : ℕ) (digit : ℕ → ℕ) (width n : ℕ) → numeral_of base digit (suc width) n ≢ []
numeral_of-ne_nil base digit width n = elim (Bool-cases (n == 0)) [
  | inl e ↦ rw e (λ h. cc h)
  | inr e ↦ rw e (concat-ne-nil (digit (n % base)) (digits_of base digit width (n / base)))
]

-- 0 is written by itself, any other number by the loop.
abbrev writer : ℕ → (ℕ → ℕ) → ℕ → ℕ → Buffer → Buffer
writer base digit width n b =
    digits_reverse_loop base digit width n (if n == 0 then write_reverse b b'0' else b)

loop_zero :
    (base : ℕ) (digit : ℕ → ℕ) (width : ℕ) (b : Buffer)
    → digits_reverse_loop base digit width 0 b ≡ b
unfolding digits_reverse_loop
loop_zero base digit zero b = refl
loop_zero base digit (suc width) b = refl

writer-Held :
    (base : ℕ) (digit : ℕ → ℕ) (width n : ℕ) {b : Buffer} {zone : ℕ}
    → 1 < base
    → n < 2 ^ 31
    → 0 < width
    → width ≤ zone
    → Held b zone []
    → Held (writer base digit width n b) zone (numeral_of base digit width n)
writer-Held base digit width n {b} {zone} hb h w k u = elim (Bool-cases (n == 0)) [
  | inl e ↦
      let zero_is : n ≡ 0 = ground arith in
      rw (zero_is, loop_zero base digit width) (put_back b'0' u (omega arith) refl)
  | inr e ↦ rw e (
      subst (λ l. Held (digits_reverse_loop base digit width n b) zone l) (append-nil _)
        (digits_reverse_loop-Held base digit width n hb h (omega arith) u))
]

pub Agrees-decimal : Agrees decimal (λ d. d + b'0')
Agrees-decimal = record {
  base_gt_one = omega arith;
  numeral = λ d h. unfold is_digit in ground arith;
  value_is = λ d h. omega arith;
}

pub Agrees-hexadecimal : Agrees hexadecimal dec_to_hex_char
Agrees-hexadecimal = record {
  base_gt_one = omega arith;
  numeral = λ d h. unfold is_digit is_xdigit dec_to_hex_char in ground arith;
  value_is =
      λ d h. unfold is_digit is_lower to_upper dec_to_hex_char hex_char_to_dec in ground arith;
}

pub dec_put :
    {b : Buffer} {zone : ℕ} (n : ℕ)
    → n < 2 ^ 31
    → 10 ≤ zone
    → Held b zone []
    → Held (write_dec_to_buf_reverse n b) zone (numeral_of 10 (λ d. d + b'0') 10 n)
unfolding write_dec_to_buf_reverse
dec_put n h k u = writer-Held 10 (λ d. d + b'0') 10 n (omega arith) h (omega arith) k u

pub hex_put :
    {b : Buffer} {zone : ℕ} (n : ℕ)
    → n < 2 ^ 31
    → 8 ≤ zone
    → Held b zone []
    → Held (write_hex_to_buf_reverse n b) zone (numeral_of 16 dec_to_hex_char 8 n)
unfolding write_hex_to_buf_reverse
hex_put n h k u = writer-Held 16 dec_to_hex_char 8 n (omega arith) h (omega arith) k u

module _ (nt : Notation) (digit : ℕ → ℕ) (ag : Agrees nt digit) (width : ℕ) where
  pub numeral-value :
      nt.value b'0' ≡ 0
      → 2 ^ 31 ≤ nt.base ^ width
      → (n : ℕ) → n < 2 ^ 31
      → value_from nt 0 (numeral_of nt.base digit width n) ≡ n
  numeral-value z big n h = elim (Bool-cases (n == 0)) [
    | inl e ↦ rw e (rw z (ground arith))
    | inr e ↦ rw e (value_from-digits_of nt digit ag width n (omega arith) (omega arith))
  ]

  pub numeral-span :
      nt.is_numeral b'0' ≡ true
      → (n : ℕ) → n < 2 ^ 31
      → span nt (numeral_of nt.base digit width n) ≡ length (numeral_of nt.base digit width n)
  numeral-span z n h = elim (Bool-cases (n == 0)) [
    | inl e ↦ rw (e, z)
    | inr e ↦ rw e (span-digits_of nt digit ag width n)
  ]

pub ten_digits : 2 ^ 31 ≤ 10 ^ 10
ten_digits = omega arith

pub eight_digits : 2 ^ 31 ≤ 16 ^ 8
eight_digits = omega arith

pub dec_sane : (decimal.is_numeral 0 ≡ false) × (decimal.is_numeral b'0' ≡ true)
unfolding is_digit
dec_sane = (refl, refl)

pub hex_sane :
    (hexadecimal.is_numeral 0 ≡ false)
    × (hexadecimal.is_numeral b'0' ≡ true)
    × (hexadecimal.value b'0' ≡ 0)
unfolding is_digit is_xdigit hex_char_to_dec
hex_sane = (refl, refl, refl)

-- Ten decimal digits hold every `int` that is not negative, and eight hexadecimal ones.
abbrev pub writable_decimal : Writable decimal
writable_decimal = record {
  width = 10;
  numeral = numeral_of 10 (λ d. d + b'0') 10;
  sane = dec_sane.0;
  put = dec_put;
  some_numeral = numeral_of-ne_nil 10 (λ d. d + b'0') 9;
  fits = length-numeral_of 10 (λ d. d + b'0') 10 (omega arith);
  value_of = numeral-value decimal (λ d. d + b'0') Agrees-decimal 10 refl ten_digits;
  all_numerals = numeral-span decimal (λ d. d + b'0') Agrees-decimal 10 dec_sane.1;
}

abbrev pub writable_hexadecimal : Writable hexadecimal
writable_hexadecimal = record {
  width = 8;
  numeral = numeral_of 16 dec_to_hex_char 8;
  sane = hex_sane.0;
  put = hex_put;
  some_numeral = numeral_of-ne_nil 16 dec_to_hex_char 7;
  fits = length-numeral_of 16 dec_to_hex_char 8 (omega arith);
  value_of = numeral-value hexadecimal dec_to_hex_char Agrees-hexadecimal 8 hex_sane.2 eight_digits;
  all_numerals = numeral-span hexadecimal dec_to_hex_char Agrees-hexadecimal 8 hex_sane.1;
}

abbrev pub writable_simple_hexadecimal : Writable simple_hexadecimal
writable_simple_hexadecimal = record {
  width = 8;
  numeral = writable_hexadecimal.numeral;
  sane = writable_hexadecimal.sane;
  put = writable_hexadecimal.put;
  some_numeral = writable_hexadecimal.some_numeral;
  fits = writable_hexadecimal.fits;
  value_of = writable_hexadecimal.value_of;
  all_numerals = writable_hexadecimal.all_numerals;
}
