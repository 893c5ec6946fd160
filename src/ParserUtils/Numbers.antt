-- ===== src/ParserUtils/Numbers.antt =====
-- myParserUtils.c: reading a decimal or a hexadecimal number. An `int` is its bit pattern.
use http_proxy.Base.{
  ℕ, zero, suc, ◌+◌, ◌-◌, ◌*◌, ◌%◌, Bool, true, false, not, ◌&&◌, Bytes, ◌==◌, if◌then◌else◌,
  is_digit, is_xdigit, to_upper, int_mod,
}
use http_proxy.Buffer.{Buffer, peek}
use http_proxy.ParserUtils.{
  Io, unread_count, write_prefix, write_dec_to_buf_reverse, write_hex_to_buf_reverse,
}
use http_proxy.ParserUtils.Formats.{pass_on, pass_over}

unfoldable pub hex_char_to_dec : ℕ → ℕ
hex_char_to_dec c = if is_digit c then c - b'0' else to_upper c - b'A' + 10

-- What sets the three readers apart: the base, which bytes are digits, their values, how a digit
-- is passed, and how a number is put back.
pub record Notation : Type 0 where
  pub base : ℕ
  pub is_numeral : ℕ → Bool
  pub value : ℕ → ℕ
  pub next : Io → Io
  pub put_back : ℕ → Buffer → Buffer

abbrev pub decimal : Notation
decimal = record {
  base = 10;
  is_numeral = is_digit;
  value = λ c. c - b'0';
  next = pass_on;
  put_back = write_dec_to_buf_reverse;
}

abbrev pub hexadecimal : Notation
hexadecimal = record {
  base = 16;
  is_numeral = is_xdigit;
  value = hex_char_to_dec;
  next = pass_on;
  put_back = write_hex_to_buf_reverse;
}

abbrev pub simple_hexadecimal : Notation
simple_hexadecimal = record hexadecimal { next = pass_over }

-- `while (isdigit((c = buffer_peek(b))))`; the first number bounds the rounds.
unfoldable pub number_loop : Notation → ℕ → ℕ → Io → ℕ × ℕ × Io
number_loop nt zero current io = (peek io.inp, current, io)
number_loop nt (suc fuel) current io =
    let c = peek io.inp in
    let rest = number_loop nt fuel ((nt.base * current + nt.value c) % int_mod) (nt.next io) in
    if nt.is_numeral c then rest else (c, current, io)

-- The new `*number` stands between the result and the buffers.
unfoldable pub read_number : Notation → ℕ → Bytes → Io → Bool × ℕ × Io
unfolding number_loop
read_number nt number prefix io =
    let c = peek io.inp in
    let (c', current, io') = number_loop nt (unread_count io.inp) 0 io in
    if not (c == 0) && not (nt.is_numeral c)
    then (false, number, io)
    else if c' == 0
    then (
      false,
      number,
      record io' { inp = write_prefix (nt.put_back current io'.inp) prefix; empty = true },
    )
    else (true, current, io')

unfoldable pub get_number : ℕ → Bytes → Io → Bool × ℕ × Io
unfolding read_number
get_number = read_number decimal

unfoldable pub get_hex_number : ℕ → Bytes → Io → Bool × ℕ × Io
unfolding read_number
get_hex_number = read_number hexadecimal

unfoldable pub simple_get_hex_number : ℕ → Bytes → Io → Bool × ℕ × Io
unfolding read_number
simple_get_hex_number = read_number simple_hexadecimal
