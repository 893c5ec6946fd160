-- ===== src/ParserUtils.antt =====
-- myParserUtils.c: moving bytes from an input to an output buffer, and putting bytes back in the
-- reserved zone of the input. The children hold the two families of readers: formats and numbers.
pub mod Formats
pub mod Numbers
pub mod Streams
pub mod Matching
pub mod Resuming
pub mod Digits
pub mod PutBack
pub mod Writable
pub mod Renumbering
pub mod NumberResuming
pub mod Transfer
mod Tests
use http_proxy.Base.{
  ℕ, zero, suc, ◌+◌, ◌-◌, ◌/◌, ◌%◌, Bool, true, false, not, ◌&&◌, ◌||◌, List, [], ◌∷◌, ◌++◌, Bytes,
  ltb, ◌==◌, if◌then◌else◌, get_or, length, int_is_pos,
}
use http_proxy.Buffer.{Buffer, can_read, is_reserved, peek, read, write, write_reverse}

-- The arguments `b`, `bOut` and `*bEmpty` that most functions share.
pub record Io : Type 0 where
  pub inp : Buffer
  pub out : Buffer
  pub empty : Bool

-- How many bytes stand unread: a loop that reads one byte in each round has that many rounds at
-- most.
abbrev pub unread_count : Buffer → ℕ
unread_count b = b.write - b.read

unfoldable pub read_and_write : Io → ℕ × Io
read_and_write io =
    let (c, inp') = read io.inp in
    let out' = if not (is_reserved io.inp) && not (c == 0) then write io.out c else io.out in
    (c, record io { inp = inp'; out = out' })

unfoldable pub read_and_write_with_zero : Io → ℕ × Io
read_and_write_with_zero io =
    if can_read io.inp
    then (let (c, inp') = read io.inp in
        let out' = if not (is_reserved io.inp) then write io.out c else io.out in
        (c, record io { inp = inp'; out = out' }))
    else (0, record io { empty = true })

abbrev pub is_blank : ℕ → Bool
is_blank c = c == b' ' || c == b'\t'

-- The first argument bounds the rounds.
unfoldable pub spaces_loop : ℕ → Buffer → ℕ × Buffer
spaces_loop zero b = (peek b, b)
spaces_loop (suc fuel) b =
    let rest = spaces_loop fuel (read b).1 in if is_blank (peek b) then rest else (peek b, b)

unfoldable pub move_through_spaces : Buffer → ℕ × Buffer
unfolding spaces_loop
move_through_spaces b = spaces_loop (unread_count b) b

unfoldable pub write_to_buf : Bytes → Buffer → Buffer
write_to_buf [] b = b
write_to_buf (c ∷ cs) b = write_to_buf cs (write b c)

-- The first `length` bytes of `my_buf`, the last of them first.
unfoldable pub write_to_buf_reverse : Bytes → Buffer → ℕ → Buffer
write_to_buf_reverse my_buf b zero = b
write_to_buf_reverse my_buf b (suc n) =
    write_to_buf_reverse my_buf (write_reverse b (get_or my_buf n 0)) n

unfoldable pub write_prefix : Buffer → Bytes → Buffer
unfolding write_to_buf_reverse
write_prefix b prefix = write_to_buf_reverse prefix b (length prefix)

unfoldable pub dec_to_hex_char : ℕ → ℕ
dec_to_hex_char c = if ltb c 10 then c + b'0' else c + b'A' - 10

-- The loops of `writeDecToBufReverse` and `writeHexToBufReverse`, for a base and its digits. The
-- first argument bounds the rounds: 10 decimal or 8 hexadecimal digits hold every `int`.
unfoldable pub digits_reverse_loop : ℕ → (ℕ → ℕ) → ℕ → ℕ → Buffer → Buffer
digits_reverse_loop base digit zero number b = b
digits_reverse_loop base digit (suc fuel) number b =
    let rest =
      digits_reverse_loop base digit fuel (number / base)
        (write_reverse b (digit (number % base))) in
    if int_is_pos number then rest else b

unfoldable pub write_dec_to_buf_reverse : ℕ → Buffer → Buffer
unfolding digits_reverse_loop
write_dec_to_buf_reverse number b =
    let b' = if number == 0 then write_reverse b b'0' else b in
    digits_reverse_loop 10 (λ d. d + b'0') 10 number b'

unfoldable pub write_hex_to_buf_reverse : ℕ → Buffer → Buffer
unfolding digits_reverse_loop dec_to_hex_char
write_hex_to_buf_reverse number b =
    let b' = if number == 0 then write_reverse b b'0' else b in
    digits_reverse_loop 16 dec_to_hex_char 8 number b'

-- The loop of `writeToTransfBuf`, on a count that is not negative.
unfoldable pub transf_loop : ℕ → Io → ℕ × Io
unfolding read_and_write
transf_loop zero io = (0, io)
transf_loop (suc n) io =
    let rest = transf_loop n (read_and_write io).1 in
    if (read_and_write io).0 == 0 then (suc n, (read_and_write io).1) else rest

-- The new `*quantity` stands between the result and the buffers.
unfoldable pub write_to_transf_buf : ℕ → Io → Bool × ℕ × Io
unfolding transf_loop
write_to_transf_buf quantity io =
    let (q, io') = if int_is_pos quantity then transf_loop quantity io else (quantity, io) in
    (not (int_is_pos q), q, io')

unfoldable pub transf_loop_with_zero : ℕ → Io → ℕ × Io
unfolding read_and_write_with_zero
transf_loop_with_zero zero io = (0, io)
transf_loop_with_zero (suc n) io =
    let io' = (read_and_write_with_zero io).1 in
    let rest = transf_loop_with_zero n io' in if io'.empty then (suc n, io') else rest

unfoldable pub write_to_transf_buf_with_zero : ℕ → Io → Bool × ℕ × Io
unfolding transf_loop_with_zero
write_to_transf_buf_with_zero quantity io =
    let (q, io') =
      if int_is_pos quantity then transf_loop_with_zero quantity io else (quantity, io) in
    (not (int_is_pos q), q, io')

-- The bytes that go through `putchar` stand between the result and the buffer.
unfoldable pub write_to_stdout : ℕ → Buffer → Bool × Bytes × Buffer
write_to_stdout zero b = (true, [], b)
write_to_stdout (suc n) b =
    let (ok, printed, b') = write_to_stdout n (read b).1 in
    if (read b).0 == 0 then (false, [], (read b).1) else (ok, (read b).0 ∷ printed, b')
