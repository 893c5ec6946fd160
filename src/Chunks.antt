-- ===== src/Chunks.antt =====
-- chunks.c: the chunks of a transformed body that are written to the client's buffer. `none` is a
-- failed assert or a write behind the end of the buffer.
pub mod Framing
mod Tests
use http_proxy.Base.{
  ℕ, ◌+◌, ◌-◌, Bool, true, false, Option, none, some, ◌>>=◌, [], ◌∷◌, ◌++◌, Bytes, codes, ltb, leb,
  if◌then◌else◌, ℤ, pos, negsuc, length,
}
use http_proxy.Buffer.{Buffer, write_ptr, write_adv, store_all}
use http_proxy.Buffer.Receive.{receive}

abbrev pub crlf : Bytes
crlf = b'\r' ∷ b'\n' ∷ []

abbrev pub max_chunk_size_digits : ℕ
max_chunk_size_digits = 7

abbrev pub empty_chunk : Bytes
empty_chunk = b'0' ∷ crlf ++ crlf

abbrev pub returning : ℤ → Option Buffer → Option (ℤ × Buffer)
returning n none = none
returning n (some b) = some (n, b)

-- `strncpy` of the five bytes, and `buffer_write_adv` by their number.
unfoldable pub write_empty_chunk : Buffer → Option (ℤ × Buffer)
unfolding receive
write_empty_chunk b = elim (write_ptr b) [
  | none ↦ none
  | some (at, space) ↦
      if leb (length empty_chunk) space
      then returning (pos (length empty_chunk)) (receive b empty_chunk)
      else some (pos 0, b)
]

-- What `read(2)` gives: an error, or bytes, none at the end of the file.
pub data ReadResult : Type 0 where
  read_error : ReadResult
  got : Bytes → ReadResult

-- The chunk of some bytes, with the text that `sprintf` writes for their number with `%X`.
abbrev pub chunk_text : (ℕ → Bytes) → Bytes → Bytes
chunk_text print_hex ys = print_hex (length ys) ++ (crlf ++ (ys ++ crlf))

-- The chunk is written at `at`, where there is room for `space` bytes. The last `sprintf` leaves a 0
-- behind it.
abbrev pub put_chunk : Bytes → ℕ → ℕ → Buffer → Option (ℤ × Buffer)
put_chunk text at space b =
    let b' : Buffer = record b { mem = store_all b.mem at (text ++ (0 ∷ [])) } in
    if leb (length text + 1) space
    then returning (pos (length text)) (write_adv b' (pos (length text)))
    else none

abbrev pub dump_read : (ℕ → Bytes) → ℕ → ℕ → Buffer → ReadResult → Option (ℤ × Buffer)
dump_read print_hex at space b read_error = some (negsuc 0, b)
dump_read print_hex at space b (got []) = some (pos 0, b)
dump_read print_hex at space b (got (y ∷ ys)) = put_chunk (chunk_text print_hex (y ∷ ys)) at space b

-- `allocated` is false when `malloc` returns NULL; `read` is what the descriptor gives, by the number of
-- bytes asked for.
unfoldable pub dump_chunk_from_fd :
    (ℕ → Bytes) → Bool → (ℕ → ReadResult) → Buffer → Option (ℤ × Buffer)
unfolding write_ptr write_adv
dump_chunk_from_fd print_hex allocated read b = elim (write_ptr b) [
  | none ↦ none
  | some (at, space) ↦
      let chunk_size = space - max_chunk_size_digits - 4 in
      if ltb (max_chunk_size_digits + 4) space
      then if allocated
        then dump_read print_hex at space b (read chunk_size)
        else some (negsuc 0, b)
      else some (pos 0, b)
]
