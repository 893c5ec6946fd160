-- ===== src/ParserUtils/Formats.antt =====
-- myParserUtils.c: comparing what stands next in a buffer with a fixed text.
use http_proxy.Base.{
  ℕ, ◌+◌, Bool, true, false, not, ◌&&◌, [], ◌∷◌, Bytes, ◌==◌, if◌then◌else◌, to_upper,
}
use http_proxy.Buffer.{peek, read}
use http_proxy.ParserUtils.{Io, read_and_write, write_to_buf_reverse, write_prefix}

-- What the loop of `matchFormat` leaves: the rest of the format, the last byte seen, the count of
-- bytes that agreed, and the buffers.
pub record Matched : Type 0 where
  pub left : Bytes
  pub c : ℕ
  pub i : ℕ
  pub io : Io

abbrev pub is_nil : Bytes → Bool
is_nil [] = true
is_nil (_ ∷ _) = false

-- The loop of both readers; `next` passes over one byte that agrees.
unfoldable pub match_loop : (Io → Io) → Bytes → ℕ → ℕ → Io → Matched
match_loop next [] c i io = record { left = []; c = c; i = i; io = io }
match_loop next (f ∷ fs) c i io =
    let rest = match_loop next fs (to_upper (peek io.inp)) (i + 1) (next io) in
    if to_upper (peek io.inp) == to_upper f
    then rest
    else record { left = f ∷ fs; c = to_upper (peek io.inp); i = i; io = io }

-- Behind the loop: if the input gave out, what was compared goes back, the prefix in front of it.
unfoldable pub finish_match : Bytes → Bytes → Matched → Bool × Io
finish_match format prefix m =
    if not (is_nil m.left) && m.c == 0
    then (
      false,
      record (m.io) {
        inp = write_prefix (write_to_buf_reverse format m.io.inp m.i) prefix;
        empty = true;
      },
    )
    else (is_nil m.left, m.io)

-- The step of `matchFormat`, `readAndWrite`, and that of `simpleMatchFormat`, `buffer_read`.
abbrev pub pass_on : Io → Io
pass_on io = (read_and_write io).1

abbrev pub pass_over : Io → Io
pass_over io = record io { inp = (read io.inp).1 }

unfoldable pub match_format : Bytes → Bytes → Io → Bool × Io
unfolding match_loop finish_match
match_format format prefix io = finish_match format prefix (match_loop pass_on format 0 0 io)

unfoldable pub simple_match_format : Bytes → Bytes → Io → Bool × Io
unfolding match_loop finish_match
simple_match_format format prefix io =
    finish_match format prefix (match_loop pass_over format 0 0 io)

abbrev pub lf : Bytes
lf = b'\n' ∷ []

abbrev pub crlf : Bytes
crlf = b'\r' ∷ b'\n' ∷ []

unfoldable pub check_lf : Bytes → Io → Bool × Io
check_lf = match_format lf

unfoldable pub check_crlf : Bytes → Io → Bool × Io
check_crlf = match_format crlf

unfoldable pub simple_check_crlf : Bytes → Io → Bool × Io
simple_check_crlf = simple_match_format crlf
