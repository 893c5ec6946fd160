-- ===== src/ResponseParser/Body.antt =====
-- responseParser.c: the functions of the body. Those that write to `bTransf` do on it what the
-- others do on `bOut`, but for how they pass over the sizes of the chunks.
use http_proxy.Base.{
  ℕ, zero, suc, Bool, true, false, not, ◌&&◌, [], ◌∷◌, Bytes, ◌++◌, ◌==◌, if◌then◌else◌, int_is_neg,
  int_is_pos,
}
use http_proxy.Buffer.{can_read}
use http_proxy.ParserUtils.{
  Io, read_and_write_with_zero, write_hex_to_buf_reverse, write_prefix,
  write_to_transf_buf_with_zero, unread_count,
}
use http_proxy.ParserUtils.Formats.{check_crlf, simple_check_crlf, crlf}
use http_proxy.ParserUtils.Numbers.{get_hex_number, simple_get_hex_number}
use http_proxy.RequestParser.{set_empty}
use http_proxy.ResponseParser.{Response, res_finished}

-- The readers of a chunk's size and of the end of a line.
pub record Style : Type 0 where
  pub number : ℕ → Bytes → Io → Bool × ℕ × Io
  pub check : Bytes → Io → Bool × Io

abbrev pub normal : Style
normal = record { number = get_hex_number; check = check_crlf }

abbrev pub transforming : Style
transforming = record { number = simple_get_hex_number; check = simple_check_crlf }

-- How a round over a chunk ends: with `return false`, or with the test of the `while`.
pub data Chunk : Type 0 where
  failed more last : Chunk

abbrev pub put_hex : ℕ → Io → Io
put_hex n io = record io { inp = write_hex_to_buf_reverse n io.inp }

abbrev pub put_prefix : Bytes → Io → Io
put_prefix p io = record io { inp = write_prefix io.inp p }

-- The new `bodyLength` stands between the result and the buffers.
unfoldable pub chunk_round : Style → ℕ → Io → Chunk × ℕ × Io
chunk_round s body_length io =
    let (sized, n, io1) = s.number body_length [] io in
    let (line, io2) = s.check [] io1 in
    let (copied, left, io3) = write_to_transf_buf_with_zero n io2 in
    let (closed, io4) = s.check [] io3 in
    if not sized
    then (failed, n, io1)
    else if not line
    then (failed, n, if io2.empty then put_hex n io2 else io2)
    else if not copied
    then (failed, left, if int_is_pos left then put_hex left (put_prefix crlf io3) else io3)
    else if not closed
    then (
      failed,
      left,
      put_prefix (if int_is_pos n then b'1' ∷ crlf ++ (b'1' ∷ []) else b'0' ∷ crlf) io4,
    )
    else (if int_is_pos n then more else last, left, io4)

abbrev pub is_last : Chunk → Bool
is_last last = true
is_last more = false
is_last failed = false

abbrev pub is_more : Chunk → Bool
is_more more = true
is_more last = false
is_more failed = false

-- The loop over the chunks. The second argument bounds the rounds behind the first: each reads a
-- byte at least.
unfoldable pub chunk_loop : Style → ℕ → ℕ → Io → Bool × ℕ × Io
unfolding chunk_round
chunk_loop s zero body_length io = let r = chunk_round s body_length io in (is_last r.0, r.1, r.2)
chunk_loop s (suc fuel) body_length io =
    let r = chunk_round s body_length io in
    let rest = chunk_loop s fuel r.1 r.2 in if is_more r.0 then rest else (is_last r.0, r.1, r.2)

unfoldable pub extract_chunked : Style → ℕ → Io → Bool × ℕ × Io
unfolding chunk_loop
extract_chunked s body_length io = chunk_loop s (unread_count io.inp) body_length io

-- The loop for a body that ends with the connection.
unfoldable pub until_close : ℕ → Io → Io
until_close zero io = io
until_close (suc fuel) io =
    let rest = until_close fuel (read_and_write_with_zero io).1 in
    if can_read io.inp then rest else io

-- A body in one of the styles, the test of the status not included.
unfoldable pub extract_in : Style → Bool → ℕ → Io → Bool × ℕ × Io
unfolding extract_chunked until_close
extract_in s is_chunked body_length io =
    if is_chunked
    then extract_chunked s body_length io
    else if not (int_is_neg body_length)
    then write_to_transf_buf_with_zero body_length io
    else (false, body_length, until_close (unread_count io.inp) io)

unfoldable pub extract_body : Response → Bool × Response
unfolding extract_in
extract_body q =
    let (ok, left, io') = extract_in normal q.rd.is_chunked q.rd.body_length q.io in
    if not q.rd.is_chunked && int_is_neg q.rd.body_length && not (q.rd.status == 200)
    then (
      false,
      record q { rd = record (q.rd) { parser_state = res_finished }; io = set_empty q.io },
    )
    else (ok, record q { rd = record (q.rd) { body_length = left }; io = io' })

unfoldable pub extract_body_transf : Response → Bool × Response
unfolding extract_in
extract_body_transf q =
    let (ok, left, io') =
      extract_in transforming q.rd.is_chunked q.rd.body_length (record (q.io) { out = q.transf }) in
    (
      ok,
      record {
        rd = record (q.rd) { body_length = left };
        io = record io' { out = q.io.out };
        transf = io'.out;
      },
    )
