-- ===== src/ResponseParser/Headers.antt =====
-- responseParser.c: the functions of the start line and of the headers.
use http_proxy.Base.{
  ℕ, zero, suc, Bool, true, false, not, ◌&&◌, [], ◌∷◌, ◌++◌, Bytes, codes, ◌==◌, if◌then◌else◌,
  to_upper,
}
use http_proxy.Buffer.{Buffer, peek, read, write}
use http_proxy.ParserUtils.{
  Io, read_and_write, move_through_spaces, write_to_buf, write_prefix, unread_count,
}
use http_proxy.ParserUtils.Formats.{match_format, check_lf, crlf}
use http_proxy.ParserUtils.Numbers.{get_number}
use http_proxy.RequestParser.{set_empty}
use http_proxy.RequestParser.StartLine.{http_1, version_of, is_defined}
use http_proxy.ResponseParser.{
  ResponseParserState, res_headers, length_check, encoding_check, chunked_check, connection_check,
  type_check, res_finished, gzip, ResponseData, Response, with_io,
}

unfoldable pub check_spaces : Response → Bool × Response
check_spaces q =
    let (c, inp') = move_through_spaces q.io.inp in
    let io' = record (q.io) { inp = inp' } in
    if c == 0
    then (false, with_io q (set_empty io'))
    else (true, with_io q (record io' { out = write io'.out b' ' }))

unfoldable pub extract_http_version : Response → Bool × Response
extract_http_version q =
    let (found, io1) = match_format http_1 [] q.io in
    let (c, io2) = read_and_write io1 in
    let v = version_of c q.rd.version in
    if found
    then (if c == 0
        then (false, with_io q (set_empty (record io2 { inp = write_prefix io2.inp http_1 })))
        else (is_defined v, record q { rd = record (q.rd) { version = v }; io = io2 }))
    else if io1.empty
    then (false, with_io q io1)
    else (is_defined q.rd.version, with_io q io1)

abbrev pub is_valid_status : ℕ → Bool
is_valid_status s = true

unfoldable pub extract_status : Response → Bool × Response
extract_status q =
    let (ok, s, io') = get_number q.rd.status [] q.io in
    (ok && is_valid_status s, record q { rd = record (q.rd) { status = s }; io = io' })

-- How a round of the loop over the headers goes on: with the next state, because the input gave
-- out, or with the next round.
pub data Found : Type 0 where
  found : ResponseParserState → Found
  gave_out go_on : Found

abbrev pub stop_if_empty : Io → Found × Io
stop_if_empty io = if io.empty then (gave_out, io) else (go_on, io)

-- A word that leads to a state, or the test of the flag behind it.
unfoldable pub word_round : Bytes → Bytes → ResponseParserState → Io → Found × Io
word_round word prefix s io =
    let (ok, io') = match_format word prefix io in if ok then (found s, io') else stop_if_empty io'

abbrev pub give_out : Bytes → Io → Found × Io
give_out prefix io = (gave_out, set_empty (record io { inp = write_prefix io.inp prefix }))

-- Behind `Content-`.
unfoldable pub content_round : Io → Found × Io
unfolding word_round
content_round io =
    let (b, io') = read_and_write io in
    let aux = to_upper b in
    if aux == b'L'
    then word_round (codes "ENGTH:") (codes "CONTENT-L") length_check io'
    else if aux == b'E'
    then word_round (codes "NCODING:") (codes "CONTENT-E") encoding_check io'
    else if aux == b'T'
    then word_round (codes "YPE:") (codes "CONTENT-T") type_check io'
    else if aux == 0
    then give_out (codes "CONTENT-") io'
    else (go_on, io')

-- Behind a `C`.
unfoldable pub c_round : Io → Found × Io
unfolding content_round word_round
c_round io =
    let (con, io1) = match_format (codes "ON") (codes "C") io in
    let (tent, io2) = match_format (codes "TENT-") (codes "CON") io1 in
    if con
    then (if tent
        then content_round io2
        else word_round (codes "NECTION:") (codes "CON") connection_check io2)
    else stop_if_empty io1

abbrev pub chunked_header : Bytes
chunked_header = codes "Transfer-Encoding: chunked" ++ crlf

abbrev pub close_header : Bytes
close_header = codes "Connection: close" ++ crlf

-- What is written in front of the body.
unfoldable pub end_headers : ResponseData → Buffer → Buffer
end_headers rd out =
    let out1 =
      if not rd.is_chunked && rd.with_transf then write_to_buf chunked_header out else out in
    let out2 = if not rd.is_close then write_to_buf close_header out1 else out1 in
    write_to_buf crlf out2

-- Behind a `\r`.
unfoldable pub cr_round : ResponseData → Io → Found × Io
unfolding end_headers
cr_round rd io =
    let (lf_found, io1) = check_lf (b'\r' ∷ []) io in
    let inp2 = (read io1.inp).1 in
    let io2 = record io1 { inp = inp2 } in
    if lf_found
    then (if peek io1.inp == b'\r'
        then (if peek inp2 == b'\n'
            then (
              found res_finished,
              record io1 { inp = (read inp2).1; out = end_headers rd io1.out },
            )
            else if peek inp2 == 0
            then give_out (b'\r' ∷ b'\n' ∷ b'\r' ∷ []) io2
            else (go_on, io2))
        else if peek io1.inp == 0
        then give_out crlf io1
        else (go_on, io1))
    else stop_if_empty io1

unfoldable pub header_round : ResponseData → ℕ → Io → Found × Io
unfolding c_round cr_round word_round
header_round rd c io =
    if c == b'C'
    then c_round io
    else if c == b'T'
    then word_round (codes "RANSFER-ENCODING:") (codes "T") chunked_check io
    else if c == b'\r'
    then cr_round rd io
    else (go_on, io)

abbrev pub continues : Found → Bool
continues go_on = true
continues gave_out = false
continues (found _) = false

-- The loop; the second argument bounds the rounds.
unfoldable pub header_loop : ResponseData → ℕ → Io → Found × Io
unfolding header_round
header_loop rd zero io = (gave_out, (read_and_write io).1)
header_loop rd (suc fuel) io =
    let c = to_upper (read_and_write io).0 in
    let round = header_round rd c (read_and_write io).1 in
    let rest = header_loop rd fuel round.1 in
    if c == 0 then (gave_out, (read_and_write io).1) else if continues round.0 then rest else round

abbrev pub state_of : Found → ResponseParserState
state_of (found s) = s
state_of gave_out = res_headers
state_of go_on = res_headers

abbrev pub is_found : Found → Bool
is_found (found _) = true
is_found gave_out = false
is_found go_on = false

unfoldable pub check_headers : Response → Bool × Response
unfolding header_loop
check_headers q =
    let (f, io') = header_loop q.rd (unread_count q.io.inp) q.io in
    (
      is_found f,
      record q {
        rd = record (q.rd) { next = state_of f };
        io = if is_found f then io' else set_empty io';
      },
    )

unfoldable pub check_length : Response → Bool × Response
check_length q =
    let (ok, n, io') = get_number q.rd.body_length [] q.io in
    (ok, record q { rd = record (q.rd) { body_length = n }; io = io' })

unfoldable pub check_encoding : Response → Bool × Response
check_encoding q =
    let (ok, io') = match_format (codes "GZIP") [] q.io in
    if ok
    then (true, record q { rd = record (q.rd) { c_encoding = gzip }; io = io' })
    else (false, with_io q io')

unfoldable pub check_chunked : Response → Bool × Response
check_chunked q =
    let (ok, io') = match_format (codes "CHUNKED") [] q.io in
    if ok
    then (true, record q { rd = record (q.rd) { is_chunked = true }; io = io' })
    else (false, with_io q io')

-- `while ((c = buffer_peek(bIn)) != 0 && c != '\r')`; the first argument bounds the rounds.
unfoldable pub skip_loop : ℕ → Buffer → ℕ × Buffer
skip_loop zero b = (peek b, b)
skip_loop (suc fuel) b =
    let rest = skip_loop fuel (read b).1 in
    if not (peek b == 0) && not (peek b == b'\r') then rest else (peek b, b)

unfoldable pub check_connection : Response → Bool × Response
unfolding skip_loop
check_connection q =
    let (c, inp') = skip_loop (unread_count q.io.inp) q.io.inp in
    let io' = record (q.io) { inp = inp' } in
    if c == 0 then (false, with_io q (set_empty io')) else (
      true,
      record q {
        rd = record (q.rd) { is_close = true };
        io = record io' { out = write_to_buf (codes "close") io'.out };
      },
    )

abbrev pub check_type : Response → Bool × Response
check_type q = (true, q)
