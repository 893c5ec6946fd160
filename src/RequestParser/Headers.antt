-- ===== src/RequestParser/Headers.antt =====
-- requestParser.c: the functions of the headers. Each returns its result and the new state.
use http_proxy.Base.{
  ℕ, zero, suc, Bool, true, false, not, ◌&&◌, ◌||◌, [], ◌∷◌, Bytes, codes, ltb, ◌==◌, if◌then◌else◌,
  to_upper,
}
use http_proxy.Buffer.{peek}
use http_proxy.ParserUtils.{Io, read_and_write, write_to_buf, unread_count, is_blank}
use http_proxy.ParserUtils.Formats.{match_format, check_lf, check_crlf, crlf}
use http_proxy.RequestParser.{Request, host_max_size, set_empty, with_io}
use http_proxy.RequestParser.StartLine.{host_loop, host_port, host_start}

abbrev pub localhost_header : Bytes
localhost_header =
    b'X' ∷ b'-' ∷ b'L' ∷ b'O' ∷ b'C' ∷ b'A' ∷ b'L' ∷ b'H' ∷ b'O' ∷ b'S' ∷ b'T' ∷ b':' ∷ b' ' ∷ b'T'
    ∷ b'R' ∷ b'U' ∷ b'E' ∷ crlf

unfoldable pub check_local_host : Request → Bool × Request
check_local_host q =
    let c = to_upper (peek q.io.inp) in
    let (found, io') = match_format (codes "X-LOCALHOST:") [] q.io in
    if c == 0
    then (false, with_io q (set_empty q.io))
    else if not (c == b'X')
    then (
      q.rd.is_local_host,
      with_io q (record (q.io) { out = write_to_buf localhost_header q.io.out }),
    )
    else if found
    then (true, record { rd = record (q.rd) { is_local_host = true }; io = io' })
    else if io'.empty
    then (false, with_io q io')
    else (q.rd.is_local_host, with_io q io')

-- How a round of the loop over the headers goes on.
pub data Found : Type 0 where
  host_header headers_end gave_out go_on : Found

-- One round, behind the byte `c` that it has read.
unfoldable pub header_round : ℕ → Io → Found × Io
header_round c io =
    let (ost, io1) = match_format (codes "OST:") (b'H' ∷ []) io in
    let (lf_found, io2) = check_lf (b'\r' ∷ []) io in
    let (crlf_found, io3) = check_crlf crlf io2 in
    if c == b'H'
    then (if ost then (host_header, io1) else if io1.empty then (gave_out, io1) else (go_on, io1))
    else if c == b'\r'
    then (if lf_found
        then (if crlf_found
            then (headers_end, io3)
            else if io3.empty
            then (gave_out, io3)
            else (go_on, io3))
        else if io2.empty
        then (gave_out, io2)
        else (go_on, io2))
    else (go_on, io)

abbrev pub goes_on : Found → Bool
goes_on go_on = true
goes_on host_header = false
goes_on headers_end = false
goes_on gave_out = false

-- The loop; the first argument bounds the rounds.
unfoldable pub header_loop : ℕ → Io → Found × Io
unfolding header_round
header_loop zero io = (gave_out, (read_and_write io).1)
header_loop (suc fuel) io =
    let c = to_upper (read_and_write io).0 in
    let round = header_round c (read_and_write io).1 in
    let rest = header_loop fuel round.1 in
    if c == 0 then (gave_out, (read_and_write io).1) else if goes_on round.0 then rest else round

unfoldable pub check_host_header : Request → Bool × Request
unfolding header_loop
check_host_header q =
    let (found, io') = header_loop (unread_count q.io.inp) q.io in
    elim found [
      | host_header ↦ (true, with_io q io')
      | headers_end ↦ (false, with_io q io')
      | gave_out ↦ (false, with_io q (set_empty io'))
      | go_on ↦ (false, with_io q (set_empty io'))
    ]

unfoldable pub extract_host : Request → Bool × Request
unfolding host_loop host_port
extract_host q =
    let h = host_loop false (unread_count q.io.inp) (host_start q) in
    let (gone, valid, q') = host_port q h in
    let c = peek q'.io.inp in
    (not gone && ltb h.i host_max_size && valid && (is_blank c || c == b'\r'), q')
