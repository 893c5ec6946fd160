-- ===== src/ResponseParser/Leaves.antt =====
-- What the functions of the start line and of the headers leave unread: no more than they found,
-- or a set flag; and less, if `checkHeaders` finds a header.
use http_proxy.Base.{
  ℕ, zero, suc, ◌≤◌, ◌<◌, ◌≡◌, ◌⊎◌, inl, inr, refl, Bool, true, false, [], Bytes, ◌==◌, arith,
  Bool-cases, codes, to_upper,
}
use http_proxy.Buffer.{Buffer, read}
use http_proxy.ParserUtils.{Io, read_and_write, unread_count}
use http_proxy.ParserUtils.Formats.{match_format}
use http_proxy.RequestParser.StartLine.{http_1}
use http_proxy.ResponseParser.{
  ResponseParserState, res_space_transition, length_check, encoding_check, chunked_check,
  connection_check, type_check, Response, ResponseData,
}
use http_proxy.ResponseParser.Headers.{
  check_spaces, extract_http_version, extract_status, check_headers, check_length, check_encoding,
  check_chunked, check_connection, header_loop, header_round, word_round, content_round, c_round,
  cr_round, skip_loop, Found, is_found, state_of, continues,
}
use http_proxy.ResponseParser.Unread.{
  count, Shrinks, header_round-Shrinks, match_format-Shrinks, get_number-Shrinks, pass_on-NoMore,
  count-read, count-read_and_write_lt, count-move_through_spaces,
}

abbrev pub is_space : ResponseParserState → Bool
is_space res_space_transition = true
is_space _ = false

-- The loop over the headers, if it finds one: a byte has been read.
abbrev Finds : Io → Found × Io → Type 0
Finds io r =
    (is_found r.0 ≡ true)
    → (r.1.empty ≡ true)
      ⊎ ((r.1.empty ≡ io.empty) × (count r.1 < count io) × (is_space (state_of r.0) ≡ false))

word_round-state :
    (word prefix : Bytes) (s : ResponseParserState) (io : Io)
    → is_space s ≡ false
    → is_space (state_of (word_round word prefix s io).0) ≡ false
unfolding word_round
word_round-state word prefix s io h = ground arith

content_round-state : (io : Io) → is_space (state_of (content_round io).0) ≡ false
unfolding content_round
content_round-state io =
    let io' = (read_and_write io).1 in
    ground (
      arith,
      word_round-state (codes "ENGTH:") (codes "CONTENT-L") length_check io' refl,
      word_round-state (codes "NCODING:") (codes "CONTENT-E") encoding_check io' refl,
      word_round-state (codes "YPE:") (codes "CONTENT-T") type_check io' refl,
    )

c_round-state : (io : Io) → is_space (state_of (c_round io).0) ≡ false
unfolding c_round
c_round-state io =
    let io2 =
      (match_format (codes "TENT-") (codes "CON") (match_format (codes "ON") (codes "C") io).1).1 in
    ground (
      arith,
      content_round-state io2,
      word_round-state (codes "NECTION:") (codes "CON") connection_check io2 refl,
    )

cr_round-state : (rd : ResponseData) (io : Io) → is_space (state_of (cr_round rd io).0) ≡ false
unfolding cr_round
cr_round-state rd io = ground arith

header_round-state :
    (rd : ResponseData) (c : ℕ) (io : Io) → is_space (state_of (header_round rd c io).0) ≡ false
unfolding header_round
header_round-state rd c io = ground (
  arith,
  c_round-state io,
  cr_round-state rd io,
  word_round-state (codes "RANSFER-ENCODING:") (codes "T") chunked_check io refl,
)

to_upper_zero : (c : ℕ) → c ≡ 0 → to_upper c ≡ 0
unfolding to_upper
to_upper_zero c h = ground arith

header_loop-Finds : (rd : ResponseData) (fuel : ℕ) (io : Io) → Finds io (header_loop rd fuel io)
unfolding header_loop
header_loop-Finds rd zero io = λ h. absurd (ground arith)
header_loop-Finds rd (suc fuel) io =
    let b = (read_and_write io).0 in
    let io1 = (read_and_write io).1 in
    let turn = header_round rd (to_upper b) io1 in
    λ h. elim (Bool-cases (to_upper b == 0)) [
      | inl gone ↦ absurd (ground arith)
      | inr there ↦
          let less : count io1 < count io =
            count-read_and_write_lt io (λ e. ground (arith, to_upper_zero b e)) in
          let same = (pass_on-NoMore io).0 in
          let turned = header_round-Shrinks rd (to_upper b) io1 in
          elim (Bool-cases (continues turn.0)) [
            | inl on ↦
                let rest = header_loop-Finds rd fuel turn.1 (rw (there, on) at h) in
                rw (there, on) (ground (arith, rest, turned, less, same))
            | inr off ↦
                rw (there, off)
                  (ground (arith, turned, less, same, header_round-state rd (to_upper b) io1))
          ]
    ]

-- What a function of a state leaves.
abbrev pub Leaves : (Response → Bool × Response) → Type 0
Leaves f = (q : Response) → Shrinks q.io (f q).1.io

pub check_spaces-Leaves : Leaves check_spaces
unfolding check_spaces
check_spaces-Leaves q = ground (arith, count-move_through_spaces q.io.inp)

pub next-check_spaces : (q : Response) → (check_spaces q).1.rd ≡ q.rd
unfolding check_spaces
next-check_spaces q = ground arith

pub extract_http_version-Leaves : Leaves extract_http_version
unfolding extract_http_version
extract_http_version-Leaves q =
    ground
      (arith, match_format-Shrinks http_1 [] q.io, pass_on-NoMore (match_format http_1 [] q.io).1)

pub extract_status-Leaves : Leaves extract_status
unfolding extract_status
extract_status-Leaves q = get_number-Shrinks q.rd.status q.io

pub check_length-Leaves : Leaves check_length
unfolding check_length
check_length-Leaves q = get_number-Shrinks q.rd.body_length q.io

pub check_encoding-Leaves : Leaves check_encoding
unfolding check_encoding
check_encoding-Leaves q = ground (arith, match_format-Shrinks (codes "GZIP") [] q.io)

pub check_chunked-Leaves : Leaves check_chunked
unfolding check_chunked
check_chunked-Leaves q = ground (arith, match_format-Shrinks (codes "CHUNKED") [] q.io)

count-skip_loop : (fuel : ℕ) (b : Buffer) → unread_count (skip_loop fuel b).1 ≤ unread_count b
unfolding skip_loop
count-skip_loop zero b = omega arith
count-skip_loop (suc fuel) b = ground (arith, count-skip_loop fuel (read b).1, count-read b)

pub check_connection-Leaves : Leaves check_connection
unfolding check_connection
check_connection-Leaves q = ground (arith, count-skip_loop (unread_count q.io.inp) q.io.inp)

pub check_headers-Found :
    (q : Response)
    → (check_headers q).0 ≡ true
    → ((check_headers q).1.io.empty ≡ true)
      ⊎ (((check_headers q).1.io.empty ≡ q.io.empty)
          × (count (check_headers q).1.io < count q.io)
          × (is_space (check_headers q).1.rd.next ≡ false))
unfolding check_headers
check_headers-Found q h =
    let finds = header_loop-Finds q.rd (unread_count q.io.inp) q.io h in rw h finds
