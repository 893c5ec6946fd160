-- ===== src/ResponseParser/Unread.antt =====
-- No reader leaves more bytes unread than it found, unless it reports that the input gave out.
use http_proxy.Base.{
  ℕ, zero, suc, ◌+◌, ◌-◌, ◌≤◌, ◌<◌, ◌≡◌, ◌≢◌, ◌∙◌, ◌⊎◌, inl, inr, refl, ap, true, [], ◌∷◌, Bytes,
  arith, Bool-cases, ltb, to_upper, codes, int_mod, ◌*◌, ◌%◌,
}
use http_proxy.Buffer.{Buffer, peek, read}
use http_proxy.Buffer.Asserts.{read-advanced, read_empty}
use http_proxy.ParserUtils.{Io, unread_count, read_and_write, spaces_loop, move_through_spaces}
use http_proxy.ParserUtils.Formats.{match_loop, finish_match, match_format, pass_on, check_lf, lf}
use http_proxy.ResponseParser.{
  ResponseParserState, length_check, encoding_check, type_check, connection_check, chunked_check,
  ResponseData,
}
use http_proxy.ResponseParser.Headers.{word_round, content_round, c_round, cr_round, header_round}
use http_proxy.ParserUtils.Numbers.{number_loop, read_number, decimal, get_number}

abbrev pub count : Io → ℕ
count io = unread_count io.inp

abbrev pub NoMore : Io → Io → Type 0
NoMore io io' = (io'.empty ≡ io.empty) × (count io' ≤ count io)

-- A reader sets the flag, or leaves no more bytes unread.
abbrev pub Shrinks : Io → Io → Type 0
Shrinks io io' = (io'.empty ≡ true) ⊎ NoMore io io'

pub count-read : (b : Buffer) → unread_count (read b).1 ≤ unread_count b
count-read b = elim (Bool-cases (ltb b.read b.write)) [
  | inl lt ↦ rw (read-advanced b (ground arith)) (ground arith)
  | inr ge ↦ rw (read_empty b (ground arith)) (omega arith)
]

-- A byte that is not 0 has been read.
pub count-read_lt : (b : Buffer) → (read b).0 ≢ 0 → unread_count (read b).1 < unread_count b
count-read_lt b h = elim (Bool-cases (ltb b.read b.write)) [
  | inl lt ↦ rw (read-advanced b (ground arith)) (ground arith)
  | inr ge ↦ absurd (h (ap (λ p. p.0) (read_empty b (ground arith))))
]

pub inp-read_and_write : (io : Io) → (read_and_write io).1.inp ≡ (read io.inp).1
unfolding read_and_write
inp-read_and_write io = refl

pub byte-read_and_write : (io : Io) → (read_and_write io).0 ≡ (read io.inp).0
unfolding read_and_write
byte-read_and_write io = refl

pub pass_on-NoMore : (io : Io) → NoMore io (pass_on io)
unfolding read_and_write
pass_on-NoMore io = (refl, count-read io.inp)

pub count-read_and_write_lt :
    (io : Io) → (read_and_write io).0 ≢ 0 → count (read_and_write io).1 < count io
count-read_and_write_lt io h =
    rw (inp-read_and_write io) (count-read_lt io.inp (λ e. h (byte-read_and_write io ∙ e)))

count-spaces_loop : (fuel : ℕ) (b : Buffer) → unread_count (spaces_loop fuel b).1 ≤ unread_count b
unfolding spaces_loop
count-spaces_loop zero b = omega arith
count-spaces_loop (suc fuel) b = ground (arith, count-spaces_loop fuel (read b).1, count-read b)

pub count-move_through_spaces :
    (b : Buffer) → unread_count (move_through_spaces b).1 ≤ unread_count b
unfolding move_through_spaces
count-move_through_spaces b = count-spaces_loop (unread_count b) b

match_loop-NoMore :
    (format : Bytes) (c i : ℕ) (io : Io) → NoMore io (match_loop pass_on format c i io).io
unfolding match_loop
match_loop-NoMore [] c i io = (refl, omega arith)
match_loop-NoMore (f ∷ fs) c i io =
    ground
      (arith, match_loop-NoMore fs (to_upper (peek io.inp)) (i + 1) (pass_on io), pass_on-NoMore io)

pub match_format-Shrinks :
    (format prefix : Bytes) (io : Io) → Shrinks io (match_format format prefix io).1
unfolding match_format finish_match
match_format-Shrinks format prefix io = ground (arith, match_loop-NoMore format 0 0 io)

number_loop-NoMore :
    (fuel current : ℕ) (io : Io) → NoMore io (number_loop decimal fuel current io).2
unfolding number_loop
number_loop-NoMore zero current io = (refl, omega arith)
number_loop-NoMore (suc fuel) current io = ground (
  arith,
  number_loop-NoMore fuel ((10 * current + (peek io.inp - b'0')) % int_mod) (pass_on io),
  pass_on-NoMore io,
)

pub get_number-Shrinks : (number : ℕ) (io : Io) → Shrinks io (get_number number [] io).2
unfolding get_number read_number
get_number-Shrinks number io = ground (arith, number_loop-NoMore (unread_count io.inp) 0 io)

-- A round over a header, behind its first byte, and the loop, which reads a byte at least.
word_round-Shrinks :
    (word prefix : Bytes) (s : ResponseParserState) (io : Io)
    → Shrinks io (word_round word prefix s io).1
unfolding word_round
word_round-Shrinks word prefix s io = ground (arith, match_format-Shrinks word prefix io)

content_round-Shrinks : (io : Io) → Shrinks io (content_round io).1
unfolding content_round
content_round-Shrinks io =
    let io' = (read_and_write io).1 in
    ground (
      arith,
      pass_on-NoMore io,
      word_round-Shrinks (codes "ENGTH:") (codes "CONTENT-L") length_check io',
      word_round-Shrinks (codes "NCODING:") (codes "CONTENT-E") encoding_check io',
      word_round-Shrinks (codes "YPE:") (codes "CONTENT-T") type_check io',
    )

pub Shrinks-trans : (a b c : Io) → Shrinks a b → Shrinks b c → Shrinks a c
Shrinks-trans a b c h k = ground arith

c_round-Shrinks : (io : Io) → Shrinks io (c_round io).1
unfolding c_round
c_round-Shrinks io =
    let io1 = (match_format (codes "ON") (codes "C") io).1 in
    let io2 = (match_format (codes "TENT-") (codes "CON") io1).1 in
    let at2 =
      Shrinks-trans io io1 io2 (match_format-Shrinks (codes "ON") (codes "C") io)
        (match_format-Shrinks (codes "TENT-") (codes "CON") io1) in
    ground (
      arith,
      match_format-Shrinks (codes "ON") (codes "C") io,
      Shrinks-trans io io2 (content_round io2).1 at2 (content_round-Shrinks io2),
      Shrinks-trans io io2 (word_round (codes "NECTION:") (codes "CON") connection_check io2).1 at2
          (word_round-Shrinks (codes "NECTION:") (codes "CON") connection_check io2),
    )

check_lf-Shrinks : (prefix : Bytes) (io : Io) → Shrinks io (check_lf prefix io).1
unfolding check_lf
check_lf-Shrinks prefix io = match_format-Shrinks lf prefix io

cr_round-Shrinks : (rd : ResponseData) (io : Io) → Shrinks io (cr_round rd io).1
unfolding cr_round
cr_round-Shrinks rd io =
    let io1 = (check_lf (b'\r' ∷ []) io).1 in
    ground
      (arith, check_lf-Shrinks (b'\r' ∷ []) io, count-read io1.inp, count-read (read io1.inp).1)

pub header_round-Shrinks :
    (rd : ResponseData) (c : ℕ) (io : Io) → Shrinks io (header_round rd c io).1
unfolding header_round
header_round-Shrinks rd c io = ground (
  arith,
  c_round-Shrinks io,
  cr_round-Shrinks rd io,
  word_round-Shrinks (codes "RANSFER-ENCODING:") (codes "T") chunked_check io,
)
