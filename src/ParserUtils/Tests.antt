-- ===== src/ParserUtils/Tests.antt =====
-- Runs of the readers on small inputs, and the theorems at them.
use http_proxy.Base.{
  is_digit, is_xdigit, to_upper, ◌+◌, ◌≡◌, refl, false, [], Bytes, codes, length, arith, inr, ◌≤◌,
  zeros,
}
use http_proxy.Buffer.{can_read, Buffer, store_all, peek, read, write_reverse}
use http_proxy.Buffer.Receive.{receive, received}
use http_proxy.Buffer.Refine.{contents}
use http_proxy.ParserUtils.Transfer.{write_to_transf_buf_with_zero_resumes}
use http_proxy.ParserUtils.{
  write_to_transf_buf_with_zero, Io, read_and_write, write_prefix, write_dec_to_buf_reverse,
  write_hex_to_buf_reverse,
}
use http_proxy.ParserUtils.Formats.{match_format, simple_match_format}
use http_proxy.ParserUtils.Numbers.{
  get_number, get_hex_number, simple_get_hex_number, decimal, hexadecimal, hex_char_to_dec,
}
use http_proxy.ParserUtils.Matching.{match_format-Read, Read}
use http_proxy.ParserUtils.Resuming.{match_format_resumes, Same}
use http_proxy.ParserUtils.NumberResuming.{get_number_resumes, SameNumber}
use http_proxy.ParserUtils.Renumbering.{get_number-ReadNumber, ReadNumber, runs_out, refused}
use http_proxy.ParserUtils.Writable.{
  writable_decimal, writable_hexadecimal, writable_simple_hexadecimal,
}
use http_proxy.ParserUtils.Streams.{At, At-le, passing_on, passing_over, Sent}

-- An input buffer with a reserved zone of 12 bytes, behind which some bytes have been received.
abbrev loaded : Bytes → Buffer
loaded xs = record {
  mem = store_all (zeros 64) 12 xs;
  inf_limit = 12;
  limit = 64;
  read = 12;
  write = 12 + length xs;
}

abbrev fresh : Buffer
fresh = record { mem = zeros 64; inf_limit = 0; limit = 64; read = 0; write = 0 }

abbrev io_of : Bytes → Io
io_of xs = record { inp = loaded xs; out = fresh; empty = false }

fresh-Sent : Sent fresh 64 []
fresh-Sent = record {
  valid = record {
    inf_le_write = omega arith;
    read_le_write = omega arith;
    read_home = inr refl;
    write_le_limit = omega arith;
    in_storage = omega arith;
  };
  has = refl;
  room_for = omega arith;
}

abbrev Loaded : Bytes → Type 0
Loaded xs = At (io_of xs) 12 0 xs 64 []

loaded-Loaded :
    (xs : Bytes)
    → length xs ≤ 52
    → contents (loaded xs) ≡ xs
    → length (loaded xs).mem ≡ 64
    → Loaded xs
loaded-Loaded xs fits same size = record {
  unread = record {
    valid = record {
      inf_le_write = omega arith;
      read_le_write = omega arith;
      read_home = inr refl;
      write_le_limit = omega arith;
      in_storage = omega arith;
    };
    has = same;
    reserved = refl;
    zone_is = refl;
  };
  sent = fresh-Sent;
}

abbrev host_word : Bytes
host_word = codes "HOST:"

match_format-Read_example :
    Read passing_on host_word []
      (io_of (codes "Host: a"))
      12
      0
      (codes "Host: a")
      59
      []
      false
      (match_format host_word [] (io_of (codes "Host: a")))
    × Read passing_over host_word []
        (io_of (codes "Host: a"))
        12
        0
        (codes "Host: a")
        59
        []
        false
        (simple_match_format host_word [] (io_of (codes "Host: a")))
unfolding store_all to_upper
match_format-Read_example =
    match_format-Read host_word [] 0 (codes "Host: a") [] (ground arith) (ground arith)
      (omega arith) (loaded-Loaded (codes "Host: a") (omega arith) refl refl)

-- The cut comes inside the word.
abbrev cut_io : Io
cut_io = io_of (codes "ho")

-- The two bytes stand in the reserved zone again.
put_back_test :
    ((match_format host_word [] cut_io).1.inp.read ≡ 10)
    × ((match_format host_word [] cut_io).1.inp.write ≡ 12)
    × ((match_format host_word [] cut_io).1.inp.limit ≡ 64)
unfolding store_all match_format to_upper peek read_and_write read write_prefix write_reverse
put_back_test = (refl, refl, refl)

match_format_resumes_example :
    Same
      (match_format host_word [] (record (match_format host_word [] cut_io).1 {
        inp = received (match_format host_word [] cut_io).1.inp (codes "st:");
        empty = false;
      }))
      (match_format host_word []
        (record cut_io { inp = received cut_io.inp (codes "st:"); empty = false }))
unfolding store_all receive match_format to_upper peek read_and_write read write_prefix
    write_reverse
match_format_resumes_example =
    match_format_resumes host_word (codes "st:") (ground arith) (ground arith) (ground arith)
      (omega arith) (At-le (omega arith) (loaded-Loaded (codes "ho") (omega arith) refl refl)) refl
      (omega (arith, put_back_test)) (omega arith) refl refl

abbrev digits_io : Io
digits_io = io_of (codes "12")

digits_put_back_test :
    ((get_number 0 [] digits_io).2.inp.read ≡ 10)
    × ((get_number 0 [] digits_io).2.inp.write ≡ 12)
    × ((get_number 0 [] digits_io).2.inp.limit ≡ 64)
unfolding store_all get_number peek read_and_write read write_prefix write_reverse is_digit
    write_dec_to_buf_reverse
digits_put_back_test = (refl, refl, refl)

get_number_resumes_example :
    SameNumber
      (get_number 0 [] (record ((get_number 0 [] digits_io).2) {
        inp = received (get_number 0 [] digits_io).2.inp (codes "3 ");
        empty = false;
      }))
      (get_number 0 []
        (record digits_io { inp = received digits_io.inp (codes "3 "); empty = false }))
unfolding store_all receive get_number peek read_and_write read write_prefix write_reverse is_digit
    write_dec_to_buf_reverse
get_number_resumes_example =
    get_number_resumes 0 (codes "3 ") (λ e. cc) (ground arith) refl (omega arith)
      (λ e. ground arith) (omega arith)
      (At-le (omega arith) (loaded-Loaded (codes "12") (omega arith) refl refl))
      (omega (arith, digits_put_back_test)) (omega arith) refl refl

abbrev hex_io : Io
hex_io = io_of (codes "1a")

hex_put_back_test :
    ((get_hex_number 0 [] hex_io).2.inp.read ≡ 10)
    × ((get_hex_number 0 [] hex_io).2.inp.write ≡ 12)
    × ((get_hex_number 0 [] hex_io).2.inp.limit ≡ 64)
unfolding store_all get_hex_number peek read_and_write read write_prefix write_reverse is_xdigit
    write_hex_to_buf_reverse hex_char_to_dec to_upper
hex_put_back_test = (refl, refl, refl)

-- The number that follows the word, with a byte behind it.
get_number-ReadNumber_example :
    ReadNumber writable_decimal passing_on 0 []
      (io_of (codes "80/"))
      12
      0
      (codes "80/")
      61
      []
      (refused decimal (codes "80/"))
      (runs_out decimal (codes "80/"))
      (get_number 0 [] (io_of (codes "80/")))
    × ReadNumber writable_hexadecimal passing_on 0 []
        (io_of (codes "80/"))
        12
        0
        (codes "80/")
        61
        []
        (refused hexadecimal (codes "80/"))
        (runs_out hexadecimal (codes "80/"))
        (get_hex_number 0 [] (io_of (codes "80/")))
    × ReadNumber writable_simple_hexadecimal passing_over 0 []
        (io_of (codes "80/"))
        12
        0
        (codes "80/")
        61
        []
        (refused hexadecimal (codes "80/"))
        (runs_out hexadecimal (codes "80/"))
        (simple_get_hex_number 0 [] (io_of (codes "80/")))
unfolding store_all is_digit is_xdigit
get_number-ReadNumber_example =
    get_number-ReadNumber 0 [] 0 (codes "80/") [] (ground arith) (omega arith) (λ e. cc) (λ e. cc)
      (loaded-Loaded (codes "80/") (omega arith) refl refl)

-- Four bytes are to be moved, and two of them are there.
abbrev body_io : Io
body_io = io_of (codes "ab")

body_test :
    ((write_to_transf_buf_with_zero 4 body_io).1 ≡ 2)
    × ((write_to_transf_buf_with_zero 4 body_io).2.inp.write ≡ 12)
    × ((write_to_transf_buf_with_zero 4 body_io).2.inp.limit ≡ 64)
unfolding store_all write_to_transf_buf_with_zero can_read read
body_test = (refl, refl, refl)

write_to_transf_buf_with_zero_resumes_example :
    SameNumber
      (write_to_transf_buf_with_zero
        (write_to_transf_buf_with_zero 4 body_io).1
        (record ((write_to_transf_buf_with_zero 4 body_io).2) {
          inp = received (write_to_transf_buf_with_zero 4 body_io).2.inp (codes "cde");
          empty = false;
        }))
      (write_to_transf_buf_with_zero 4
        (record body_io { inp = received body_io.inp (codes "cde"); empty = false }))
unfolding store_all receive write_to_transf_buf_with_zero can_read read
write_to_transf_buf_with_zero_resumes_example =
    write_to_transf_buf_with_zero_resumes 4 0 (codes "ab") (codes "cde") [] (omega arith)
      (omega arith) refl (At-le (omega arith) (loaded-Loaded (codes "ab") (omega arith) refl refl))
      (omega (arith, body_test)) (omega arith) refl refl
