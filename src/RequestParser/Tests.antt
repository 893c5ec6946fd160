-- ===== src/RequestParser/Tests.antt =====
-- Runs of the request parser, and the theorems at them.
use http_proxy.Base.{
  ℕ, ◌+◌, ◌≡◌, ◌⊎◌, refl, Bool, true, false, none, some, List, [], ◌∷◌, Bytes, codes, zeros, length,
  arith, set, to_lower, is_upper, is_digit,
}
use http_proxy.Buffer.{Buffer, store_all, peek, read, is_reserved, write}
use http_proxy.ParserUtils.{read_and_write}
use http_proxy.ParserUtils.Numbers.{get_number}
use http_proxy.RequestParser.{
  Request, method, ok, undefined, undefined_m, default_port, host_max_size, host, finished, v_1_1,
}
use http_proxy.RequestParser.Hang.{check_request_hangs}
use http_proxy.RequestParser.Machine.{Run, check_request, first_run}
use http_proxy.RequestParser.Outcomes.{check_request_calls_once}
use http_proxy.RequestParser.Headers.{extract_host}
use http_proxy.RequestParser.Progress.{check_request_ends, Rounds, goes_on, Stays}

-- 20 reserved bytes, behind which some bytes have been received.
abbrev loaded : Bytes → Buffer
loaded xs = record {
  mem = store_all (zeros 64) 20 xs;
  inf_limit = 20;
  limit = 64;
  read = 20;
  write = 20 + length xs;
}

abbrev fresh : Buffer
fresh = record { mem = zeros 64; inf_limit = 0; limit = 64; read = 0; write = 0 }

-- A new parser at the start of a request.
abbrev start : Bytes → Request
start xs = record {
  rd = record {
    parser_state = method;
    next = method;
    state = ok;
    version = undefined;
    method = undefined_m;
    host = zeros host_max_size;
    port = default_port;
    is_local_host = false;
  };
  io = record { inp = loaded xs; out = fresh; empty = false };
}

-- The same, behind `Host:` and its spaces.
abbrev at_host : Bytes → Request
at_host xs = record (start xs) { rd = record ((start xs).rd) { parser_state = host } }

check_request_ends_example :
    ((result : Bool × List (Bytes × ℕ) × Request) × (check_request 12 (start (codes "GET /"))
        ≡ some result))
    ⊎ ((s : Run) × Rounds (first_run (start (codes "GET /"))) s × (goes_on s ≡ true) × Stays s)
check_request_ends_example = check_request_ends (start (codes "GET /")) (ground arith)

check_request_hangs_example : check_request 1000 (at_host (codes "/\r")) ≡ none
unfolding peek store_all to_lower is_upper
check_request_hangs_example =
    check_request_hangs (at_host (codes "/\r")) refl
      (record {
        not_zero = ground arith;
        not_host = ground arith;
        not_colon = ground arith;
        not_end = ground arith;
      })
      refl 1000

-- What is left behind `A:8` and the end of its line: the host in lower case, and the port.
abbrev known : Request
known = record {
  rd = record ((at_host []).rd) {
    parser_state = finished;
    version = v_1_1;
    host = set (zeros host_max_size) 0 b'a';
    port = 8;
  };
  io = record {
    inp = record (loaded (codes "A:8\r")) { read = 23 };
    out = record fresh { mem = store_all (zeros 64) 0 (codes "A:8"); write = 3 };
    empty = false;
  };
}

abbrev known_calls : List (Bytes × ℕ)
known_calls = (set (zeros host_max_size) 0 b'a', 8) ∷ []

known_test : check_request 12 (at_host (codes "A:8\r")) ≡ some (true, known_calls, known)
unfolding check_request store_all peek extract_host to_lower read_and_write read get_number is_digit
    is_reserved write
known_test = refl

check_request_calls_once_example :
    ((true ≡ true)
      × (known.rd.parser_state ≡ finished)
      × (known_calls ≡ (known.rd.host, known.rd.port) ∷ []))
    ⊎ ((true ≡ false) × (known_calls ≡ []))
check_request_calls_once_example =
    check_request_calls_once 12 (at_host (codes "A:8\r")) (ground arith) (λ e. cc) known_test
