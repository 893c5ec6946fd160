-- ===== src/ResponseParser/Tests.antt =====
-- Runs of the response parser, and the theorems at them.
use http_proxy.Base.{
  ◌*◌, Bool, some, arith, ◌+◌, ◌≡◌, ◌⊎◌, refl, true, false, some, [], Bytes, codes, zeros, length,
  is_digit,
}
use http_proxy.Buffer.{Buffer, store_all, peek}
use http_proxy.ParserUtils.{unread_count}
use http_proxy.ParserUtils.Numbers.{get_number}
use http_proxy.RequestParser.{undefined}
use http_proxy.ResponseParser.{
  Response, status, res_ok, identity, res_finished, status_error, no_body_length,
}
use http_proxy.ResponseParser.Errors.{Blames, check_response-Reported}
use http_proxy.ResponseParser.Headers.{extract_status}
use http_proxy.ResponseParser.Machine.{Run, check_response, first_run}
use http_proxy.ResponseParser.Progress.{check_response_ends, Rounds, goes_on}

-- 20 reserved bytes, behind which some bytes have been received.
abbrev loaded : Bytes → Buffer
loaded xs = record {
  mem = store_all (zeros 64) 20 xs;
  inf_limit = 20;
  limit = 64;
  read = 20;
  write = 20 + length xs;
}

abbrev fresh : Buffer
fresh = record { mem = zeros 64; inf_limit = 0; limit = 64; read = 0; write = 0 }

-- A parser behind the version and its space.
abbrev at_status : Bytes → Response
at_status xs = record {
  rd = record {
    parser_state = status;
    next = status;
    state = res_ok;
    version = undefined;
    status = 0;
    is_close = false;
    body_length = no_body_length;
    c_encoding = identity;
    is_chunked = false;
    with_transf = false;
  };
  io = record { inp = loaded xs; out = fresh; empty = false };
  transf = fresh;
}

-- No number stands there.
abbrev refused : Response
refused = record (at_status (codes "OK")) {
  rd = record ((at_status []).rd) { state = status_error };
}

refused_test : check_response 2 (at_status (codes "OK")) ≡ some (false, refused)
unfolding check_response store_all extract_status get_number peek is_digit
refused_test = refl

check_response-Reported_example :
    ((false ≡ true) × (refused.rd.parser_state ≡ res_finished) × (refused.rd.state ≡ res_ok))
    ⊎ (((false ≡ false) × (refused.io.empty ≡ true) × (refused.rd.state ≡ res_ok))
        ⊎ ((false ≡ false)
            × (refused.io.empty ≡ false)
            × Blames refused.rd.parser_state refused.rd.is_chunked res_ok refused.rd.state))
check_response-Reported_example = check_response-Reported 2 (at_status (codes "OK")) refused_test

check_response_ends_example :
    ((result : Bool × Response) × (check_response
          (5 * unread_count (loaded (codes "200 OK")) + 7)
          (at_status (codes "200 OK"))
        ≡ some result))
    ⊎ ((s : Run) × Rounds (first_run (at_status (codes "200 OK"))) s
        × (goes_on s ≡ true)
        × (s.response.io.empty ≡ true))
check_response_ends_example = check_response_ends (at_status (codes "200 OK")) (ground arith)
