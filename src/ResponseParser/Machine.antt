-- ===== src/ResponseParser/Machine.antt =====
-- responseParser.c: `checkResponseInner`, the state machine, and `checkResponse`.
use http_proxy.Base.{ℕ, zero, suc, Bool, true, false, not, ◌&&◌, Option, none, some, if◌then◌else◌}
use http_proxy.ResponseParser.{
  ResponseParserState, res_space_transition, res_version, status, res_headers, length_check,
  encoding_check, chunked_check, connection_check, type_check, body_normal, body_transformation,
  res_finished, ResponseState, res_version_error, status_error, chunks_error, Response, in_state,
}
use http_proxy.ResponseParser.Body.{extract_body, extract_body_transf}
use http_proxy.ResponseParser.Headers.{
  check_spaces, extract_http_version, extract_status, check_headers, check_length, check_encoding,
  check_chunked, check_connection, check_type,
}

-- The locals of the loop beside the state.
pub record Run : Type 0 where
  pub success : Bool
  pub active : Bool
  pub response : Response

abbrev pub goes : Run → Response → Run
goes r q = record r { response = q }

abbrev pub fails : Run → Response → Run
fails r q = record r { success = false; response = q }

-- A state that fails if its function does, and else goes to the next.
abbrev pub then_state : ResponseParserState → Run → Bool × Response → Run
then_state s r (ok, q) = if ok then goes r (in_state s q) else fails r q

-- A header's state: it goes back to the headers unless the input gave out.
abbrev pub then_headers : Run → Bool × Response → Run
then_headers r (ok, q) = if not ok && q.io.empty then fails r q else goes r (in_state res_headers q)

abbrev pub spaces_before : ResponseParserState → Response → Response
spaces_before s q = record q {
  rd = record (q.rd) { parser_state = res_space_transition; next = s };
}

-- Behind the headers comes the body, behind a header that matters the spaces before its value.
abbrev pub after_headers : ResponseParserState → Response → Response
after_headers res_finished q =
    if q.rd.with_transf then in_state body_transformation q else in_state body_normal q
after_headers _ q = in_state res_space_transition q

-- One round of the loop: the switch on the state.
unfoldable pub round_in : ResponseParserState → Run → Run
round_in res_space_transition r =
    let (ok, q) = check_spaces r.response in if ok then goes r (in_state q.rd.next q) else fails r q
round_in res_version r =
    let (ok, q) = extract_http_version r.response in
    if ok then goes r (spaces_before status q) else fails r q
round_in status r = then_state res_headers r (extract_status r.response)
round_in res_headers r =
    let (ok, q) = check_headers r.response in
    if ok then goes r (after_headers q.rd.next q) else fails r q
round_in length_check r = then_headers r (check_length r.response)
round_in encoding_check r = then_headers r (check_encoding r.response)
round_in chunked_check r = then_headers r (check_chunked r.response)
round_in connection_check r = then_headers r (check_connection r.response)
round_in type_check r = then_headers r (check_type r.response)
round_in body_normal r = then_state res_finished r (extract_body r.response)
round_in body_transformation r = then_state res_finished r (extract_body_transf r.response)
round_in res_finished r = record r { active = false }

abbrev pub round : Run → Run
round r = round_in r.response.rd.parser_state r

-- `while (success && active)`; `none` if the rounds of the first argument do not suffice.
unfoldable pub loop : ℕ → Run → Option Run
unfolding round_in
loop zero r = if r.success && r.active then none else some r
loop (suc fuel) r = let rest = loop fuel (round r) in if r.success && r.active then rest else some r

-- The switch behind the loop: the error of each state, if it has one.
unfoldable pub error_of : ResponseParserState → Bool → ResponseState → ResponseState
error_of res_version chunked s = res_version_error
error_of status chunked s = status_error
error_of body_normal chunked s = if chunked then chunks_error else s
error_of body_transformation chunked s = if chunked then chunks_error else s
error_of res_space_transition chunked s = s
error_of res_headers chunked s = s
error_of length_check chunked s = s
error_of encoding_check chunked s = s
error_of chunked_check chunked s = s
error_of connection_check chunked s = s
error_of type_check chunked s = s
error_of res_finished chunked s = s

abbrev pub with_error : Response → Response
with_error q = record q {
  rd = record (q.rd) { state = error_of q.rd.parser_state q.rd.is_chunked q.rd.state };
}

abbrev pub first_run : Response → Run
first_run q = record {
  success = true;
  active = true;
  response = record q { io = record (q.io) { empty = false } };
}

-- The end of `checkResponseInner`.
abbrev pub finish_run : Run → Bool × Response
finish_run r = (
  r.success,
  if not r.success && not r.response.io.empty then with_error r.response else r.response,
)

abbrev pub ended : Option Run → Option (Bool × Response)
ended none = none
ended (some r) = some (finish_run r)

unfoldable pub check_response_inner : ℕ → Response → Option (Bool × Response)
unfolding loop error_of
check_response_inner fuel q = ended (loop fuel (first_run q))

unfoldable pub check_response : ℕ → Response → Option (Bool × Response)
unfolding check_response_inner
check_response fuel q = check_response_inner fuel q
