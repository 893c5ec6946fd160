-- ===== src/RequestParser/Machine.antt =====
-- requestParser.c: `checkRequestInner`, the state machine, and `checkRequest`.
use http_proxy.Base.{
  ℕ, zero, suc, Bool, true, false, not, ◌&&◌, ◌||◌, Option, none, some, List, [], ◌∷◌, ◌++◌, Bytes,
  ◌==◌, if◌then◌else◌, get_or,
}
use http_proxy.RequestParser.{
  RequestParserState, space_transition, method, uri, relative_uri, uri_host, version,
  start_line_end, localhost_header_check, headers, host, finished, HttpMethod, undefined_m,
  RequestState, version_error, start_line_end_error, general_method_error, unsupported_method_error,
  host_error, v_1_1, Request, in_state,
}
use http_proxy.RequestParser.Headers.{check_local_host, check_host_header, extract_host}
use http_proxy.RequestParser.StartLine.{
  check_spaces, extract_http_method, check_uri, check_uri_for_host, clean_relative_uri,
  extract_http_version, check_start_line_end,
}

-- The locals of the loop beside the state, and the calls of `hostCallback` so far, oldest first:
-- the host array and the port of each.
pub record Run : Type 0 where
  pub success : Bool
  pub active : Bool
  pub request : Request
  pub calls : List (Bytes × ℕ)

abbrev pub goes : Run → Request → Run
goes r q = record r { request = q }

abbrev pub fails : Run → Request → Run
fails r q = record r { success = false; request = q }

abbrev pub spaces_before : RequestParserState → Request → Request
spaces_before s q = record q { rd = record (q.rd) { parser_state = space_transition; next = s } }

abbrev pub calls_back : Run → Request → Run
calls_back r q = record r {
  request = in_state finished q;
  calls = r.calls ++ ((q.rd.host, q.rd.port) ∷ []);
}

abbrev pub host_known : Request → Bool
host_known q = not (get_or q.rd.host 0 0 == 0) || q.io.empty

-- What the cases URI and URI_HOST do with the result.
abbrev pub after_uri : Run → Bool × Request → Run
after_uri r (aux, q) =
    if not aux && host_known q
    then fails r q
    else if aux
    then calls_back r q
    else goes r (spaces_before version q)

-- One round of the loop: the switch on the state.
unfoldable pub round_in : RequestParserState → Run → Run
round_in space_transition r =
    let (ok, q) = check_spaces r.request in if ok then goes r (in_state q.rd.next q) else fails r q
round_in method r =
    let (ok, q) = extract_http_method r.request in
    if ok then goes r (spaces_before uri q) else fails r q
round_in uri r = after_uri r (check_uri r.request)
round_in uri_host r = after_uri r (check_uri_for_host r.request)
round_in relative_uri r =
    let (ok, q) = clean_relative_uri r.request in
    if ok then goes r (spaces_before version q) else fails r q
round_in version r =
    let (ok, q) = extract_http_version r.request in
    if ok then goes r (in_state start_line_end q) else fails r q
round_in start_line_end r =
    let (ok, q) = check_start_line_end r.request in
    if ok then goes r (in_state localhost_header_check q) else fails r q
round_in localhost_header_check r =
    let (ok, q) = check_local_host r.request in
    if ok then calls_back r q else if q.io.empty then fails r q else goes r (in_state headers q)
round_in headers r =
    let (ok, q) = check_host_header r.request in
    if ok then goes r (spaces_before host q) else fails r q
round_in host r =
    let (aux, q) = extract_host r.request in
    if not aux && host_known q then fails r q else if aux then calls_back r q else goes r q
round_in finished r = record r { active = false }

abbrev pub round : Run → Run
round r = round_in r.request.rd.parser_state r

-- `while (success && active)`; `none` if the rounds of the first argument do not suffice.
unfoldable pub loop : ℕ → Run → Option Run
unfolding round_in
loop zero r = if r.success && r.active then none else some r
loop (suc fuel) r = let rest = loop fuel (round r) in if r.success && r.active then rest else some r

-- The switch behind the loop: the error of each state, if it has one.
unfoldable pub error_of : RequestParserState → HttpMethod → RequestState → RequestState
error_of method undefined_m s = general_method_error
error_of method _ s = unsupported_method_error
error_of uri m s = host_error
error_of uri_host m s = host_error
error_of version m s = version_error
error_of start_line_end m s = start_line_end_error
error_of headers m s = host_error
error_of host m s = host_error
error_of space_transition m s = s
error_of relative_uri m s = s
error_of localhost_header_check m s = s
error_of finished m s = s

abbrev pub with_error : Request → Request
with_error q = record q {
  rd = record (q.rd) { state = error_of q.rd.parser_state q.rd.method q.rd.state };
}

abbrev pub start_run : Request → Run
start_run q = record {
  success = true;
  active = true;
  request = record q { io = record (q.io) { empty = false } };
  calls = [];
}

-- The end of `checkRequestInner`.
abbrev pub finish_run : Run → Bool × List (Bytes × ℕ) × Request
finish_run r = (
  r.success,
  r.calls,
  if not r.success && not r.request.io.empty then with_error r.request else r.request,
)

abbrev pub ended : Option Run → Option (Bool × List (Bytes × ℕ) × Request)
ended none = none
ended (some r) = some (finish_run r)

unfoldable pub check_request_inner : ℕ → Request → Option (Bool × List (Bytes × ℕ) × Request)
unfolding loop error_of
check_request_inner fuel q = ended (loop fuel (start_run q))

-- The callback's calls stand between the result and the state.
abbrev pub first_run : Request → Run
first_run q = start_run (record q { rd = record (q.rd) { version = v_1_1 } })

unfoldable pub check_request : ℕ → Request → Option (Bool × List (Bytes × ℕ) × Request)
unfolding check_request_inner
check_request fuel q =
    check_request_inner fuel (record q { rd = record (q.rd) { version = v_1_1 } })
