-- ===== src/Client/Readers.antt =====
-- client_handlers.c and remote_handlers.c: the handlers that receive, from the client and from the origin,
-- and run the parsers. `none` is a failed assert, an access out of bounds or to what has been freed, or a
-- parser that does not end within the rounds of the argument `fuel`.
use http_proxy.Base.{
  ℕ, zero, suc, Bool, true, false, not, ◌&&◌, ◌||◌, Option, none, some, ◌>>=◌, List, [], ◌∷◌, ◌++◌,
  Bytes, ◌==◌, if◌then◌else◌,
}
use http_proxy.Buffer.{Buffer, can_read, can_write, write_ptr}
use http_proxy.Buffer.Receive.{receive}
use http_proxy.Chunks.{ReadResult, read_error, got}
use http_proxy.ParserUtils.{Io, read_and_write, unread_count}
use http_proxy.RequestParser.{
  RequestParserState, RequestState, ok, general_error, version_error, start_line_end_error,
  general_method_error, unsupported_method_error, host_error, allocation_error, Request,
}
use http_proxy.RequestParser.Machine.{check_request}
use http_proxy.ResponseParser.{ResponseState, res_ok, Response}
use http_proxy.ResponseParser.Machine.{check_response}
use http_proxy.Selector.{op_noop}
use http_proxy.Client.{
  ClientState, no_origin, send_req, read_resp, cli_error, beyond, Client, op_write, Call,
  set_interest, Result, is_res_finished, unregister_client, unregister_client_calls,
  unregister_origin, unregister_origin_calls,
}
use http_proxy.Client.Origin.{client_set_host, Handled, exits, done}
use http_proxy.RequestParser

-- `while (readAndWrite(in, out));`, which ends at the latest when the bytes that stood unread are read.
unfoldable pub drain_loop : ℕ → Io → Io
drain_loop zero io = (read_and_write io).1
drain_loop (suc n) io =
    let rest = drain_loop n (read_and_write io).1 in
    if (read_and_write io).0 == 0 then (read_and_write io).1 else rest

abbrev pub request_io : Client → Io
request_io c = record { inp = c.pre_req_parse_buf; out = c.post_req_parse_buf; empty = false }

abbrev pub with_request_io : Client → Io → Client
with_request_io c io = record c { pre_req_parse_buf = io.inp; post_req_parse_buf = io.out }

unfoldable pub drain : Client → Client
unfolding drain_loop
drain c = with_request_io c (drain_loop (unread_count c.pre_req_parse_buf) (request_io c))

-- The calls of `client_set_host` that the parser makes.
unfoldable pub call_back : List (Bytes × ℕ) → Client × List Call → Option (Client × List Call)
unfolding client_set_host
call_back [] r = some r
call_back ((host, port) ∷ more) (c, calls) =
    client_set_host host port c >>= λ r. call_back more (r.0, calls ++ r.1)

-- Behind `checkRequest`: `request_complete`, and the callbacks. Neither uses what the other sets.
abbrev pub checked : Client → Bool × List (Bytes × ℕ) × Request → Option (Client × List Call)
checked c (complete, hosts, q) =
    call_back hosts
      (record (with_request_io c q.io) { req_data = q.rd; request_complete = complete }, [])

unfoldable pub parse_request : ℕ → Client → Option (Client × List Call)
unfolding check_request call_back
parse_request fuel c =
    check_request fuel (record { rd = c.req_data; io = request_io c }) >>= checked c

abbrev pub is_finished : RequestParserState → Bool
is_finished RequestParser.finished = true
is_finished _ = false

abbrev pub is_ok : RequestState → Bool
is_ok ok = true
is_ok _ = false

-- The end of the case NO_ORIGIN.
abbrev pub conclude : Client × List Call → Option Result
conclude (c, calls) =
    if is_ok c.req_data.state
    then some (record { client = drain c; sent = []; calls = calls })
    else some (record {
      client = unregister_client c;
      sent = [];
      calls = calls ++ unregister_client_calls c;
    })

abbrev pub parse_unless_finished : ℕ → Client → Option (Client × List Call)
parse_unless_finished fuel c =
    if is_finished c.req_data.parser_state then some (c, []) else parse_request fuel c

abbrev pub with_calls : List Call → Result → Result
with_calls calls r = record r { calls = calls ++ r.calls }

abbrev pub after_calls : List Call → Option Result → Option Result
after_calls calls none = none
after_calls calls (some r) = some (with_calls calls r)

-- What is left of the case NO_ORIGIN works on the bytes of the buffers: the parser is called, or the
-- loop behind it finds an unread byte.
abbrev pub uses_buffers : Client → Bool
uses_buffers c =
    not (is_finished c.req_data.parser_state)
    || (is_ok c.req_data.state && can_read c.pre_req_parse_buf)

-- Behind `read(2)` in the case NO_ORIGIN. A failed read takes the client out of the selector, and goes
-- on. If the client was registered, its buffers have been freed by then, and `none` is that they are
-- used; the parser is taken to use them whenever it is called.
abbrev pub read_no_origin : ℕ → Client → ReadResult → Option Result
read_no_origin fuel c read_error =
    if c.client_registered && uses_buffers c
    then none
    else after_calls (unregister_client_calls c)
        (parse_unless_finished fuel (unregister_client c) >>= conclude)
read_no_origin fuel c (got ys) = receive c.pre_req_parse_buf ys >>= λ b.
    parse_unless_finished fuel (record c { pre_req_parse_buf = b }) >>= conclude

-- `(client_state_t)client->req_data.state`.
abbrev pub state_of : RequestState → ClientState
state_of ok = no_origin
state_of general_error = send_req
state_of version_error = read_resp
state_of start_line_end_error = cli_error
state_of general_method_error = beyond 4
state_of unsupported_method_error = beyond 5
state_of host_error = beyond 6
state_of allocation_error = beyond 7

-- The end of the case SEND_REQ.
abbrev pub pass_request : Client × List Call → Option Result
pass_request (c, calls) = some (record {
  client = record (drain c) { state = state_of c.req_data.state };
  sent = [];
  calls = calls ++ (set_interest c.origin_fd op_write ∷ []);
})

-- Behind `read(2)` in the case SEND_REQ, where a failed read is as one that gives no bytes.
abbrev pub read_send_req : ℕ → Client → ReadResult → Option Result
read_send_req fuel c read_error = parse_request fuel c >>= pass_request
read_send_req fuel c (got ys) = receive c.pre_req_parse_buf ys >>= λ b.
    parse_request fuel (record c { pre_req_parse_buf = b }) >>= pass_request

-- `buffer_write_ptr` and `read(2)`, or no room.
abbrev pub read_into :
    Buffer → (ℕ → ReadResult) → Option Result → (ReadResult → Option Result) → Option Result
read_into b read full then_do =
    if can_write b
    then elim (write_ptr b) [ none ↦ none | some (at, space) ↦ then_do (read space) ]
    else full

abbrev pub stop_reading : Client → Option Result
stop_reading c =
    some (record { client = c; sent = []; calls = set_interest c.client_fd op_noop ∷ [] })

abbrev pub ignored : Client → Option Result
ignored c = some (record { client = c; sent = []; calls = [] })

unfoldable pub client_read_in : ClientState → ℕ → (ℕ → ReadResult) → Client → Option Result
unfolding can_write write_ptr receive parse_request drain unregister_client unregister_client_calls
client_read_in no_origin fuel read c =
    read_into c.pre_req_parse_buf read (stop_reading c) (read_no_origin fuel c)
client_read_in send_req fuel read c =
    read_into c.pre_req_parse_buf read (stop_reading c) (read_send_req fuel c)
client_read_in read_resp fuel read c = ignored c
client_read_in cli_error fuel read c = ignored c
client_read_in (beyond n) fuel read c = ignored c

unfoldable pub client_read : ℕ → (ℕ → ReadResult) → Client → Option Result
unfolding client_read_in
client_read fuel read c = client_read_in c.state fuel read c

abbrev pub is_res_ok : ResponseState → Bool
is_res_ok res_ok = true
is_res_ok _ = false

-- A response that is finished: the origin is closed.
abbrev pub finish_response : Client → Client
finish_response c = if is_res_finished c.res_data.parser_state then unregister_origin c else c

abbrev pub finish_response_calls : Client → List Call
finish_response_calls c =
    if is_res_finished c.res_data.parser_state
    then unregister_origin_calls c ++ (set_interest c.client_fd op_write ∷ [])
    else []

-- Who is to write what the parser has passed on.
abbrev pub pass_response_calls : Client → List Call
pass_response_calls c =
    if c.should_transform
    then (if can_read c.pre_transf_buf then set_interest c.transf_in_fd op_write ∷ [] else [])
    else set_interest c.client_fd op_write ∷ []

-- Behind `checkResponse`.
abbrev pub responded : Client → Handled
responded c =
    if is_res_ok c.res_data.state
    then done (finish_response c) (finish_response_calls c ++ pass_response_calls c)
    else exits 42

abbrev pub with_response : Client → Bool × Response → Client
with_response c (finished, q) = record c {
  pre_res_parse_buf = q.io.inp;
  post_res_parse_buf = q.io.out;
  pre_transf_buf = q.transf;
  res_data = q.rd;
}

abbrev pub response_of : Client → Response
response_of c = record {
  rd = c.res_data;
  io = record { inp = c.pre_res_parse_buf; out = c.post_res_parse_buf; empty = false };
  transf = c.pre_transf_buf;
}

unfoldable pub parse_response : ℕ → Client → Option Client
unfolding check_response
parse_response fuel c = check_response fuel (response_of c) >>= λ r. some (with_response c r)

abbrev pub respond : Option Client → Option Handled
respond none = none
respond (some c) = some (responded c)

-- Behind `read(2)`. Nothing happens when the origin has closed the connection.
abbrev pub read_response : ℕ → Client → ReadResult → Option Handled
read_response fuel c read_error =
    some
      (done (unregister_origin c) (set_interest c.client_fd op_write ∷ unregister_origin_calls c))
read_response fuel c (got []) = some (done c [])
read_response fuel c (got (y ∷ ys)) = respond (
    receive c.pre_res_parse_buf (y ∷ ys) >>= λ b.
    parse_response fuel (record c { pre_res_parse_buf = b }))

unfoldable pub remote_read_resp : ℕ → (ℕ → ReadResult) → Client → Option Handled
unfolding can_write write_ptr receive parse_response can_read
remote_read_resp fuel read c =
    if can_write c.pre_res_parse_buf
    then elim (write_ptr c.pre_res_parse_buf) [
      | none ↦ none
      | some (at, space) ↦ read_response fuel c (read space)
    ]
    else some (done c (set_interest c.origin_fd op_noop ∷ []))

unfoldable pub remote_read_in : ClientState → ℕ → (ℕ → ReadResult) → Client → Option Handled
unfolding remote_read_resp
remote_read_in read_resp fuel read c = remote_read_resp fuel read c
remote_read_in no_origin fuel read c = some (done c [])
remote_read_in send_req fuel read c = some (done c [])
remote_read_in cli_error fuel read c = some (done c [])
remote_read_in (beyond n) fuel read c = some (done c [])

unfoldable pub remote_read : ℕ → (ℕ → ReadResult) → Client → Option Handled
unfolding remote_read_in
remote_read fuel read c = remote_read_in c.state fuel read c
