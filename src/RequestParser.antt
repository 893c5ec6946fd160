-- ===== src/RequestParser.antt =====
-- requestParser.c: the data of the request parser. Its functions, state machine and theorems are
-- in the children. `isBufferEmpty` stands in `Io`, beside the two buffers: the helpers write it.
pub mod StartLine
pub mod Headers
pub mod Machine
pub mod Progress
pub mod Outcomes
pub mod Calls
pub mod Hang
mod Tests
use http_proxy.Base.{ℕ, Bool, true, false, Bytes, zeros}
use http_proxy.ParserUtils.{Io}

pub data RequestParserState : Type 0 where
  space_transition method uri relative_uri uri_host version : RequestParserState
  start_line_end localhost_header_check headers host finished : RequestParserState

pub data HttpMethod : Type 0 where
  undefined_m get head post put delete connect options trace : HttpMethod

pub data RequestState : Type 0 where
  ok general_error version_error start_line_end_error general_method_error : RequestState
  unsupported_method_error host_error allocation_error : RequestState

pub data HttpVersion : Type 0 where
  undefined v_1_0 v_1_1 : HttpVersion

abbrev pub host_max_size : ℕ
host_max_size = 255

abbrev pub default_port : ℕ
default_port = 80

-- `RequestData`, but for `isBufferEmpty` and the callback, which is a record of its calls.
pub record RequestData : Type 0 where
  pub parser_state : RequestParserState
  pub next : RequestParserState
  pub state : RequestState
  pub version : HttpVersion
  pub method : HttpMethod
  pub host : Bytes
  pub port : ℕ
  pub is_local_host : Bool

-- What a function of the parser gets and updates: `*rData`, `*bIn` and `*bOut`.
pub record Request : Type 0 where
  pub rd : RequestData
  pub io : Io

-- The field `next` keeps the value that it had.
unfoldable pub default_request_struct : RequestData → RequestData
default_request_struct rd = record rd {
  parser_state = method;
  state = ok;
  version = undefined;
  method = undefined_m;
  port = default_port;
  is_local_host = false;
  host = zeros host_max_size;
}

abbrev pub set_empty : Io → Io
set_empty io = record io { empty = true }

abbrev pub with_io : Request → Io → Request
with_io q io = record q { io = io }

abbrev pub in_state : RequestParserState → Request → Request
in_state s q = record q { rd = record (q.rd) { parser_state = s } }
