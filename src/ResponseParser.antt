-- ===== src/ResponseParser.antt =====
-- responseParser.c: the data of the response parser. Its functions and its state machine are in
-- the children. `isBufferEmpty` stands in `Io`, beside the input and the output.
pub mod Headers
pub mod Body
pub mod Machine
pub mod Errors
pub mod Unread
pub mod Leaves
pub mod Progress
mod Tests
use http_proxy.Base.{ℕ, ◌-◌, Bool, true, false, int_mod}
use http_proxy.Buffer.{Buffer}
use http_proxy.ParserUtils.{Io}
use http_proxy.RequestParser.{HttpVersion, undefined}

pub data ResponseParserState : Type 0 where
  res_space_transition res_version status res_headers : ResponseParserState
  length_check encoding_check chunked_check connection_check type_check : ResponseParserState
  body_normal body_transformation res_finished : ResponseParserState

pub data ContentEncoding : Type 0 where
  identity gzip : ContentEncoding

pub data ResponseState : Type 0 where
  res_ok res_general_error start_line_format_error res_version_error status_error : ResponseState
  headers_end_error chunks_error res_allocation_error : ResponseState

-- The `int` -1.
abbrev pub no_body_length : ℕ
no_body_length = int_mod - 1

-- `ResponseData`, but for `isBufferEmpty`. The two `int`s are bit patterns.
pub record ResponseData : Type 0 where
  pub parser_state : ResponseParserState
  pub next : ResponseParserState
  pub state : ResponseState
  pub version : HttpVersion
  pub status : ℕ
  pub is_close : Bool
  pub body_length : ℕ
  pub c_encoding : ContentEncoding
  pub is_chunked : Bool
  pub with_transf : Bool

-- What a function of the parser gets and updates: `*rData`, `*bIn` and `*bOut`, and `*bTransf`.
pub record Response : Type 0 where
  pub rd : ResponseData
  pub io : Io
  pub transf : Buffer

-- The field `next` keeps the value that it had.
unfoldable pub default_response_struct : ResponseData → ResponseData
default_response_struct rd = record rd {
  parser_state = res_version;
  state = res_ok;
  version = undefined;
  status = 0;
  body_length = no_body_length;
  c_encoding = identity;
  is_close = false;
  is_chunked = false;
  with_transf = false;
}

abbrev pub with_io : Response → Io → Response
with_io q io = record q { io = io }

abbrev pub in_state : ResponseParserState → Response → Response
in_state s q = record q { rd = record (q.rd) { parser_state = s } }
