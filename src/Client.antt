-- ===== src/Client.antt =====
-- The state of a client, client_private.h, and the end of a client, client.c. The handlers are in the
-- children: those that send in Senders, those that receive in Readers, and what is about the origin in
-- Origin. The calls that they make of the selector, the metrics and the system are listed in order, in
-- place of their effect there; the `handle_close` that runs in `selector_unregister_fd` is written out.
pub mod Senders
pub mod Origin
pub mod Creation
pub mod Readers
pub mod Draining
pub mod Receiving
pub mod Stranded
pub mod Keeping
pub mod Lookup
pub mod Life
pub mod Refusing
pub mod Discarding
pub mod Closing
pub mod Writing
pub mod Sending
pub mod Ending
mod Tests
mod Scenarios
use http_proxy.Base.{
  ℕ, Bool, true, false, Option, none, some, List, [], ◌∷◌, ◌++◌, Bytes, if◌then◌else◌,
}
use http_proxy.Buffer.{Buffer}
use http_proxy.RequestParser.{RequestData}
use http_proxy.ResponseParser.{ResponseParserState, res_finished, ResponseData}
use http_proxy.Selector.{Interest}

-- `beyond` are the values of the type that are none of the constants.
pub data ClientState : Type 0 where
  no_origin send_req read_resp cli_error : ClientState
  beyond : ℕ → ClientState

pub data ClientError : Type 0 where
  no_error keepalive_host_no_match invalid_host : ClientError

-- `resolved` says whether `getaddrinfo` has found an address.
pub record HostDetails : Type 0 where
  pub port : ℕ
  pub fqdn : Bytes
  pub resolved : Bool

-- `struct client_cdt`, but for the logger, the time of the connection, and what only the dummy parsers
-- use. A descriptor is `none` for -1. The selector's side is two fields: whether it has the client's
-- descriptor, and whether it has the origin's.
pub record Client : Type 0 where
  pub state : ClientState
  pub err : ClientError
  pub pre_req_parse_buf : Buffer
  pub post_req_parse_buf : Buffer
  pub pre_res_parse_buf : Buffer
  pub post_res_parse_buf : Buffer
  pub pre_transf_buf : Buffer
  pub client_fd : Option ℕ
  pub origin_fd : Option ℕ
  pub transf_in_fd : Option ℕ
  pub transf_out_fd : Option ℕ
  pub req_data : RequestData
  pub res_data : ResponseData
  pub request_complete : Bool
  pub should_transform : Bool
  pub host : HostDetails
  pub client_registered : Bool
  pub origin_registered : Bool

abbrev pub op_read : Interest
op_read = record { op_read = true; op_write = false }

abbrev pub op_write : Interest
op_write = record { op_read = false; op_write = true }

-- The storage of a buffer.
pub data Storage : Type 0 where
  pre_req_mem post_req_mem pre_res_mem post_res_mem pre_transf_mem : Storage

-- Calls of the selector, of the metrics, and of the system; `resolve` starts the thread that looks the
-- host up.
pub data Call : Type 0 where
  set_interest : Option ℕ → Interest → Call
  unregister : Option ℕ → Call
  register : Option ℕ → Interest → Call
  add_transfered_bytes : ℕ → Call
  new_connection : Call
  close_connection : Call
  close : ℕ → Call
  free : Storage → Call
  resolve : Call
  connect : ℕ → Call

-- What `write(2)` gives: -1, or the number of bytes written.
pub data Written : Type 0 where
  write_error : Written
  wrote : ℕ → Written

-- The client behind a handler, the bytes that it wrote to the descriptor, and its calls.
pub record Result : Type 0 where
  pub client : Client
  pub sent : Bytes
  pub calls : List Call

abbrev pub quiet : Client → List Call → Option Result
quiet c calls = some (record { client = c; sent = []; calls = calls })

abbrev pub is_minus_one : Option ℕ → Bool
is_minus_one none = true
is_minus_one (some fd) = false

abbrev pub is_res_finished : ResponseParserState → Bool
is_res_finished res_finished = true
is_res_finished _ = false

abbrev pub closing : Option ℕ → List Call
closing none = []
closing (some fd) = close fd ∷ []

-- `remote_close`: the descriptor of the origin is closed and forgotten.
abbrev pub remote_close : Client → Client
remote_close c = record c { origin_fd = none }

-- `selector_unregister_fd` of the origin, which calls `remote_close` if the origin is registered.
abbrev pub unregister_origin : Client → Client
unregister_origin c = record c {
  origin_fd = if c.origin_registered then (remote_close c).origin_fd else c.origin_fd;
  origin_registered = false;
}

abbrev pub unregister_origin_calls : Client → List Call
unregister_origin_calls c =
    unregister c.origin_fd ∷ (if c.origin_registered then closing c.origin_fd else [])

-- The origin's part of `client_free_resources`.
abbrev pub drop_origin_calls : Option ℕ → Client → List Call
drop_origin_calls none c = []
drop_origin_calls (some fd) c = close fd ∷ unregister_origin_calls c

unfoldable pub client_free_resources : Client → Client
client_free_resources c = record c { origin_fd = none; origin_registered = false }

unfoldable pub client_free_resources_calls : Client → List Call
client_free_resources_calls c =
    drop_origin_calls c.origin_fd c
    ++ (closing c.client_fd
        ++ (free pre_req_mem ∷ free post_req_mem ∷ free pre_res_mem ∷ free post_res_mem ∷ []))

-- `client_close`.
abbrev pub client_close_calls : Client → List Call
client_close_calls c = close_connection ∷ client_free_resources_calls c

-- `selector_unregister_fd` of the client, which calls `client_close` if the client is registered.
unfoldable pub unregister_client : Client → Client
unfolding client_free_resources
unregister_client c =
    let closed = client_free_resources c in
    record c {
      origin_fd = if c.client_registered then closed.origin_fd else c.origin_fd;
      origin_registered =
          if c.client_registered then closed.origin_registered else c.origin_registered;
      client_registered = false;
    }

unfoldable pub unregister_client_calls : Client → List Call
unfolding client_free_resources_calls
unregister_client_calls c =
    unregister c.client_fd ∷ (if c.client_registered then client_close_calls c else [])

-- `client_terminate`.
unfoldable pub client_terminate : Client → Client
unfolding unregister_client client_free_resources
client_terminate c = client_free_resources (unregister_client c)

unfoldable pub client_terminate_calls : Client → List Call
unfolding unregister_client_calls unregister_client client_free_resources_calls
client_terminate_calls c =
    closing c.client_fd
    ++ (unregister_client_calls c ++ client_free_resources_calls (unregister_client c))
