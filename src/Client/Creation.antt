-- ===== src/Client/Creation.antt =====
-- client.c and main.c: a new client, and how the proxy comes by one.
use http_proxy.Base.{ℕ, Bool, false, Option, none, some, List, [], ◌∷◌, Bytes, set}
use http_proxy.Buffer.{init_r}
use http_proxy.RequestParser.{default_request_struct}
use http_proxy.ResponseParser.{default_response_struct}
use http_proxy.Client.{no_origin, no_error, Client, op_read, Call, register, new_connection}

abbrev pub reserved_space : ℕ
reserved_space = 255

-- What `client_new` gets from outside: the memory for the client as it was, the storage of each buffer,
-- `buffers_size` of the configuration, and what `transformations_new` stores for the descriptors.
pub record Given : Type 0 where
  pub junk : Client
  pub pre_req_mem : Bytes
  pub post_req_mem : Bytes
  pub pre_res_mem : Bytes
  pub post_res_mem : Bytes
  pub pre_transf_mem : Bytes
  pub buffers_size : ℕ
  pub transf_in_fd : Option ℕ
  pub transf_out_fd : Option ℕ

-- `client_new`, with `malloc` giving memory.
unfoldable pub client_new : Given → ℕ → Client
unfolding init_r default_request_struct default_response_struct
client_new g fd = record (g.junk) {
  state = no_origin;
  err = no_error;
  host = record (g.junk.host) { fqdn = set g.junk.host.fqdn 0 0; resolved = false };
  origin_fd = none;
  client_fd = some fd;
  should_transform = false;
  transf_in_fd = g.transf_in_fd;
  transf_out_fd = g.transf_out_fd;
  req_data = default_request_struct g.junk.req_data;
  res_data = default_response_struct g.junk.res_data;
  pre_req_parse_buf = init_r g.junk.pre_req_parse_buf reserved_space g.buffers_size g.pre_req_mem;
  post_req_parse_buf =
      init_r g.junk.post_req_parse_buf reserved_space g.buffers_size g.post_req_mem;
  pre_res_parse_buf = init_r g.junk.pre_res_parse_buf reserved_space g.buffers_size g.pre_res_mem;
  post_res_parse_buf =
      init_r g.junk.post_res_parse_buf reserved_space g.buffers_size g.post_res_mem;
  pre_transf_buf = init_r g.junk.pre_transf_buf reserved_space g.buffers_size g.pre_transf_mem;
  client_registered = false;
  origin_registered = false;
}

-- `accepted` is what `accept(2)` gives; the last argument says whether `selector_register` succeeds.
unfoldable pub listen_read_handler : Given → Option ℕ → Bool → Option (Client × List Call)
unfolding client_new
listen_read_handler g none put_in = none
listen_read_handler g (some fd) put_in = some (
  record (client_new g fd) { client_registered = put_in },
  new_connection ∷ register (some fd) op_read ∷ [],
)
