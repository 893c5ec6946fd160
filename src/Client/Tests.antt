-- ===== src/Client/Tests.antt =====
-- A client whose buffers hold three bytes each, with a `write` that writes two at most.
use http_proxy.Base.{ℕ, ◌≡◌, ◌⊎◌, refl, ap, true, false, none, some, [], ◌∷◌, ◌++◌, min, inr, arith}
use http_proxy.Buffer.{Buffer}
use http_proxy.Buffer.Invariant.{IsValid}
use http_proxy.Buffer.Refine.{contents}
use http_proxy.Client.{
  ClientState, send_req, read_resp, no_error, HostDetails, Client, op_read, set_interest,
  unregister, close, add_transfered_bytes, Written, write_error, wrote, Result,
}
use http_proxy.Client.Senders.{remote_write, transf_read}
use http_proxy.RequestParser.{RequestData, finished, method, ok, undefined_m, v_1_1}
use http_proxy.ResponseParser.{ResponseData, res_version, res_ok, identity, no_body_length}
use http_proxy.Chunks.{empty_chunk, got}
use http_proxy.Client.Ending.{transf_read_ends_early}
use http_proxy.Client.Sending.{remote_write-Outcome}
use http_proxy.Client.Writing.{AtMost, Divided}

abbrev pub three : Buffer
three = record { mem = 7 ∷ 8 ∷ 9 ∷ 0 ∷ []; inf_limit = 0; limit = 4; read = 0; write = 3 }

pub three-IsValid : IsValid three
three-IsValid = record {
  inf_le_write = omega arith;
  read_le_write = omega arith;
  read_home = inr refl;
  write_le_limit = omega arith;
  in_storage = omega arith;
}

-- A parser that has read the headers of a request to `h`.
abbrev pub req_data : RequestData
req_data = record {
  parser_state = finished;
  next = method;
  state = ok;
  version = v_1_1;
  method = undefined_m;
  host = b'h' ∷ 0 ∷ [];
  port = 80;
  is_local_host = false;
}

abbrev pub res_data : ResponseData
res_data = record {
  parser_state = res_version;
  next = res_version;
  state = res_ok;
  version = v_1_1;
  status = 0;
  is_close = false;
  body_length = no_body_length;
  c_encoding = identity;
  is_chunked = false;
  with_transf = false;
}

abbrev pub nobody : HostDetails
nobody = record { port = 0; fqdn = 0 ∷ []; resolved = false }

abbrev pub client : ClientState → Client
client st = record {
  state = st;
  err = no_error;
  pre_req_parse_buf = three;
  post_req_parse_buf = three;
  pre_res_parse_buf = three;
  post_res_parse_buf = three;
  pre_transf_buf = three;
  client_fd = some 4;
  origin_fd = some 5;
  transf_in_fd = none;
  transf_out_fd = none;
  req_data = req_data;
  res_data = res_data;
  request_complete = true;
  should_transform = false;
  host = nobody;
  client_registered = true;
  origin_registered = true;
}

abbrev two_at_most : ℕ → Written
two_at_most n = wrote (min n 2)

bytes : Written → ℕ
bytes write_error = 0
bytes (wrote n) = n

two_at_most-AtMost : AtMost two_at_most
unfolding bytes
two_at_most-AtMost n k e = let is : min n 2 ≡ k = ap bytes e in omega arith

remote_write-Outcome_example :
    (r : Result) × (remote_write two_at_most (client send_req) ≡ some r)
    × Divided three r.sent r.client.post_req_parse_buf
    × ((r.client.state ≡ send_req)
        ⊎ ((r.client.state ≡ read_resp)
            × (send_req ≡ send_req)
            × (true ≡ true)
            × (contents three ≡ [])))
remote_write-Outcome_example =
    remote_write-Outcome (client send_req) two_at_most two_at_most-AtMost three-IsValid

-- Two bytes go to the origin, and the proxy reads from the client again.
abbrev sent_two : Result
sent_two = record {
  client = record (client send_req) { post_req_parse_buf = record three { read = 2 } };
  sent = 7 ∷ 8 ∷ [];
  calls = add_transfered_bytes 2 ∷ set_interest (some 4) op_read ∷ [];
}

two_sent : remote_write two_at_most (client send_req) ≡ some sent_two
unfolding remote_write
two_sent = refl

-- A buffer with ten free bytes.
abbrev ten_free : Buffer
ten_free = record {
  mem = 7 ∷ 8 ∷ 0 ∷ 0 ∷ 0 ∷ 0 ∷ 0 ∷ 0 ∷ 0 ∷ 0 ∷ 0 ∷ 0 ∷ [];
  inf_limit = 0;
  limit = 12;
  read = 0;
  write = 2;
}

ten_free-IsValid : IsValid ten_free
ten_free-IsValid = record {
  inf_le_write = omega arith;
  read_le_write = omega arith;
  read_home = inr refl;
  write_le_limit = omega arith;
  in_storage = omega arith;
}

abbrev transforming : Client
transforming = record (client read_resp) { post_res_parse_buf = ten_free; transf_out_fd = some 6 }

transf_read_ends_early_example :
    (r : Result) × (transf_read (λ n. []) true (λ n. got (7 ∷ [])) transforming ≡ some r)
    × (contents r.client.post_res_parse_buf ≡ contents ten_free ++ empty_chunk)
    × (r.calls ≡ unregister (some 6) ∷ close 6 ∷ [])
    × (r.client.transf_out_fd ≡ none)
transf_read_ends_early_example =
    transf_read_ends_early (λ n. []) true (λ n. got (7 ∷ [])) transforming ten_free-IsValid
      (omega arith) (omega arith)
