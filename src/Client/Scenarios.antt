-- ===== src/Client/Scenarios.antt =====
-- Clients that receive, and that end. The buffers have a reserved zone of eight bytes.
use http_proxy.Base.{
  ℕ, ◌≤◌, ◌≡◌, ◌≢◌, refl, true, false, some, [], ◌∷◌, ◌++◌, take, drop, arith, inl, inr, ap,
  length-take_le, subst, if◌then◌else◌, zeros, length, to_upper,
}
use http_proxy.Buffer.{Buffer, peek, read, write, write_reverse, is_reserved}
use http_proxy.ParserUtils.{read_and_write, write_prefix}
use http_proxy.ParserUtils.Formats.{match_format}
use http_proxy.RequestParser.StartLine.{extract_http_method}
use http_proxy.Buffer.Invariant.{IsValid}
use http_proxy.Buffer.Receive.{received}
use http_proxy.Buffer.Refine.{contents}
use http_proxy.Chunks.{ReadResult, got}
use http_proxy.RequestParser.{method, undefined, v_1_1}
use http_proxy.Client.{
  no_origin, send_req, read_resp, keepalive_host_no_match, Client, op_read, register,
  new_connection, Storage, pre_res_mem, wrote, Result, unregister_client_calls,
  client_terminate_calls,
}
use http_proxy.Client.Closing.{
  parsed, frees, closes, unregister_client_calls-closes, client_terminate_calls-frees_twice,
}
use http_proxy.Client.Creation.{Given, listen_read_handler, client_new}
use http_proxy.Client.Discarding.{client_read_discards}
use http_proxy.Client.Keeping.{resolves}
use http_proxy.Client.Life.{Lives, born, handled, client_writes, Lives-looks_up_once}
use http_proxy.Client.Origin.{exits}
use http_proxy.Client.Readers.{client_read, remote_read, parse_request}
use http_proxy.Client.Receiving.{BuffersValid, arrived, Comes, Reads, client_read-Forwarded}
use http_proxy.Client.Refusing.{remote_read_exits}
use http_proxy.Client.Senders.{client_write}
use http_proxy.Client.Stranded.{Mute, run, client_readable, remote_writable, client_read_strands}
use http_proxy.Client.Tests.{client, res_data, req_data}

abbrev roomy : Buffer
roomy = record { mem = zeros 20; inf_limit = 8; limit = 20; read = 8; write = 8 }

roomy-IsValid : IsValid roomy
roomy-IsValid = record {
  inf_le_write = omega arith;
  read_le_write = omega arith;
  read_home = inr refl;
  write_le_limit = omega arith;
  in_storage = omega arith;
}

abbrev roomy_client : Client
roomy_client = record (client no_origin) {
  pre_req_parse_buf = roomy;
  post_req_parse_buf = roomy;
  pre_res_parse_buf = roomy;
  post_res_parse_buf = roomy;
  res_data = record res_data { version = undefined };
}

abbrev beginning : Client
beginning = record roomy_client {
  req_data = record req_data { parser_state = method; version = undefined };
}

-- The parser has put `GE` back in front of the reserved zone's end, and has passed it on.
abbrev put_back : Client
put_back = record beginning {
  pre_req_parse_buf = record {
    mem = zeros 6 ++ b'G' ∷ b'E' ∷ b'G' ∷ b'E' ∷ zeros 10;
    inf_limit = 8;
    limit = 20;
    read = 6;
    write = 8;
  };
  post_req_parse_buf = record {
    mem = zeros 8 ++ b'G' ∷ b'E' ∷ zeros 10;
    inf_limit = 8;
    limit = 20;
    read = 8;
    write = 10;
  };
  req_data = record (beginning.req_data) { version = v_1_1 };
  request_complete = false;
}

beginning_put_back :
    parse_request 5 (record beginning { pre_req_parse_buf = received roomy (b'G' ∷ b'E' ∷ []) })
    ≡ some (put_back, [])
unfolding parse_request extract_http_method to_upper read_and_write read match_format peek
    write_prefix is_reserved write_reverse write
beginning_put_back = refl

put_back-BuffersValid : BuffersValid put_back
put_back-BuffersValid = (
  record {
    inf_le_write = omega arith;
    read_le_write = omega arith;
    read_home = inl (omega arith);
    write_le_limit = omega arith;
    in_storage = omega arith;
  },
  record {
    inf_le_write = omega arith;
    read_le_write = omega arith;
    read_home = inr refl;
    write_le_limit = omega arith;
    in_storage = omega arith;
  },
)

-- The first two bytes of a request arrive alone.
client_read_discards_example :
    (r : Result) × (client_read 5 (λ n. got (b'G' ∷ b'E' ∷ [])) beginning ≡ some r)
    × (contents r.client.pre_req_parse_buf ≡ [])
    × (contents r.client.post_req_parse_buf
        ≡ contents put_back.post_req_parse_buf
          ++ take 10 (drop 2 (contents put_back.pre_req_parse_buf)))
client_read_discards_example =
    client_read_discards 5 beginning put_back [] (λ n. got (b'G' ∷ b'E' ∷ [])) (b'G' ∷ b'E' ∷ [])
      (roomy-IsValid, roomy-IsValid) refl refl (omega arith) refl (omega arith) beginning_put_back
      refl put_back-BuffersValid (omega arith)

-- A `read` that gives two bytes, if it is asked for so many.
abbrev two_bytes : ℕ → ReadResult
two_bytes n = got (take n (b'h' ∷ b'i' ∷ []))

two_bytes-Reads : Reads two_bytes
two_bytes-Reads n ys e =
    subst (λ l. length l ≤ n) (ap arrived e) (length-take_le n (b'h' ∷ b'i' ∷ []))

client_read-Forwarded_example :
    Comes roomy_client (two_bytes 12) (client_read 5 two_bytes roomy_client)
client_read-Forwarded_example =
    client_read-Forwarded 5 roomy_client two_bytes (roomy-IsValid, roomy-IsValid) (refl, refl)
      two_bytes-Reads refl (omega arith)

abbrev sending : Client
sending = record roomy_client { state = send_req }

client_read_strands_example :
    (r : Result) × (client_read 6 two_bytes sending ≡ some r)
    × (r.client.state ≡ no_origin)
    × Mute (run 5 (client_readable two_bytes ∷ remote_writable (λ n. wrote n) ∷ []) r.client)
client_read_strands_example =
    client_read_strands 5 sending two_bytes
      (client_readable two_bytes ∷ remote_writable (λ n. wrote n) ∷ [])
      (roomy-IsValid, roomy-IsValid) (refl, refl) two_bytes-Reads
      ((two_bytes-Reads, λ n e. cc e), (tt, tt)) refl (omega arith)

remote_read_exits_example :
    remote_read 1 (λ n. got (b'S' ∷ b'S' ∷ b'H' ∷ [])) (record roomy_client { state = read_resp })
    ≡ some (exits 42)
unfolding to_upper
remote_read_exits_example =
    remote_read_exits 0 (record roomy_client { state = read_resp })
      (λ n. got (b'S' ∷ b'S' ∷ b'H' ∷ [])) b'S' (b'S' ∷ b'H' ∷ []) roomy-IsValid roomy-IsValid refl
      refl refl (omega arith) refl (omega arith) (omega arith) (refl, omega arith) (omega arith)
      (omega arith)

unregister_client_calls-closes_example :
    ((m : Storage) → frees m (unregister_client_calls roomy_client) ≡ (if parsed m then 1 else 0))
    × (closes 4 (unregister_client_calls roomy_client) ≡ 1)
    × (closes 5 (unregister_client_calls roomy_client) ≡ 2)
unregister_client_calls-closes_example =
    unregister_client_calls-closes roomy_client 4 5 refl refl refl refl (omega arith)

client_terminate_calls-frees_twice_example :
    frees pre_res_mem (client_terminate_calls roomy_client) ≡ 2
client_terminate_calls-frees_twice_example =
    client_terminate_calls-frees_twice pre_res_mem roomy_client refl

abbrev given : Given
given = record {
  junk = roomy_client;
  pre_req_mem = zeros 300;
  post_req_mem = zeros 300;
  pre_res_mem = zeros 300;
  post_res_mem = zeros 300;
  pre_transf_mem = zeros 300;
  buffers_size = 300;
  transf_in_fd = some 6;
  transf_out_fd = some 7;
}

abbrev newborn : Client
newborn = record (client_new given 4) { client_registered = true }

-- A new client that the selector asks to write, which it does not.
a_life : Lives newborn (new_connection ∷ register (some 4) op_read ∷ [])
unfolding listen_read_handler client_new client_write
a_life = handled (born given (some 4) true refl) (client_writes (λ n. wrote n) refl) refl refl

Lives-looks_up_once_example :
    (resolves (new_connection ∷ register (some 4) op_read ∷ []) ≤ 1)
    × (newborn.err ≢ keepalive_host_no_match)
Lives-looks_up_once_example = Lives-looks_up_once a_life
