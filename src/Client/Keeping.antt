-- ===== src/Client/Keeping.antt =====
-- What the handlers leave alone: the request parser, the host and the error.
use http_proxy.Base.{
  ℕ, zero, suc, ◌+◌, ◌≡◌, refl, Bool, Option, none, some, ◌>>=◌, List, [], ◌∷◌, ◌++◌, Bytes, arith,
  leb, Bool-cases, inl, inr, ◌-◌, ℤ, pos, negsuc,
}
use mathlib.Core.Option.{some-injective}
use http_proxy.Buffer.{Buffer, can_write, write_ptr}
use http_proxy.Buffer.Receive.{receive}
use http_proxy.ResponseParser.Machine.{check_response}
use http_proxy.Chunks.{ReadResult, read_error, got, write_empty_chunk, dump_chunk_from_fd}
use http_proxy.Client.{
  Client, Call, op_write, set_interest, unregister, register, add_transfered_bytes, new_connection,
  close_connection, close, free, resolve, connect, Written, Result, closing, drop_origin_calls,
  unregister_origin_calls, client_free_resources_calls, unregister_client, unregister_client_calls,
}
use http_proxy.Client.Origin.{returns, Connecting, client_block}
use http_proxy.Client.Readers.{
  remote_read_resp, remote_read_in, remote_read, parse_response, responded, respond, with_response,
  finish_response_calls, pass_response_calls, read_response, response_of,
}
use http_proxy.ResponseParser.{Response}
use http_proxy.Client.Senders.{
  remote_write_req, remote_write_in, remote_write, client_write_resp, client_write_in, client_write,
  transf_write, emptied, dumped, transf_read,
}

abbrev pub is_resolve : Call → ℕ
is_resolve resolve = 1
is_resolve (set_interest fd i) = 0
is_resolve (unregister fd) = 0
is_resolve (register fd i) = 0
is_resolve (add_transfered_bytes n) = 0
is_resolve new_connection = 0
is_resolve close_connection = 0
is_resolve (close fd) = 0
is_resolve (free m) = 0
is_resolve (connect fd) = 0

-- How often the host is looked up.
abbrev pub resolves : List Call → ℕ
resolves [] = 0
resolves (call ∷ calls) = is_resolve call + resolves calls

pub resolves-append : (xs ys : List Call) → resolves (xs ++ ys) ≡ resolves xs + resolves ys
resolves-append [] ys = omega arith
resolves-append (x ∷ xs) ys = omega (arith, resolves-append xs ys)

pub record Keeps (c : Client) (r : Result) : Type 0 where
  pub req_data : r.client.req_data ≡ c.req_data
  pub fqdn : r.client.host.fqdn ≡ c.host.fqdn
  pub err : r.client.err ≡ c.err
  pub no_resolve : resolves r.calls ≡ 0

resolves-closing : (fd : Option ℕ) → resolves (closing fd) ≡ 0
resolves-closing none = refl
resolves-closing (some fd) = refl

resolves-unregister_origin_calls : (c : Client) → resolves (unregister_origin_calls c) ≡ 0
resolves-unregister_origin_calls c = ground (arith, resolves-closing c.origin_fd)

resolves-drop_origin : (fd : Option ℕ) (c : Client) → resolves (drop_origin_calls fd c) ≡ 0
resolves-drop_origin none c = refl
resolves-drop_origin (some fd) c = omega (arith, resolves-unregister_origin_calls c)

resolves-client_free_resources_calls : (c : Client) → resolves (client_free_resources_calls c) ≡ 0
unfolding client_free_resources_calls
resolves-client_free_resources_calls c =
    simp (resolves-append, resolves-drop_origin, resolves-closing) (omega arith)

pub resolves-unregister_client_calls : (c : Client) → resolves (unregister_client_calls c) ≡ 0
unfolding unregister_client_calls
resolves-unregister_client_calls c = ground (arith, resolves-client_free_resources_calls c)

remote_write_req-Keeps :
    (write : ℕ → Written) (c : Client) (r : Result) → remote_write_req write c ≡ some r → Keeps c r
unfolding remote_write_req
remote_write_req-Keeps write c r e = ground (arith, resolves-unregister_origin_calls c)

client_write_resp-Keeps :
    (write : ℕ → Written) (c : Client) (r : Result) → client_write_resp write c ≡ some r → Keeps c r
unfolding client_write_resp unregister_client
client_write_resp-Keeps write c r e = ground (arith, resolves-unregister_client_calls c)

pub remote_write-Keeps :
    (write : ℕ → Written) (c : Client) (r : Result) → remote_write write c ≡ some r → Keeps c r
unfolding remote_write remote_write_in
remote_write-Keeps write c r e = ground (arith, remote_write_req-Keeps write c r)

pub client_write-Keeps :
    (write : ℕ → Written) (c : Client) (r : Result) → client_write write c ≡ some r → Keeps c r
unfolding client_write client_write_in
client_write-Keeps write c r e = ground (arith, client_write_resp-Keeps write c r)

pub client_block-Keeps :
    (socket : Option ℕ) (k : Connecting) (a b : Bool) (c : Client) (r : Result)
    → client_block socket k a b c ≡ returns r
    → Keeps c r
unfolding client_block unregister_client
client_block-Keeps socket k a b c r e = ground (arith, resolves-unregister_client_calls c)

pub transf_write-Keeps :
    (write : ℕ → Written) (c : Client) (r : Result) → transf_write write c ≡ some r → Keeps c r
unfolding transf_write
transf_write-Keeps write c r e = ground (arith, resolves-closing c.transf_in_fd)

emptied-Keeps : (c : Client) (t : ℤ × Buffer) (r : Result) → emptied c t ≡ some r → Keeps c r
emptied-Keeps c (pos zero, b) r e = ground arith
emptied-Keeps c (pos (suc n), b) r e = ground (arith, resolves-closing c.transf_out_fd)
emptied-Keeps c (negsuc n, b) r e = ground arith

ended-Keeps :
    (c : Client) (o : Option (ℤ × Buffer)) (r : Result) → (o >>= emptied c) ≡ some r → Keeps c r
ended-Keeps c none r e = absurd cc
ended-Keeps c (some t) r e = emptied-Keeps c t r e

dumped-Keeps :
    (c : Client) (o : Option (ℤ × Buffer)) (r : Result) → (o >>= dumped c) ≡ some r → Keeps c r
unfolding unregister_client
dumped-Keeps c none r e = absurd cc
dumped-Keeps c (some (negsuc n, b)) r e =
    ground (arith, resolves-unregister_client_calls (record c { post_res_parse_buf = b }))
dumped-Keeps c (some (pos zero, b)) r e = ended-Keeps c (write_empty_chunk b) r e
dumped-Keeps c (some (pos (suc n), b)) r e = ground arith

pub transf_read-Keeps :
    (print_hex : ℕ → Bytes) (allocated : Bool) (read : ℕ → ReadResult) (c : Client) (r : Result)
    → transf_read print_hex allocated read c ≡ some r
    → Keeps c r
unfolding transf_read
transf_read-Keeps print_hex allocated read c r e =
    ground
      (arith, dumped-Keeps c (dump_chunk_from_fd print_hex allocated read c.post_res_parse_buf) r)

responded-Keeps : (c : Client) (r : Result) → responded c ≡ returns r → Keeps c r
responded-Keeps c r e = ground (
  arith,
  resolves-unregister_origin_calls c,
  resolves-append (unregister_origin_calls c) (set_interest c.client_fd op_write ∷ []),
  resolves-append (finish_response_calls c) (pass_response_calls c),
)

parsed-Keeps :
    (c : Client) (o : Option (Bool × Response)) (r : Result)
    → respond (o >>= λ t. some (with_response c t)) ≡ some (returns r)
    → Keeps c r
parsed-Keeps c none r e = absurd cc
parsed-Keeps c (some t) r e =
    let k = responded-Keeps (with_response c t) r (some-injective _ _ e) in
    record { req_data = k.req_data; fqdn = k.fqdn; err = k.err; no_resolve = k.no_resolve }

got-Keeps :
    (fuel : ℕ) (c : Client) (o : Option Buffer) (r : Result)
    → respond (o >>= λ b. parse_response fuel (record c { pre_res_parse_buf = b }))
      ≡ some (returns r)
    → Keeps c r
unfolding parse_response
got-Keeps fuel c none r e = absurd cc
got-Keeps fuel c (some b) r e =
    let c' : Client = record c { pre_res_parse_buf = b } in
    let k = parsed-Keeps c' (check_response fuel (response_of c')) r e in
    record { req_data = k.req_data; fqdn = k.fqdn; err = k.err; no_resolve = k.no_resolve }

read_response-Keeps :
    (fuel : ℕ) (c : Client) (x : ReadResult) (r : Result)
    → read_response fuel c x ≡ some (returns r)
    → Keeps c r
read_response-Keeps fuel c read_error r e = ground (arith, resolves-unregister_origin_calls c)
read_response-Keeps fuel c (got []) r e = ground arith
read_response-Keeps fuel c (got (y ∷ ys)) r e =
    got-Keeps fuel c (receive c.pre_res_parse_buf (y ∷ ys)) r e

remote_read_resp-Keeps :
    (fuel : ℕ) (read : ℕ → ReadResult) (c : Client) (r : Result)
    → remote_read_resp fuel read c ≡ some (returns r)
    → Keeps c r
unfolding remote_read_resp write_ptr
remote_read_resp-Keeps fuel read c r e = elim (Bool-cases (can_write c.pre_res_parse_buf)) [
  | inl room ↦ elim (Bool-cases (leb c.pre_res_parse_buf.write c.pre_res_parse_buf.limit)) [
    | inl inside ↦
        read_response-Keeps fuel c (read (c.pre_res_parse_buf.limit - c.pre_res_parse_buf.write)) r
          (rw (room, inside) at e)
    | inr outside ↦ absurd (cc (rw (room, outside) at e))
  ]
  | inr full ↦ let e' = rw full at e in ground arith
]

pub remote_read-Keeps :
    (fuel : ℕ) (read : ℕ → ReadResult) (c : Client) (r : Result)
    → remote_read fuel read c ≡ some (returns r)
    → Keeps c r
unfolding remote_read remote_read_in
remote_read-Keeps fuel read c r e = ground (arith, remote_read_resp-Keeps fuel read c r)
