-- ===== src/Client/Senders.antt =====
-- remote_handlers.c, client_handlers.c and transformation_handlers.c: the handlers that send, to the
-- origin, to the client and to a transformation.
use http_proxy.Base.{
  ℕ, zero, suc, Bool, not, ◌&&◌, Option, none, some, ◌>>=◌, [], ◌∷◌, Bytes, if◌then◌else◌, ℤ, pos,
  negsuc, stretch,
}
use http_proxy.Buffer.{Buffer, can_read, can_write, read_ptr, read_adv}
use http_proxy.Chunks.{ReadResult, write_empty_chunk, dump_chunk_from_fd}
use http_proxy.Selector.{op_noop}
use http_proxy.Client.{
  ClientState, no_origin, send_req, read_resp, cli_error, beyond, Client, op_read, op_write,
  set_interest, unregister, add_transfered_bytes, Written, write_error, wrote, Result, quiet,
  is_minus_one, closing, unregister_origin, unregister_origin_calls, unregister_client,
  unregister_client_calls, is_res_finished,
}

-- `buffer_read_ptr`, `write(2)` and, if it wrote, `buffer_read_adv`: what the error leads to, and what
-- the written bytes do. `none` is a failed assert.
abbrev pub send_from :
    Buffer → (ℕ → Written) → Option Result → (ℕ → Bytes → Buffer → Option Result) → Option Result
send_from b write on_error on_written = elim (read_ptr b) [
  | none ↦ none
  | some (at, size) ↦ elim (write size) [
    | write_error ↦ on_error
    | wrote n ↦ elim (read_adv b (pos n)) [
      | none ↦ none
      | some b' ↦ on_written n (stretch b.mem at n) b'
    ]
  ]
]

abbrev pub remote_failed : Client → Option Result
remote_failed c =
    quiet (unregister_origin c) (set_interest c.client_fd op_write ∷ unregister_origin_calls c)

abbrev pub remote_wrote : Client → ℕ → Bytes → Buffer → Option Result
remote_wrote c n sent b = some (record {
  client = record c { post_req_parse_buf = b };
  sent = sent;
  calls = add_transfered_bytes n ∷ set_interest c.client_fd op_read ∷ [];
})

unfoldable pub remote_write_req : (ℕ → Written) → Client → Option Result
unfolding can_read read_ptr read_adv
remote_write_req write c =
    if can_read c.post_req_parse_buf
    then send_from c.post_req_parse_buf write (remote_failed c) (remote_wrote c)
    else if c.request_complete
    then quiet (record c { state = read_resp }) (set_interest c.origin_fd op_read ∷ [])
    else quiet c (set_interest c.origin_fd op_noop ∷ [])

unfoldable pub remote_write_in : ClientState → (ℕ → Written) → Client → Option Result
unfolding remote_write_req
remote_write_in send_req write c = remote_write_req write c
remote_write_in no_origin write c = quiet c []
remote_write_in read_resp write c = quiet c []
remote_write_in cli_error write c = quiet c []
remote_write_in (beyond n) write c = quiet c []

unfoldable pub remote_write : (ℕ → Written) → Client → Option Result
unfolding remote_write_in
remote_write write c = remote_write_in c.state write c

abbrev pub client_gone : Client → Option Result
client_gone c = quiet (unregister_client c) (unregister_client_calls c)

abbrev pub client_wrote : Client → ℕ → Bytes → Buffer → Option Result
client_wrote c n sent b =
    let source = if c.should_transform then c.transf_out_fd else c.origin_fd in
    some (record {
      client = record c { post_res_parse_buf = b };
      sent = sent;
      calls = add_transfered_bytes n ∷ set_interest source op_read ∷ [];
    })

unfoldable pub client_write_resp : (ℕ → Written) → Client → Option Result
unfolding can_read read_ptr read_adv
client_write_resp write c =
    if can_read c.post_res_parse_buf
    then send_from c.post_res_parse_buf write (client_gone c) (client_wrote c)
    else if is_minus_one c.origin_fd && not c.should_transform
    then client_gone c
    else if c.should_transform && is_minus_one c.transf_out_fd
    then client_gone c
    else quiet c []

unfoldable pub client_write_in : ClientState → (ℕ → Written) → Client → Option Result
unfolding client_write_resp
client_write_in read_resp write c = client_write_resp write c
client_write_in no_origin write c = quiet c []
client_write_in send_req write c = quiet c []
client_write_in cli_error write c = quiet c []
client_write_in (beyond n) write c = quiet c []

unfoldable pub client_write : (ℕ → Written) → Client → Option Result
unfolding client_write_in
client_write write c = client_write_in c.state write c

-- `transf_close` for the descriptor that the transformation reads from.
abbrev pub transf_in_close : Client → Client
transf_in_close c = record c { transf_in_fd = none }

abbrev pub transf_gone : Client → Option Result
transf_gone c = quiet (transf_in_close c) (unregister c.transf_in_fd ∷ closing c.transf_in_fd)

abbrev pub transf_wrote : Client → ℕ → Bytes → Buffer → Option Result
transf_wrote c zero sent b = transf_gone c
transf_wrote c (suc n) sent b =
    some (record { client = record c { pre_transf_buf = b }; sent = sent; calls = [] })

unfoldable pub transf_write : (ℕ → Written) → Client → Option Result
unfolding can_read read_ptr read_adv
transf_write write c =
    if can_read c.pre_transf_buf
    then send_from c.pre_transf_buf write (transf_gone c) (transf_wrote c)
    else if is_res_finished c.res_data.parser_state
    then transf_gone c
    else quiet c (set_interest c.transf_in_fd op_noop ∷ [])

abbrev pub transf_out_close : Client → Client
transf_out_close c = record c { transf_out_fd = none }

-- Behind `write_empty_chunk`.
abbrev pub emptied : Client → ℤ × Buffer → Option Result
emptied c (pos (suc n), b) =
    quiet (transf_out_close (record c { post_res_parse_buf = b }))
      (unregister c.transf_out_fd ∷ closing c.transf_out_fd)
emptied c (_, b) = quiet (record c { post_res_parse_buf = b }) []

-- Behind `dump_chunk_from_fd`.
abbrev pub dumped : Client → ℤ × Buffer → Option Result
dumped c (negsuc n, b) = client_gone (record c { post_res_parse_buf = b })
dumped c (pos zero, b) = write_empty_chunk b >>= emptied c
dumped c (pos (suc n), b) = quiet (record c { post_res_parse_buf = b }) []

-- The arguments are those of `dump_chunk_from_fd`.
unfoldable pub transf_read : (ℕ → Bytes) → Bool → (ℕ → ReadResult) → Client → Option Result
unfolding can_write dump_chunk_from_fd write_empty_chunk
transf_read print_hex allocated read c =
    if can_write c.post_res_parse_buf
    then dump_chunk_from_fd print_hex allocated read c.post_res_parse_buf >>= dumped c
    else quiet c (set_interest c.transf_out_fd op_noop ∷ [])
