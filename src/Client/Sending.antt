-- ===== src/Client/Sending.antt =====
-- What the handlers send.
use http_proxy.Base.{
  ℕ, zero, suc, ◌≡◌, ◌⊎◌, ◌∙◌, refl, Bool, true, false, not, ◌&&◌, Option, some, [], ◌∷◌, Bytes,
  if◌then◌else◌, Bool-cases, inl, inr, arith,
}
use http_proxy.Buffer.{Buffer, can_read}
use http_proxy.Buffer.Invariant.{IsValid}
use http_proxy.Buffer.Refine.{contents, contents-nil}
use http_proxy.Selector.{op_noop}
use http_proxy.Client.{
  ClientState, no_origin, send_req, read_resp, cli_error, beyond, Client, op_read, set_interest,
  Written, Result, quiet, is_minus_one, is_res_finished, unregister_client,
}
use http_proxy.Client.Senders.{
  remote_failed, remote_wrote, client_gone, client_wrote, transf_gone, transf_wrote, send_from,
  remote_write_req, remote_write_in, remote_write, client_write_resp, client_write_in, client_write,
  transf_write,
}
use http_proxy.Client.Writing.{AtMost, Divided, send_from-SentFrom}

one_of {ℓ κ} :
    {A : Type ℓ} (P : A → Type κ) (b : Bool) {x y : A} → P x → P y → P (if b then x else y)
one_of P true p q = p
one_of P false p q = q

unchanged : {b : Buffer} → IsValid b → Divided b [] b
unchanged v = (v, refl)

-- Which buffer a handler sends from.
abbrev Outcome : (Client → Buffer) → Client → Option Result → (Result → Type 0) → Type 0
Outcome buf c o more = (r : Result) × (o ≡ some r) × Divided (buf c) r.sent (buf r.client) × more r

abbrev Request : Client → Result → Type 0
Request c r =
    (r.client.state ≡ c.state)
    ⊎ ((r.client.state ≡ read_resp)
        × (c.state ≡ send_req)
        × (c.request_complete ≡ true)
        × (contents c.post_req_parse_buf ≡ []))

abbrev post_req : Client → Buffer
post_req c = c.post_req_parse_buf

abbrev post_res : Client → Buffer
post_res c = c.post_res_parse_buf

abbrev pre_transf : Client → Buffer
pre_transf c = c.pre_transf_buf

module _ (c : Client) (write : ℕ → Written) (few : AtMost write) where
  request-Outcome :
      IsValid c.post_req_parse_buf
      → c.state ≡ send_req
      → Outcome post_req c (remote_write_req write c) (Request c)
  unfolding remote_write_req can_read
  request-Outcome v sending = elim (Bool-cases (can_read c.post_req_parse_buf)) [
    | inl some_bytes ↦
        let e : remote_write_req write c
            ≡ send_from c.post_req_parse_buf write (remote_failed c) (remote_wrote c) =
          rw (some_bytes, remote_write_req) refl in
        elim (send_from-SentFrom v (remote_failed c) (remote_wrote c) write few) [
          | inl failed ↦ (_, e ∙ failed, unchanged v, inl refl)
          | inr (n, sent, b', went, divided) ↦ (_, e ∙ went, divided, inl refl)
        ]
    | inr empty ↦ elim (Bool-cases c.request_complete) [
      | inl complete ↦
          let e : remote_write_req write c
              ≡ quiet (record c { state = read_resp }) (set_interest c.origin_fd op_read ∷ []) =
            rw (empty, remote_write_req, complete) refl in
          let nothing : contents c.post_req_parse_buf ≡ [] =
            contents-nil c.post_req_parse_buf (ground arith) in
          (_, e, unchanged v, inr (refl, sending, complete, nothing))
      | inr waiting ↦
          let e : remote_write_req write c ≡ quiet c (set_interest c.origin_fd op_noop ∷ []) =
            rw (empty, remote_write_req, waiting) refl in
          (_, e, unchanged v, inl refl)
    ]
  ]

  request-in_state :
      (st : ClientState)
      → c.state ≡ st
      → IsValid c.post_req_parse_buf
      → Outcome post_req c (remote_write_in st write c) (Request c)
  unfolding remote_write_in
  request-in_state send_req e v = request-Outcome v e
  request-in_state no_origin e v = (_, refl, unchanged v, inl refl)
  request-in_state read_resp e v = (_, refl, unchanged v, inl refl)
  request-in_state cli_error e v = (_, refl, unchanged v, inl refl)
  request-in_state (beyond n) e v = (_, refl, unchanged v, inl refl)

  -- For a valid buffer of the request and a `write` that writes no more than it is given,
  -- `remote_write` fails no assert, and what it writes, followed by what the buffer has then, is what
  -- the buffer had. The state changes at most from SEND_REQ to READ_RESP, when the flag
  -- `request_complete` is set and the buffer is empty.
  pub remote_write-Outcome :
      IsValid c.post_req_parse_buf
      → (r : Result) × (remote_write write c ≡ some r)
        × Divided c.post_req_parse_buf r.sent r.client.post_req_parse_buf
        × Request c r
  unfolding remote_write
  remote_write-Outcome v = request-in_state c.state refl v

  response-Outcome :
      IsValid c.post_res_parse_buf
      → Outcome post_res c (client_write_resp write c) (λ r. r.client.state ≡ c.state)
  unfolding client_write_resp can_read unregister_client
  response-Outcome v =
      let gone : Outcome post_res c (client_gone c) (λ r. r.client.state ≡ c.state) =
        (_, refl, unchanged v, refl) in
      let same : Outcome post_res c (quiet c []) (λ r. r.client.state ≡ c.state) =
        (_, refl, unchanged v, refl) in
      elim (Bool-cases (can_read c.post_res_parse_buf)) [
        | inl some_bytes ↦
            let e : client_write_resp write c
                ≡ send_from c.post_res_parse_buf write (client_gone c) (client_wrote c) =
              rw (some_bytes, client_write_resp) refl in
            elim (send_from-SentFrom v (client_gone c) (client_wrote c) write few) [
              | inl failed ↦ (_, e ∙ failed, unchanged v, refl)
              | inr (n, sent, b', went, divided) ↦ (_, e ∙ went, divided, refl)
            ]
        | inr empty ↦
            rw (empty, client_write_resp)
              (one_of (λ o. Outcome post_res c o (λ r. r.client.state ≡ c.state))
                (is_minus_one c.origin_fd && not c.should_transform) gone
                (one_of (λ o. Outcome post_res c o (λ r. r.client.state ≡ c.state))
                  (c.should_transform && is_minus_one c.transf_out_fd) gone same))
      ]

  response-in_state :
      (st : ClientState)
      → IsValid c.post_res_parse_buf
      → Outcome post_res c (client_write_in st write c) (λ r. r.client.state ≡ c.state)
  unfolding client_write_in
  response-in_state read_resp v = response-Outcome v
  response-in_state no_origin v = (_, refl, unchanged v, refl)
  response-in_state send_req v = (_, refl, unchanged v, refl)
  response-in_state cli_error v = (_, refl, unchanged v, refl)
  response-in_state (beyond n) v = (_, refl, unchanged v, refl)

  -- For a valid buffer of the response and a `write` that writes no more than it is given,
  -- `client_write` fails no assert, what it writes, followed by what the buffer has then, is what
  -- the buffer had, and the state of the client stays.
  pub client_write-Outcome :
      IsValid c.post_res_parse_buf
      → (r : Result) × (client_write write c ≡ some r)
        × Divided c.post_res_parse_buf r.sent r.client.post_res_parse_buf
        × (r.client.state ≡ c.state)
  unfolding client_write
  client_write-Outcome v = response-in_state c.state v

  wrote_some :
      (n : ℕ) (sent : Bytes) (b' : Buffer)
      → IsValid c.pre_transf_buf
      → Divided c.pre_transf_buf sent b'
      → Outcome pre_transf c (transf_wrote c n sent b') (λ r. r.client.state ≡ c.state)
  wrote_some zero sent b' v d = (_, refl, unchanged v, refl)
  wrote_some (suc n) sent b' v d = (_, refl, d, refl)

  -- For a valid buffer in front of the transformation and a `write` that writes no more than it is
  -- given, `transf_write` fails no assert, what it writes, followed by what the buffer has then, is
  -- what the buffer had, and the state of the client stays.
  pub transf_write-Outcome :
      IsValid c.pre_transf_buf
      → (r : Result) × (transf_write write c ≡ some r)
        × Divided c.pre_transf_buf r.sent r.client.pre_transf_buf
        × (r.client.state ≡ c.state)
  unfolding transf_write can_read
  transf_write-Outcome v =
      let gone : Outcome pre_transf c (transf_gone c) (λ r. r.client.state ≡ c.state) =
        (_, refl, unchanged v, refl) in
      let idle : Outcome pre_transf c (quiet c (set_interest c.transf_in_fd op_noop ∷ []))
          (λ r. r.client.state ≡ c.state) =
        (_, refl, unchanged v, refl) in
      elim (Bool-cases (can_read c.pre_transf_buf)) [
        | inl some_bytes ↦
            let e : transf_write write c
                ≡ send_from c.pre_transf_buf write (transf_gone c) (transf_wrote c) =
              rw (some_bytes, transf_write) refl in
            elim (send_from-SentFrom v (transf_gone c) (transf_wrote c) write few) [
              | inl failed ↦ (_, e ∙ failed, unchanged v, refl)
              | inr (n, sent, b', went, divided) ↦
                  let (r, is, d, same) = wrote_some n sent b' v divided in
                  (r, e ∙ went ∙ is, d, same)
            ]
        | inr empty ↦
            rw (empty, transf_write)
              (one_of (λ o. Outcome pre_transf c o (λ r. r.client.state ≡ c.state))
                (is_res_finished c.res_data.parser_state) gone idle)
      ]
