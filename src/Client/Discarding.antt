-- ===== src/Client/Discarding.antt =====
-- What `client_read` does with the word that the request parser has put back.
use http_proxy.Base.{
  ℕ, suc, ◌-◌, ◌<◌, ◌≡◌, ◌∙◌, refl, ap, false, some, ◌>>=◌, List, [], ◌∷◌, ◌++◌, Bytes, ◌==◌,
  length, take, drop, arith,
}
use http_proxy.Buffer.{Buffer}
use http_proxy.Buffer.Receive.{Fits, receive, received, receive-received}
use http_proxy.Buffer.Refine.{contents}
use http_proxy.Chunks.{ReadResult, got}
use http_proxy.ParserUtils.Matching.{NonZero}
use http_proxy.RequestParser.{ok}
use http_proxy.Client.{no_origin, Client, Call, Result}
use http_proxy.Client.Draining.{until_zero}
use http_proxy.Client.Readers.{
  is_finished, with_request_io, parse_request, parse_unless_finished, conclude, read_no_origin,
  stop_reading, client_read_in, client_read,
}
use http_proxy.Client.Receiving.{
  BuffersValid, space, drain-Forwarded, read_into-read, chosen, not_chosen, ok_is,
}

until_zero-NonZero : (xs : Bytes) → NonZero xs → until_zero xs ≡ xs
until_zero-NonZero [] h = refl
until_zero-NonZero (x ∷ xs) h =
    let more : (x == 0) ≡ false = ground arith in rw more (ap (◌∷◌ x) (until_zero-NonZero xs h.1))

drop_behind : (xs : Bytes) → drop (suc (length xs)) xs ≡ []
drop_behind [] = refl
drop_behind (x ∷ xs) = drop_behind xs

-- For a client in NO_ORIGIN with valid buffers and room to read, `read` gives `ys`, and the request parser,
-- which had not finished, leaves the client `c'`, without an error and with valid buffers. Then
-- `client_read` discards all that stands unread in `c'`, no byte of which is 0, also what the parser has
-- put back for its next call: those of these bytes that are reserved are passed on to nobody, and the
-- others as far as there is room.
pub client_read_discards :
    (fuel : ℕ) (c c' : Client) (calls : List Call) (read : ℕ → ReadResult) (ys : Bytes)
    → BuffersValid c
    → c.state ≡ no_origin
    → is_finished c.req_data.parser_state ≡ false
    → c.pre_req_parse_buf.write < c.pre_req_parse_buf.limit
    → read (space c.pre_req_parse_buf) ≡ got ys
    → Fits ys c.pre_req_parse_buf
    → parse_request fuel (record c { pre_req_parse_buf = received c.pre_req_parse_buf ys })
      ≡ some (c', calls)
    → c'.req_data.state ≡ ok
    → BuffersValid c'
    → NonZero (contents c'.pre_req_parse_buf)
    → (r : Result) × (client_read fuel read c ≡ some r)
      × (contents r.client.pre_req_parse_buf ≡ [])
      × (contents r.client.post_req_parse_buf
          ≡ contents c'.post_req_parse_buf
            ++ take (space c'.post_req_parse_buf) (
                drop
                  (c'.pre_req_parse_buf.inf_limit - c'.pre_req_parse_buf.read)
                  (contents c'.pre_req_parse_buf)))
unfolding client_read
client_read_discards fuel c c' calls read ys v st going room is fits parsed fine v' nz =
    let b : Buffer = c.pre_req_parse_buf in
    let there : receive b ys ≡ some (received b ys) = receive-received v.0 ys fits in
    let c1 : Client = record c { pre_req_parse_buf = received b ys } in
    let (io, drained, f) = drain-Forwarded c' v' in
    let all = until_zero-NonZero (contents c'.pre_req_parse_buf) nz in
    (
      record { client = with_request_io c' io; sent = []; calls = calls },
      ap (λ s. client_read_in s fuel read c) st
          ∙ read_into-read read (stop_reading c) (read_no_origin fuel c) v.0 room
          ∙ ap (read_no_origin fuel c) is
          ∙ ap
              (λ o. o >>= λ b.
                parse_unless_finished fuel (record c { pre_req_parse_buf = b }) >>= conclude)
              there
          ∙ ap (λ o. o >>= conclude)
              (not_chosen (some (c1, [])) (parse_request fuel c1) going ∙ parsed)
          ∙ chosen _ _ (ok_is fine)
          ∙ ap (λ d. some (record { client = d; sent = []; calls = calls })) drained,
      f.left
          ∙ ap (λ xs. drop (suc (length xs)) (contents c'.pre_req_parse_buf)) all
          ∙ drop_behind (contents c'.pre_req_parse_buf),
      f.passed
          ∙ ap
              (λ xs.
                contents c'.post_req_parse_buf
                ++ take (space c'.post_req_parse_buf)
                    (drop (c'.pre_req_parse_buf.inf_limit - c'.pre_req_parse_buf.read) xs))
              all,
    )
