-- ===== src/Client/Receiving.antt =====
-- What `client_read` passes on when the parser has read the headers.
use http_proxy.Base.{
  ℕ, ◌-◌, ◌≤◌, ◌<◌, ◌≡◌, ◌∙◌, ◌≢◌, ◌⊎◌, refl, sym, ap, ap₂, Bool, true, false, ◌&&◌, Option, none,
  some, ◌>>=◌, List, [], ◌++◌, Bytes, leb, length, subst, arith, if◌then◌else◌, append-nil,
  Bool-cases, inl, inr,
}
use http_proxy.Buffer.{Buffer, can_read, can_write, write_ptr}
use http_proxy.Buffer.Invariant.{IsValid}
use http_proxy.Buffer.Receive.{Fits, receive, receive_lem}
use http_proxy.Buffer.Refine.{contents, contents-nil}
use http_proxy.Chunks.{ReadResult, read_error, got}
use http_proxy.ParserUtils.{Io}
use http_proxy.ParserUtils.Streams.{length-contents}
use http_proxy.RequestParser.{RequestParserState, RequestState, ok, v_1_1}
use http_proxy.RequestParser
use http_proxy.Client.{no_origin, Client, Result, Call, unregister_client, unregister_client_calls}
use http_proxy.Client.Draining.{Drained, drain_loop-Drained}
use http_proxy.Client.Readers.{
  is_finished, is_ok, after_calls, client_read_in, drain_loop, request_io, with_request_io, drain,
  parse_request, conclude, parse_unless_finished, uses_buffers, read_no_origin, read_into,
  stop_reading, client_read,
}

abbrev pub Finished : Client → Type 0
Finished c = (c.req_data.parser_state ≡ RequestParser.finished) × (c.req_data.state ≡ ok)

abbrev pub BuffersValid : Client → Type 0
BuffersValid c = IsValid c.pre_req_parse_buf × IsValid c.post_req_parse_buf

abbrev pub space : Buffer → ℕ
space b = b.limit - b.write

-- The buffers behind a call, when `xs` were to be passed on.
abbrev pub Forwarded : Client → Bytes → Io → Type 0
Forwarded c xs io =
    Drained io (c.pre_req_parse_buf.inf_limit - c.pre_req_parse_buf.read) xs
      (space c.post_req_parse_buf) (contents c.post_req_parse_buf)

pub drain-Forwarded :
    (c : Client)
    → BuffersValid c
    → (io : Io) × (drain c ≡ with_request_io c io) × Forwarded c (contents c.pre_req_parse_buf) io
unfolding drain
drain-Forwarded c v =
    let d = drain_loop-Drained (contents c.pre_req_parse_buf) {io = request_io c} (record {
      unread = record { valid = v.0; has = refl; reserved = refl; zone_is = refl };
      valid = v.1;
      has = refl;
      room_is = refl;
    }) in
    (
      _,
      refl,
      subst (λ n. Forwarded c (contents c.pre_req_parse_buf) (drain_loop n (request_io c)))
          (length-contents c.pre_req_parse_buf) d,
    )

-- `readAndWrite` with bytes that have just arrived.
pub drain-received :
    (c : Client) (ys : Bytes)
    → BuffersValid c
    → Fits ys c.pre_req_parse_buf
    → (b : Buffer) × (receive c.pre_req_parse_buf ys ≡ some b)
      × ((io : Io) × (drain (record c { pre_req_parse_buf = b }) ≡ with_request_io c io)
          × Forwarded c (contents c.pre_req_parse_buf ++ ys) io)
drain-received c ys v fits =
    let (b, e, vb, has, at, zone) = receive_lem v.0 ys fits in
    let (io, is, f) = drain-Forwarded (record c { pre_req_parse_buf = b }) (vb, v.1) in
    let gone = c.post_req_parse_buf in
    let f' =
      subst (λ xs. Drained io (b.inf_limit - b.read) xs (space gone) (contents gone)) has f in
    let r = c.pre_req_parse_buf in
    (
      b,
      e,
      (
        io,
        is,
        subst (λ k. Drained io k (contents r ++ ys) (space gone) (contents gone)) (ap₂ ◌-◌ zone at)
            f',
      ),
    )

-- What `read` answers is no more than it was asked for.
abbrev pub Reads : (ℕ → ReadResult) → Type 0
Reads read = (n : ℕ) (ys : Bytes) → read n ≡ got ys → length ys ≤ n

abbrev pub arrived : ReadResult → Bytes
arrived read_error = []
arrived (got ys) = ys

-- The client whose calls and whose fate a failed read leaves behind.
abbrev pub behind_read : ReadResult → Client → Client
behind_read read_error c = unregister_client c
behind_read (got ys) c = c

abbrev pub behind_read_calls : ReadResult → Client → List Call
behind_read_calls read_error c = unregister_client_calls c
behind_read_calls (got ys) c = []

finished_is : {s : RequestParserState} → s ≡ RequestParser.finished → is_finished s ≡ true
finished_is e = rw e refl

pub ok_is : {s : RequestState} → s ≡ ok → is_ok s ≡ true
ok_is e = rw e refl

pub chosen {ℓ} : {A : Type ℓ} {b : Bool} (x y : A) → b ≡ true → (if b then x else y) ≡ x
chosen x y e = rw e refl

pub not_chosen {ℓ} : {A : Type ℓ} {b : Bool} (x y : A) → b ≡ false → (if b then x else y) ≡ y
not_chosen x y e = rw e refl

-- The parser is done with its part, and everything behind it is passed on.
drains :
    (fuel : ℕ) (c : Client)
    → Finished c
    → (parse_unless_finished fuel c >>= conclude)
      ≡ some (record { client = drain c; sent = []; calls = [] })
drains fuel c done =
    ap (λ o. o >>= conclude) (chosen (some (c, [])) (parse_request fuel c) (finished_is done.0))
    ∙ chosen _ _ (ok_is done.1)

abbrev pub drained_result : ReadResult → Client → Io → Result
drained_result r c io = record {
  client = with_request_io (behind_read r c) io;
  sent = [];
  calls = behind_read_calls r c;
}

-- A read fails, the client is registered, and bytes stand unread in a buffer that is then freed.
abbrev pub Ruined : Client → ReadResult → Type 0
Ruined c r = (r ≡ read_error) × (c.client_registered ≡ true) × (contents c.pre_req_parse_buf ≢ [])

-- What the read of a client comes to: freed memory is used, or the bytes are passed on.
abbrev pub Comes : Client → ReadResult → Option Result → Type 0
Comes c r o =
    (Ruined c r × (o ≡ none))
    ⊎ ((¬ Ruined c r)
        × (io : Io) × (o ≡ some (drained_result r c io))
        × Forwarded c (contents c.pre_req_parse_buf ++ arrived r) io)

module _ (fuel : ℕ) (c : Client) (v : BuffersValid c) (done : Finished c) where
  -- For a finished parser without an error, only the loop uses the buffers.
  uses_buffers_lem : uses_buffers c ≡ can_read c.pre_req_parse_buf
  uses_buffers_lem = rw (done.0, done.1) refl

  kept-Forwarded :
      c.client_registered && uses_buffers c ≡ false
      → (io : Io) × (read_no_origin fuel c read_error ≡ some (drained_result read_error c io))
        × Forwarded c (contents c.pre_req_parse_buf ++ []) io
  unfolding unregister_client
  kept-Forwarded kept =
      let gone : Client = unregister_client c in
      let (io, is, f) = drain-Forwarded gone v in
      (
        io,
        rw kept (
            ap (after_calls (unregister_client_calls c)) (drains fuel gone done)
            ∙ ap₂ (λ d l. some (record { client = d; sent = []; calls = l })) is
                (append-nil (unregister_client_calls c))),
        subst (λ xs. Forwarded c xs io) (sym (append-nil (contents c.pre_req_parse_buf))) f,
      )

  read_no_origin-Comes :
      (r : ReadResult)
      → length (arrived r) ≤ space c.pre_req_parse_buf
      → Comes c r (read_no_origin fuel c r)
  unfolding can_read
  read_no_origin-Comes read_error few = elim (Bool-cases c.client_registered) [
    | inr out ↦
        let (io, is, f) = kept-Forwarded (rw out refl) in
        inr ((λ h. let r : c.client_registered ≡ true = h.1 in absurd (cc)), io, is, f)
    | inl registered ↦ elim (Bool-cases (can_read c.pre_req_parse_buf)) [
      | inl unread ↦ inl (
        (refl, registered, λ e. ground (arith, ap length e, length-contents c.pre_req_parse_buf)),
        rw (registered, uses_buffers_lem, unread) refl,
      )
      | inr nothing ↦
          let (io, is, f) = kept-Forwarded (rw (registered, uses_buffers_lem) nothing) in
          inr ((λ h. h.2 (contents-nil c.pre_req_parse_buf (ground arith))), io, is, f)
    ]
  ]
  read_no_origin-Comes (got ys) few =
      let (b, e, (io, is, f)) = drain-received c ys v few in
      inr (
        (λ h. absurd (cc (h.0))),
        io,
        ap
              (λ o. o >>= λ b.
                parse_unless_finished fuel (record c { pre_req_parse_buf = b }) >>= conclude)
              e
            ∙ drains fuel (record c { pre_req_parse_buf = b }) done
            ∙ ap (λ d. some (record { client = d; sent = []; calls = [] })) is,
        f,
      )

pub arrived-few :
    {read : ℕ → ReadResult}
    → Reads read
    → (n : ℕ) (r : ReadResult) → read n ≡ r
    → length (arrived r) ≤ n
arrived-few few n read_error e = omega arith
arrived-few few n (got ys) e = few n ys e

-- A handler that reads does so when there is room in the buffer.
pub read_into-read :
    {b : Buffer} (read : ℕ → ReadResult) (full : Option Result)
    (then_do : ReadResult → Option Result)
    → IsValid b
    → b.write < b.limit
    → read_into b read full then_do ≡ then_do (read (space b))
unfolding can_write write_ptr
read_into-read {b} read full then_do v room =
    let room_left : can_write b ≡ true = ground arith in
    let inside : leb b.write b.limit ≡ true = ground arith in rw (room_left, inside) refl

-- For a client in NO_ORIGIN whose request parser has finished without an error, with valid buffers and
-- room to read, and a `read` that gives no more than it is asked for: when the read fails, the client
-- is registered and bytes stand unread, `client_read` uses memory that it has freed. In all other cases
-- it passes on the unread bytes and those that arrive, up to the first 0, less the bytes that were
-- reserved and less all that the output has no room for, and forgets what it has not passed on; behind
-- the 0, the bytes stay. When the read fails, it takes the client out of the selector first.
pub client_read-Forwarded :
    (fuel : ℕ) (c : Client) (read : ℕ → ReadResult)
    → BuffersValid c
    → Finished c
    → Reads read
    → c.state ≡ no_origin
    → c.pre_req_parse_buf.write < c.pre_req_parse_buf.limit
    → Comes c (read (space c.pre_req_parse_buf)) (client_read fuel read c)
unfolding client_read
client_read-Forwarded fuel c read v done few st room =
    let n : ℕ = space c.pre_req_parse_buf in
    subst (Comes c (read n))
      (sym (
        ap (λ s. client_read_in s fuel read c) st
        ∙ read_into-read read (stop_reading c) (read_no_origin fuel c) v.0 room))
      (read_no_origin-Comes fuel c v done (read n) (arrived-few few n (read n) refl))
