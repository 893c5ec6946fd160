-- ===== src/Client/Stranded.antt =====
-- A client that sends more of its request while the proxy sends what it has to the origin.
use http_proxy.Base.{
  ℕ, suc, ◌≤◌, ◌<◌, ◌≡◌, ◌≢◌, ◌∙◌, refl, ap, ap₂, true, false, Option, none, some, ◌>>=◌, List, [],
  ◌∷◌, ◌++◌, Bytes, length, arith, Bool-cases, inl, inr,
}
use http_proxy.Buffer.{can_write}
use http_proxy.Buffer.Receive.{receive_lem}
use http_proxy.Chunks.{ReadResult, read_error, got}
use http_proxy.ParserUtils.{Io}
use http_proxy.RequestParser.{RequestData, ok, v_1_1, Request}
use http_proxy.RequestParser
use http_proxy.RequestParser.Machine.{round_in, loop, ended, first_run, check_request}
use http_proxy.RequestParser.Progress.{loop_goes, loop_stopped}
use http_proxy.Selector.{op_noop}
use http_proxy.Client.{
  no_origin, send_req, Client, Call, op_write, set_interest, Written, Result, unregister_client,
}
use http_proxy.Client.Origin.{Handled, returns, exits}
use http_proxy.Client.Readers.{
  request_io, with_request_io, parse_request, pass_request, state_of, read_send_req, stop_reading,
  client_read_in, client_read, remote_read_in, remote_read, checked, call_back,
}
use http_proxy.Client.Receiving.{
  BuffersValid, Finished, Forwarded, Reads, arrived, space, drain-Forwarded, arrived-few,
  client_read-Forwarded, read_into-read, behind_read, drained_result,
}
use http_proxy.Client.Senders.{client_write_in, remote_write_in, remote_write, client_write}

-- The selector finds a descriptor ready.
pub data Event : Type 0 where
  client_readable : (ℕ → ReadResult) → Event
  client_writable : (ℕ → Written) → Event
  remote_readable : (ℕ → ReadResult) → Event
  remote_writable : (ℕ → Written) → Event

abbrev returned : Option Result → Option Handled
returned none = none
returned (some r) = some (returns r)

unfoldable pub handle : ℕ → Client → Event → Option Handled
unfolding client_read client_write remote_read remote_write
handle fuel c (client_readable read) = returned (client_read fuel read c)
handle fuel c (client_writable write) = returned (client_write write c)
handle fuel c (remote_readable read) = remote_read fuel read c
handle fuel c (remote_writable write) = returned (remote_write write c)

abbrev also_sent : Bytes → Option (Client × Bytes) → Option (Client × Bytes)
also_sent ys none = none
also_sent ys (some (c, zs)) = some (c, ys ++ zs)

-- Some events in a row, with all that is sent to the client or to the origin.
unfoldable pub run : ℕ → List Event → Client → Option (Client × Bytes)
unfolding handle
run fuel [] c = some (c, [])
run fuel (e ∷ es) c = elim (handle fuel c e) [
  | none ↦ none
  | some (exits n) ↦ none
  | some (returns r) ↦ also_sent r.sent (run fuel es r.client)
]

-- A `read` from the client gives no more than it is asked for, and does not fail.
abbrev pub IsFair : Event → Type 0
IsFair (client_readable read) = Reads read × ((n : ℕ) → read n ≢ read_error)
IsFair _ = Unit

abbrev pub AllFair : List Event → Type 0
AllFair [] = Unit
AllFair (e ∷ es) = IsFair e × AllFair es

-- The request has been parsed, but the state says that there is no origin.
pub record IsStranded (c : Client) : Type 0 where
  pub nowhere : c.state ≡ no_origin
  pub finished : Finished c
  pub valid : BuffersValid c

abbrev pub Silent : Option Handled → Type 0
Silent o = (r : Result) × (o ≡ some (returns r)) × (r.sent ≡ []) × IsStranded r.client

behind-IsStranded : {c : Client} (r : ReadResult) → IsStranded c → IsStranded (behind_read r c)
unfolding unregister_client
behind-IsStranded read_error s = record {
  nowhere = s.nowhere;
  finished = s.finished;
  valid = s.valid;
}
behind-IsStranded (got ys) s = s

with_io-IsStranded :
    {c : Client} {xs : Bytes} (d : Client) {io : Io}
    → IsStranded c
    → Forwarded d xs io
    → IsStranded (with_request_io c io)
with_io-IsStranded d s f = record {
  nowhere = s.nowhere;
  finished = s.finished;
  valid = (f.inp_valid, f.out_valid);
}

module _ (fuel : ℕ) (c : Client) (s : IsStranded c) where
  reading-Silent :
      (read : ℕ → ReadResult)
      → IsFair (client_readable read)
      → Silent (returned (client_read fuel read c))
  unfolding client_read can_write
  reading-Silent read fair = elim (Bool-cases (can_write c.pre_req_parse_buf)) [
    | inl room ↦
        elim (client_read-Forwarded fuel c read s.valid s.finished fair.0 s.nowhere
          (ground arith)) [
            | inl (ruined, _) ↦ absurd (fair.1 (space c.pre_req_parse_buf) ruined.0)
            | inr (_, io, is, f) ↦ (
              drained_result (read (space c.pre_req_parse_buf)) c io,
              ap returned is,
              refl,
              with_io-IsStranded c (behind-IsStranded (read (space c.pre_req_parse_buf)) s) f,
            )
          ]
    | inr full ↦ (
      record { client = c; sent = []; calls = set_interest c.client_fd op_noop ∷ [] },
      ap (λ st. returned (client_read_in st fuel read c)) s.nowhere ∙ rw full refl,
      refl,
      s,
    )
  ]

  abbrev still : Result
  still = record { client = c; sent = []; calls = [] }

  handle-Silent : (e : Event) → IsFair e → Silent (handle fuel c e)
  unfolding handle client_write remote_read remote_write
  handle-Silent (client_readable read) few = reading-Silent read few
  handle-Silent (client_writable write) few =
      (still, ap (λ st. returned (client_write_in st write c)) s.nowhere, refl, s)
  handle-Silent (remote_readable read) few =
      (still, ap (λ st. remote_read_in st fuel read c) s.nowhere, refl, s)
  handle-Silent (remote_writable write) few =
      (still, ap (λ st. returned (remote_write_in st write c)) s.nowhere, refl, s)

abbrev pub Mute : Option (Client × Bytes) → Type 0
Mute o = (c : Client) × (o ≡ some (c, [])) × (c.state ≡ no_origin)

abbrev continue_run : ℕ → List Event → Option Handled → Option (Client × Bytes)
continue_run fuel es o = elim o [
  | none ↦ none
  | some (exits n) ↦ none
  | some (returns r) ↦ also_sent r.sent (run fuel es r.client)
]

run-Mute :
    (fuel : ℕ) (es : List Event) (c : Client) → AllFair es → IsStranded c → Mute (run fuel es c)
unfolding run
run-Mute fuel [] c fair s = (c, refl, s.nowhere)
run-Mute fuel (e ∷ es) c fair s =
    let (r, is, none_sent, s') = handle-Silent fuel c s e fair.0 in
    let (c', is', nowhere) = run-Mute fuel es r.client fair.1 s' in
    (
      c',
      ap (continue_run fuel es) is
          ∙ ap (also_sent r.sent) is'
          ∙ ap (λ ys. some (c', ys ++ [])) none_sent,
      nowhere,
    )

-- `checkRequest`, when it has finished before.
abbrev pub completed : Client → Client
completed c = record c {
  req_data = record (c.req_data) { version = v_1_1 };
  request_complete = true;
}

loop_finished :
    (fuel : ℕ) (q : Request)
    → q.rd.parser_state ≡ RequestParser.finished
    → loop (suc fuel) (first_run q) ≡ some (record (first_run q) { active = false })
unfolding round_in
loop_finished fuel q e =
    loop_goes fuel (first_run q) refl
    ∙ ap (λ s. loop fuel (round_in s (first_run q))) e
    ∙ loop_stopped fuel (record (first_run q) { active = false }) refl

pub parse_request-completed :
    (fuel : ℕ) (c : Client)
    → c.req_data.parser_state ≡ RequestParser.finished
    → parse_request (suc fuel) c ≡ some (completed c, [])
unfolding parse_request check_request call_back
parse_request-completed fuel c done =
    ap (λ o. ended o >>= checked c)
      (loop_finished fuel (record { rd = c.req_data; io = request_io c }) done)

abbrev Strands : Option Result → Type 0
Strands o = (r : Result) × (o ≡ some r) × IsStranded r.client

passes_on :
    (fuel : ℕ) (c : Client)
    → BuffersValid c
    → Finished c
    → Strands (parse_request (suc fuel) c >>= pass_request)
passes_on fuel c v done =
    let (io, is, f) = drain-Forwarded (completed c) v in
    let to_origin : List Call = set_interest c.origin_fd op_write ∷ [] in
    (
      record {
        client = record (with_request_io (completed c) io) { state = no_origin };
        sent = [];
        calls = to_origin;
      },
      ap (λ o. o >>= pass_request) (parse_request-completed fuel c done.0)
          ∙ ap₂
              (λ d s.
                some (record { client = record d { state = s }; sent = []; calls = to_origin }))
              is (ap state_of done.1),
      record { nowhere = refl; finished = done; valid = (f.inp_valid, f.out_valid) },
    )

read_send_req-Strands :
    (fuel : ℕ) (c : Client)
    → BuffersValid c
    → Finished c
    → (r : ReadResult) → length (arrived r) ≤ space c.pre_req_parse_buf
    → Strands (read_send_req (suc fuel) c r)
read_send_req-Strands fuel c v done read_error few = passes_on fuel c v done
read_send_req-Strands fuel c v done (got ys) few =
    let (b, e, vb, has, at, zone) = receive_lem v.0 ys few in
    let (r, is, s) = passes_on fuel (record c { pre_req_parse_buf = b }) (vb, v.1) done in
    (
      r,
      ap
            (λ o. o >>= λ b.
              parse_request (suc fuel) (record c { pre_req_parse_buf = b }) >>= pass_request)
            e
          ∙ is,
      s,
    )

-- For a client in SEND_REQ whose request parser has finished without an error, with valid buffers and room
-- to read: a `client_read` puts it in NO_ORIGIN, whatever `read` gives it, and behind that no call of
-- `client_read`, `client_write`, `remote_read` and `remote_write`, in any order, sends a byte to the
-- origin or to the client, or takes it out of NO_ORIGIN, though each of them returns. A `read` gives no
-- more than it is asked for, and those of the later calls of `client_read` do not fail.
pub client_read_strands :
    (fuel : ℕ) (c : Client) (read : ℕ → ReadResult) (es : List Event)
    → BuffersValid c
    → Finished c
    → Reads read
    → AllFair es
    → c.state ≡ send_req
    → c.pre_req_parse_buf.write < c.pre_req_parse_buf.limit
    → (r : Result) × (client_read (suc fuel) read c ≡ some r)
      × (r.client.state ≡ no_origin)
      × Mute (run fuel es r.client)
unfolding client_read
client_read_strands fuel c read es v done few fair st room =
    let n : ℕ = space c.pre_req_parse_buf in
    let (r, is, s) =
      read_send_req-Strands fuel c v done (read n) (arrived-few few n (read n) refl) in
    (
      r,
      ap (λ s. client_read_in s (suc fuel) read c) st
          ∙ read_into-read read (stop_reading c) (read_send_req (suc fuel) c) v.0 room
          ∙ is,
      s.nowhere,
      run-Mute fuel es r.client fair s,
    )
