-- ===== src/Client/Refusing.antt =====
-- An origin that answers with something else than HTTP.
use http_proxy.Base.{
  ℕ, zero, suc, ◌+◌, ◌-◌, ◌≤◌, ◌<◌, ◌≡◌, ◌∙◌, refl, sym, ap, Bool, true, false, not, ◌&&◌, Option,
  none, some, ◌>>=◌, [], ◌∷◌, ◌++◌, Bytes, if◌then◌else◌, length, subst, leb, arith,
}
use http_proxy.Buffer.{Buffer, can_write, write_ptr}
use http_proxy.Buffer.Invariant.{IsValid}
use http_proxy.Buffer.Receive.{
  Fits, received, receive-received, received-IsValid, contents-received,
}
use http_proxy.Buffer.Refine.{contents}
use http_proxy.Chunks.{ReadResult, got}
use http_proxy.ParserUtils.{Io}
use http_proxy.ParserUtils.Formats.{match_format}
use http_proxy.ParserUtils.Matching.{NonZero, matched, gives_out, match_format-Read}
use http_proxy.ParserUtils.Streams.{At}
use http_proxy.RequestParser.{undefined}
use http_proxy.RequestParser.StartLine.{http_1}
use http_proxy.ResponseParser.{res_version, status, ResponseData, Response, with_io}
use http_proxy.ResponseParser.Headers.{extract_http_version}
use http_proxy.ResponseParser.Machine.{
  Run, round_in, round, loop, first_run, goes, fails, spaces_before, with_error, error_of, ended,
  check_response,
}
use http_proxy.Client.{read_resp, Client}
use http_proxy.Client.Receiving.{chosen, not_chosen}
use http_proxy.Client.Origin.{Handled, exits}
use http_proxy.Client.Readers.{
  is_res_ok, response_of, with_response, parse_response, respond, read_response, remote_read_resp,
  remote_read_in, remote_read,
}

-- Enough bytes of `xs` are known to say that they do not begin with `HTTP/1.`.
abbrev pub IsNotHttp : Bytes → Type 0
IsNotHttp xs = (gives_out http_1 xs ≡ false) × (matched http_1 xs < length http_1)

extract_http_version-refuses :
    (q : Response)
    → q.rd.version ≡ undefined
    → (match_format http_1 [] q.io).0 ≡ false
    → (match_format http_1 [] q.io).1.empty ≡ false
    → extract_http_version q ≡ (false, with_io q (match_format http_1 [] q.io).1)
unfolding extract_http_version
extract_http_version-refuses q u no_match more = ground arith

loop_ended : (fuel : ℕ) (r : Run) → r.success ≡ false → loop fuel r ≡ some r
unfolding loop
loop_ended zero r h = ground arith
loop_ended (suc fuel) r h = ground arith

loop_once :
    (fuel : ℕ) (r r' : Run)
    → r.success && r.active ≡ true
    → round r ≡ r'
    → r'.success ≡ false
    → loop (suc fuel) r ≡ some r'
unfolding loop
loop_once fuel r r' going e f =
    chosen (loop fuel (round r)) (some r) going ∙ ap (loop fuel) e ∙ loop_ended fuel r' f

-- The answer is refused, and the error is reported.
abbrev Refused : Option (Bool × Response) → Type 0
Refused o = (ok : Bool) × (q : Response) × (o ≡ some (ok, q)) × (is_res_ok q.rd.state ≡ false)

module _ (fuel : ℕ) (rd : ResponseData) (inp out transf : Buffer) where
  abbrev asked : Response
  asked = record { rd = rd; io = record { inp = inp; out = out; empty = false }; transf = transf }

  abbrev seen : Bool × Io
  seen = match_format http_1 [] asked.io

  check_response-Refused :
      rd.parser_state ≡ res_version
      → rd.version ≡ undefined
      → seen.0 ≡ false
      → seen.1.empty ≡ false
      → Refused (check_response (suc fuel) asked)
  unfolding check_response round_in error_of
  check_response-Refused st u no_match more =
      let r1 : Run = fails (first_run asked) (with_io asked seen.1) in
      let stepped : round (first_run asked) ≡ r1 =
        ap (λ s. round_in s (first_run asked)) st
        ∙ ap
            (λ (t : Bool × Response).
              if t.0
              then goes (first_run asked) (spaces_before status t.1)
              else fails (first_run asked) t.1)
            (extract_http_version-refuses asked u no_match more) in
      (
        false,
        with_error (with_io asked seen.1),
        ap ended (loop_once fuel (first_run asked) r1 refl stepped refl)
            ∙ ap (λ q. some (false, q))
                (chosen (with_error (with_io asked seen.1)) (with_io asked seen.1)
                  (ap (λ b. not false && not b) more)),
        ap (λ s. is_res_ok (error_of s rd.is_chunked rd.state)) st,
      )

seen_other :
    (inp out : Buffer)
    → IsValid inp
    → IsValid out
    → NonZero (contents inp)
    → IsNotHttp (contents inp)
    → 7 ≤ inp.inf_limit
    → 7 ≤ out.limit - out.write
    → ((match_format http_1 [] (record { inp = inp; out = out; empty = false })).0 ≡ false)
      × ((match_format http_1 [] (record { inp = inp; out = out; empty = false })).1.empty ≡ false)
seen_other inp out vi vo nz other zone room =
    let a : At (record { inp = inp; out = out; empty = false }) inp.inf_limit
        (inp.inf_limit - inp.read) (contents inp) (length http_1 + 0) (contents out) =
      record {
        unread = record { valid = vi; has = refl; reserved = refl; zone_is = refl };
        sent = record { valid = vo; has = refl; room_for = omega arith };
      } in
    let m =
      (match_format-Read http_1 [] {room = 0} (inp.inf_limit - inp.read) (contents inp)
        (contents out) (omega arith) nz (omega arith) a).0 in
    (m.ok ∙ ground (arith, other.1), m.empty ∙ other.0)

answered :
    (c : Client) (o : Option (Bool × Response))
    → Refused o
    → respond (o >>= λ r. some (with_response c r)) ≡ some (exits 42)
answered c o (ok, q, is, wrong) =
    ap (λ o. respond (o >>= λ r. some (with_response c r))) is ∙ ap some (not_chosen _ _ wrong)

-- A client in READ_RESP whose response parser has read nothing, with valid buffers and room to read: the
-- origin sends bytes of which it can be told that they do not begin with `HTTP/1.`. Then `remote_read`
-- ends the program, whatever clients there are. No byte is 0, and the reserved zone and the output have
-- room for the seven bytes.
pub remote_read_exits :
    (fuel : ℕ) (c : Client) (read : ℕ → ReadResult) (y : ℕ) (ys : Bytes)
    → IsValid c.pre_res_parse_buf
    → IsValid c.post_res_parse_buf
    → c.state ≡ read_resp
    → c.res_data.parser_state ≡ res_version
    → c.res_data.version ≡ undefined
    → c.pre_res_parse_buf.write < c.pre_res_parse_buf.limit
    → read (c.pre_res_parse_buf.limit - c.pre_res_parse_buf.write) ≡ got (y ∷ ys)
    → Fits (y ∷ ys) c.pre_res_parse_buf
    → NonZero (contents c.pre_res_parse_buf ++ y ∷ ys)
    → IsNotHttp (contents c.pre_res_parse_buf ++ y ∷ ys)
    → 7 ≤ c.pre_res_parse_buf.inf_limit
    → 7 ≤ c.post_res_parse_buf.limit - c.post_res_parse_buf.write
    → remote_read (suc fuel) read c ≡ some (exits 42)
unfolding remote_read remote_read_in remote_read_resp parse_response can_write write_ptr
remote_read_exits fuel c read y ys vi vo st ps u room is fits nz other zone space =
    let b : Buffer = received c.pre_res_parse_buf (y ∷ ys) in
    let has : contents b ≡ contents c.pre_res_parse_buf ++ y ∷ ys =
      contents-received vi (y ∷ ys) fits in
    let s =
      seen_other b c.post_res_parse_buf (received-IsValid vi (y ∷ ys) fits) vo
        (subst NonZero (sym has) nz) (subst IsNotHttp (sym has) other) zone space in
    let refused =
      check_response-Refused fuel c.res_data b c.post_res_parse_buf c.pre_transf_buf ps u s.0 s.1 in
    ap (λ st. remote_read_in st (suc fuel) read c) st
    ∙ chosen {b = can_write c.pre_res_parse_buf} _ _ (ground arith)
    ∙ ap
        (λ (o : Option (ℕ × ℕ)). elim o as (λ _. Option Handled) [
          | none ↦ none
          | some (at, space) ↦ read_response (suc fuel) c (read space)
        ])
        (chosen {b = leb c.pre_res_parse_buf.write c.pre_res_parse_buf.limit}
          (some (c.pre_res_parse_buf.write, c.pre_res_parse_buf.limit - c.pre_res_parse_buf.write))
          none (ground arith))
    ∙ ap (read_response (suc fuel) c) is
    ∙ ap (λ o. respond (o >>= λ b. parse_response (suc fuel) (record c { pre_res_parse_buf = b })))
        (receive-received vi (y ∷ ys) fits)
    ∙ answered (record c { pre_res_parse_buf = b })
        (check_response (suc fuel) (response_of (record c { pre_res_parse_buf = b }))) refused
