-- ===== src/ResponseParser/Errors.antt =====
-- What `checkResponse` reports: its result, the flag and the field `state`.
use http_proxy.Base.{
  ℕ, zero, suc, ◌≡◌, ◌≢◌, ◌⊎◌, inl, inr, refl, Bool, true, false, ◌&&◌, Option, none, some, arith,
  Bool-cases, subst,
}
use mathlib.Core.Option.{some-injective}
use http_proxy.ResponseParser.{
  res_version_error, status_error, chunks_error, ResponseParserState, res_space_transition,
  res_version, status, res_headers, length_check, encoding_check, chunked_check, connection_check,
  type_check, body_normal, body_transformation, res_finished, Response, ResponseState,
}
use http_proxy.ResponseParser.Body.{extract_body, extract_body_transf}
use http_proxy.ResponseParser.Headers.{
  check_spaces, extract_http_version, extract_status, check_headers, check_length, check_encoding,
  check_chunked, check_connection,
}
use http_proxy.ResponseParser.Machine.{
  Run, round_in, round, loop, check_response, first_run, finish_run, ended, error_of, after_headers,
}

-- The functions of the parser leave the field `state` alone.
abbrev Keeps : (Response → Bool × Response) → Type 0
Keeps f = (q : Response) → (f q).1.rd.state ≡ q.rd.state

check_spaces-Keeps : Keeps check_spaces
unfolding check_spaces
check_spaces-Keeps q = ground arith

extract_http_version-Keeps : Keeps extract_http_version
unfolding extract_http_version
extract_http_version-Keeps q = ground arith

extract_status-Keeps : Keeps extract_status
unfolding extract_status
extract_status-Keeps q = ground arith

check_headers-Keeps : Keeps check_headers
unfolding check_headers
check_headers-Keeps q = refl

check_length-Keeps : Keeps check_length
unfolding check_length
check_length-Keeps q = refl

check_encoding-Keeps : Keeps check_encoding
unfolding check_encoding
check_encoding-Keeps q = ground arith

check_chunked-Keeps : Keeps check_chunked
unfolding check_chunked
check_chunked-Keeps q = ground arith

check_connection-Keeps : Keeps check_connection
unfolding check_connection
check_connection-Keeps q = ground arith

extract_body-Keeps : Keeps extract_body
unfolding extract_body
extract_body-Keeps q = ground arith

extract_body_transf-Keeps : Keeps extract_body_transf
unfolding extract_body_transf
extract_body_transf-Keeps q = refl

state-after_headers :
    (st : ResponseParserState) (q : Response) → (after_headers st q).rd.state ≡ q.rd.state
state-after_headers res_finished q = ground arith
state-after_headers _ q = refl

abbrev goes_on : Run → Bool
goes_on r = r.success && r.active

-- The run is inactive only in the last state.
abbrev Sound : ResponseState → Run → Type 0
Sound s r =
    (r.response.rd.state ≡ s)
    × ((r.active ≡ true) ⊎ ((r.response.rd.parser_state ≡ res_finished) × (r.success ≡ true)))

round-Sound :
    (st : ResponseParserState) (r : Run)
    → r.response.rd.parser_state ≡ st
    → goes_on r ≡ true
    → Sound r.response.rd.state (round_in st r)
unfolding round_in
round-Sound res_space_transition r e h = ground (arith, check_spaces-Keeps r.response)
round-Sound res_version r e h = ground (arith, extract_http_version-Keeps r.response)
round-Sound status r e h = ground (arith, extract_status-Keeps r.response)
round-Sound res_headers r e h = ground (
  arith,
  check_headers-Keeps r.response,
  state-after_headers (check_headers r.response).1.rd.next (check_headers r.response).1,
)
round-Sound length_check r e h = ground (arith, check_length-Keeps r.response)
round-Sound encoding_check r e h = ground (arith, check_encoding-Keeps r.response)
round-Sound chunked_check r e h = ground (arith, check_chunked-Keeps r.response)
round-Sound connection_check r e h = ground (arith, check_connection-Keeps r.response)
round-Sound type_check r e h = ground arith
round-Sound body_normal r e h = ground (arith, extract_body-Keeps r.response)
round-Sound body_transformation r e h = ground (arith, extract_body_transf-Keeps r.response)
round-Sound res_finished r e h = ground arith

loop-Sound :
    (fuel : ℕ) (s : ResponseState) (r r' : Run)
    → Sound s r
    → loop fuel r ≡ some r'
    → Sound s r' × (goes_on r' ≡ false)
unfolding loop
loop-Sound zero s r r' h e = ground arith
loop-Sound (suc fuel) s r r' h e = elim (Bool-cases (goes_on r)) [
  | inl going ↦
      loop-Sound fuel s (round r) r'
        (subst (λ t. Sound t (round r)) h.0 (round-Sound r.response.rd.parser_state r refl going))
        (rw going at e)
  | inr stopped ↦ ground arith
]

-- The state of the parser is one that reads a body.
abbrev pub InBody : ResponseParserState → Type 0
InBody p = (p ≡ body_normal) ⊎ (p ≡ body_transformation)

-- The field `state` behind a failure in the state `p` of the parser, from its value before.
pub record Blames (p : ResponseParserState) (chunked : Bool) (before after : ResponseState)
    : Type 0 where
  pub of_version : p ≡ res_version → after ≡ res_version_error
  pub of_status : p ≡ status → after ≡ status_error
  pub of_chunks : InBody p → chunked ≡ true → after ≡ chunks_error
  pub of_length : InBody p → chunked ≡ false → after ≡ before
  pub of_others : p ≢ res_version → p ≢ status → ¬ InBody p → after ≡ before

error_of-Blames :
    (p : ResponseParserState) (chunked : Bool) (s : ResponseState)
    → Blames p chunked s (error_of p chunked s)
unfolding error_of
error_of-Blames res_version chunked s = record {
  of_version = λ e. refl;
  of_status = λ e. absurd (cc);
  of_chunks = λ e h. ground arith;
  of_length = λ e h. ground arith;
  of_others = λ a b c. absurd (a refl);
}
error_of-Blames status chunked s = record {
  of_version = λ e. absurd (cc);
  of_status = λ e. refl;
  of_chunks = λ e h. ground arith;
  of_length = λ e h. ground arith;
  of_others = λ a b c. absurd (b refl);
}
error_of-Blames body_normal chunked s = record {
  of_version = λ e. absurd (cc);
  of_status = λ e. absurd (cc);
  of_chunks = λ e h. rw h refl;
  of_length = λ e h. rw h refl;
  of_others = λ a b c. absurd (c (inl refl));
}
error_of-Blames body_transformation chunked s = record {
  of_version = λ e. absurd (cc);
  of_status = λ e. absurd (cc);
  of_chunks = λ e h. rw h refl;
  of_length = λ e h. rw h refl;
  of_others = λ a b c. absurd (c (inr refl));
}
error_of-Blames _ chunked s = record {
  of_version = λ e. absurd (cc);
  of_status = λ e. absurd (cc);
  of_chunks = λ e h. ground arith;
  of_length = λ e h. refl;
  of_others = λ a b c. refl;
}

-- The result and the state left, from the field `state` that the run began with.
abbrev pub Reported : ResponseState → Bool → Response → Type 0
Reported s ok q =
    ((ok ≡ true) × (q.rd.parser_state ≡ res_finished) × (q.rd.state ≡ s))
    ⊎ (((ok ≡ false) × (q.io.empty ≡ true) × (q.rd.state ≡ s))
        ⊎ ((ok ≡ false)
            × (q.io.empty ≡ false)
            × Blames q.rd.parser_state q.rd.is_chunked s q.rd.state))

finish_run-Reported :
    (s : ResponseState) (r : Run)
    → Sound s r
    → goes_on r ≡ false
    → Reported s (finish_run r).0 (finish_run r).1
finish_run-Reported s r (same, inr (fin, ok)) stopped = inl (rw ok (refl, fin, same))
finish_run-Reported s r (same, inl on) stopped =
    let failed : r.success ≡ false = ground arith in
    elim (Bool-cases r.response.io.empty) [
      | inl gone ↦ inr (inl (rw (failed, gone) (refl, refl, same)))
      | inr there ↦
          let rd = r.response.rd in
          inr (
            inr (
              rw (failed, there)
                (refl, refl, rw same (error_of-Blames rd.parser_state rd.is_chunked s))))
    ]

ended-Reported :
    (fuel : ℕ) (q : Response) (o : Option Run)
    → loop fuel (first_run q) ≡ o
    → {ok : Bool} {q' : Response} → ended o ≡ some (ok, q')
    → Reported q.rd.state ok q'
ended-Reported fuel q none l h = absurd cc
ended-Reported fuel q (some r) l h =
    let (sound, stopped) = loop-Sound fuel q.rd.state (first_run q) r (refl, inl refl) l in
    subst (λ t. Reported q.rd.state t.0 t.1) (some-injective _ _ h)
      (finish_run-Reported q.rd.state r sound stopped)

-- When `checkResponse` returns true it is in the state RES_FINISHED, and the field `state` is as it
-- was. When it returns false with the flag for an empty input set, the field is as it was. When it
-- returns false with the flag unset, the field is RES_VERSION_ERROR in the state RES_VERSION,
-- STATUS_ERROR in STATUS, and CHUNKS_ERROR in BODY_NORMAL and BODY_TRANSFORMATION for a chunked
-- body; in those two for another body, and in every other state, it is as it was.
pub check_response-Reported :
    (fuel : ℕ) (q : Response) {ok : Bool} {q' : Response}
    → check_response fuel q ≡ some (ok, q')
    → ((ok ≡ true) × (q'.rd.parser_state ≡ res_finished) × (q'.rd.state ≡ q.rd.state))
      ⊎ (((ok ≡ false) × (q'.io.empty ≡ true) × (q'.rd.state ≡ q.rd.state))
          ⊎ ((ok ≡ false)
              × (q'.io.empty ≡ false)
              × Blames q'.rd.parser_state q'.rd.is_chunked q.rd.state q'.rd.state))
unfolding check_response
check_response-Reported fuel q e = ended-Reported fuel q (loop fuel (first_run q)) refl e
