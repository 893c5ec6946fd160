-- ===== src/RequestParser/Calls.antt =====
-- How often `checkRequest` calls back, in whatever state it is started.
use http_proxy.Base.{
  ℕ, zero, suc, ◌≡◌, ◌∙◌, ◌⊎◌, inl, inr, refl, sym, Bool, true, not, ◌&&◌, Option, none, some, List,
  [], ◌∷◌, Bytes, if◌then◌else◌, arith, Bool-cases, subst,
}
use mathlib.Core.Option.{some-injective}
use http_proxy.RequestParser.{RequestParserState, finished, Request}
use http_proxy.RequestParser.Machine.{
  Run, round_in, round, loop, check_request, first_run, ended, with_error,
}
use http_proxy.RequestParser.Progress.{goes_on, loop_goes, loop_stopped}

abbrev Nothing : Run → Type 0
Nothing r = r.calls ≡ []

abbrev Once : Run → Type 0
Once r =
    (r.success ≡ true)
    × (r.request.rd.parser_state ≡ finished)
    × (r.calls ≡ (r.request.rd.host, r.request.rd.port) ∷ [])

round-Once :
    (s : RequestParserState) (r : Run)
    → r.request.rd.parser_state ≡ s
    → r.success ≡ true
    → Nothing r ⊎ Once r
    → Nothing (round_in s r) ⊎ Once (round_in s r)
unfolding round_in
round-Once finished r e ok h = h
round-Once _ r e ok (inr c) = absurd (ground arith)
round-Once _ r e ok (inl c) = ground arith

loop-Once :
    (fuel : ℕ) (r r' : Run) → Nothing r ⊎ Once r → loop fuel r ≡ some r' → Nothing r' ⊎ Once r'
loop-Once zero r r' h e = unfold loop in ground arith
loop-Once (suc fuel) r r' h e = elim (Bool-cases (goes_on r)) [
  | inl going ↦
      loop-Once fuel (round r) r' (round-Once r.request.rd.parser_state r refl (ground arith) h)
        (sym (loop_goes fuel r going) ∙ e)
  | inr stopped ↦ ground (arith, loop_stopped (suc fuel) r stopped)
]

-- No call, or one, and then the parser is done.
abbrev pub CallsOnce : List (Bytes × ℕ) → Request → Type 0
CallsOnce calls q =
    (calls ≡ []) ⊎ ((q.rd.parser_state ≡ finished) × (calls ≡ (q.rd.host, q.rd.port) ∷ []))

CallsOnce-of :
    (r : Run)
    → Nothing r ⊎ Once r
    → CallsOnce r.calls
        (if not r.success && not r.request.io.empty then with_error r.request else r.request)
CallsOnce-of r (inl c) = inl c
CallsOnce-of r (inr c) = inr (rw c.0 (c.1, c.2))

ended-CallsOnce :
    (fuel : ℕ) (q : Request) (o : Option Run)
    → loop fuel (first_run q) ≡ o
    → {ok : Bool} {calls : List (Bytes × ℕ)} {q' : Request} → ended o ≡ some (ok, calls, q')
    → CallsOnce calls q'
ended-CallsOnce fuel q none l h = absurd cc
ended-CallsOnce fuel q (some r) l h =
    subst (λ t. CallsOnce t.1 t.2) (some-injective _ _ h)
      (CallsOnce-of r (loop-Once fuel (first_run q) r (inl refl) l))

pub check_request-CallsOnce :
    (fuel : ℕ) (q : Request) {ok : Bool} {calls : List (Bytes × ℕ)} {q' : Request}
    → check_request fuel q ≡ some (ok, calls, q')
    → CallsOnce calls q'
unfolding check_request
check_request-CallsOnce fuel q e = ended-CallsOnce fuel q (loop fuel (first_run q)) refl e
