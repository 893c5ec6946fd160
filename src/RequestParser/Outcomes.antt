-- ===== src/RequestParser/Outcomes.antt =====
-- How `checkRequest` tells its caller of the host, and which errors it can report.
use http_proxy.Base.{
  ℕ, zero, suc, ◌≡◌, ◌≢◌, ◌∙◌, ◌⊎◌, inl, inr, refl, sym, Bool, true, false, not, ◌&&◌, Option, none,
  some, List, [], ◌∷◌, Bytes, if◌then◌else◌, arith, Bool-cases, subst,
}
use mathlib.Core.Option.{some-injective}
use http_proxy.RequestParser.{
  RequestParserState, space_transition, method, uri, relative_uri, uri_host, version,
  start_line_end, localhost_header_check, headers, host, finished, Request,
}
use http_proxy.RequestParser.Machine.{
  Run, round_in, round, loop, check_request, first_run, ended, with_error,
}
use http_proxy.RequestParser.Progress.{
  goes_on, loop_goes, loop_stopped, IsPlaced, PlacedIn, placed_cases, rd-check_spaces,
  parser_state-extract_host,
}

-- The parser has not called back yet; or it has called once and is done; or it has failed.
abbrev Waiting : Run → Type 0
Waiting r =
    (r.success ≡ true)
    × (r.active ≡ true)
    × (r.calls ≡ [])
    × IsPlaced r
    × (r.request.rd.parser_state ≢ finished)

abbrev Called : Run → Type 0
Called r =
    (r.success ≡ true)
    × (r.request.rd.parser_state ≡ finished)
    × (r.calls ≡ (r.request.rd.host, r.request.rd.port) ∷ [])

abbrev Failed : Run → Type 0
Failed r = (r.success ≡ false) × (r.calls ≡ [])

abbrev Reports : Run → Type 0
Reports r = Waiting r ⊎ (Called r ⊎ Failed r)

round-Reports :
    (s : RequestParserState) (r : Run)
    → r.request.rd.parser_state ≡ s
    → Waiting r ⊎ Called r
    → Reports (round_in s r)
unfolding round_in
round-Reports space_transition r e (inl w) =
    let cases = placed_cases r.request.rd.next (rw e at w.3) in
    ground (arith, rd-check_spaces r.request, cases)
round-Reports method r e (inl w) = ground arith
round-Reports uri r e (inl w) = ground arith
round-Reports uri_host r e (inl w) = ground arith
round-Reports relative_uri r e (inl w) = ground arith
round-Reports version r e (inl w) = ground arith
round-Reports start_line_end r e (inl w) = ground arith
round-Reports localhost_header_check r e (inl w) = ground arith
round-Reports headers r e (inl w) = ground arith
round-Reports host r e (inl w) = ground (arith, parser_state-extract_host r.request)
round-Reports finished r e (inl w) = absurd (w.4 e)
round-Reports finished r e (inr c) = inr (inl (ground arith))
round-Reports _ r e (inr c) = absurd (ground arith)

going-Reports : (r : Run) → goes_on r ≡ true → Reports r → Waiting r ⊎ Called r
going-Reports r h (inl w) = inl w
going-Reports r h (inr (inl c)) = inr c
going-Reports r h (inr (inr f)) = absurd (ground arith)

loop-Reports :
    (fuel : ℕ) (r r' : Run) → Reports r → loop fuel r ≡ some r' → Reports r' × (goes_on r' ≡ false)
loop-Reports zero r r' h e = unfold loop in ground arith
loop-Reports (suc fuel) r r' h e = elim (Bool-cases (goes_on r)) [
  | inl going ↦
      loop-Reports fuel (round r) r'
        (round-Reports r.request.rd.parser_state r refl (going-Reports r going h))
        (sym (loop_goes fuel r going) ∙ e)
  | inr stopped ↦ ground (arith, loop_stopped (suc fuel) r stopped)
]

abbrev Verdict : Bool → List (Bytes × ℕ) → Request → Type 0
Verdict ok calls q =
    ((ok ≡ true) × (q.rd.parser_state ≡ finished) × (calls ≡ (q.rd.host, q.rd.port) ∷ []))
    ⊎ ((ok ≡ false) × (calls ≡ []))

Verdict-of :
    (r : Run)
    → Reports r
    → goes_on r ≡ false
    → Verdict r.success r.calls
        (if not r.success && not r.request.io.empty then with_error r.request else r.request)
Verdict-of r (inl w) s = absurd (ground arith)
Verdict-of r (inr (inl c)) s = inl (rw c.0 (refl, c.1, c.2))
Verdict-of r (inr (inr f)) s = inr f

ended-Verdict :
    (fuel : ℕ) (q : Request) (o : Option Run)
    → PlacedIn q.rd.parser_state q.rd.next
    → q.rd.parser_state ≢ finished
    → loop fuel (first_run q) ≡ o
    → {ok : Bool} {calls : List (Bytes × ℕ)} {q' : Request} → ended o ≡ some (ok, calls, q')
    → Verdict ok calls q'
ended-Verdict fuel q none p ne l h = absurd cc
ended-Verdict fuel q (some r) p ne l {ok} {calls} {q'} h =
    let reports = loop-Reports fuel (first_run q) r (inl (refl, refl, refl, p, ne)) l in
    subst (λ t. Verdict t.0 t.1 t.2) (some-injective _ _ h) (Verdict-of r reports.0 reports.1)

-- `checkRequest`, started in a state that is placed and not FINISHED, calls back exactly once and
-- ends in FINISHED if it returns true, and not at all if it returns false. The call is given the
-- host and the port that the parser ends with.
pub check_request_calls_once :
    (fuel : ℕ) (q : Request) {ok : Bool} {calls : List (Bytes × ℕ)} {q' : Request}
    → PlacedIn q.rd.parser_state q.rd.next
    → q.rd.parser_state ≢ finished
    → check_request fuel q ≡ some (ok, calls, q')
    → ((ok ≡ true) × (q'.rd.parser_state ≡ finished) × (calls ≡ (q'.rd.host, q'.rd.port) ∷ []))
      ⊎ ((ok ≡ false) × (calls ≡ []))
unfolding check_request
check_request_calls_once fuel q p ne e = ended-Verdict fuel q (loop fuel (first_run q)) p ne refl e
