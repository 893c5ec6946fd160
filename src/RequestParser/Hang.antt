-- ===== src/RequestParser/Hang.antt =====
-- A `Host:` header that begins with a byte no host begins with, such as `/` or `[`: the parser
-- waits for the host without reading anything, for ever.
use http_proxy.Base.{
  ℕ, zero, suc, ◌≡◌, ◌≢◌, ◌∙◌, refl, ap, true, false, ◌||◌, none, ◌==◌, get_or, arith, to_lower,
  is_upper,
}
use http_proxy.Buffer.{peek}
use http_proxy.ParserUtils.{is_blank, unread_count}
use http_proxy.RequestParser.{host, Request}
use http_proxy.RequestParser.Headers.{extract_host}
use http_proxy.RequestParser.Machine.{Run, round_in, round, loop, check_request, first_run, ended}
use http_proxy.RequestParser.Progress.{goes_on, loop_goes}
use http_proxy.RequestParser.StartLine.{host_loop, host_start, is_host_char}

-- The byte stops the host loop at once, and ends no host.
pub record IsBad (c : ℕ) : Type 0 where
  pub not_zero : c ≢ 0
  pub not_host : is_host_char (to_lower c) ≡ false
  pub not_colon : c ≢ b':'
  pub not_end : (is_blank c || c == b'\r') ≡ false

to_lower_small : (c : ℕ) → ((to_lower c == 0) ≡ (c == 0)) × ((to_lower c == b':') ≡ (c == b':'))
unfolding to_lower is_upper
to_lower_small c = (ground arith, ground arith)

module _ (q : Request) (bad : IsBad (peek q.io.inp)) where
  stops_at_once :
      (fuel : ℕ)
      → host_loop false fuel (host_start q) ≡ record (host_start q) { c = to_lower (peek q.io.inp) }
  unfolding host_loop
  stops_at_once zero = refl
  stops_at_once (suc fuel) = rw bad.not_host (ground arith)

  lowered : ((to_lower (peek q.io.inp) == 0) ≡ false) × ((to_lower (peek q.io.inp) == b':') ≡ false)
  lowered = ground (arith, to_lower_small (peek q.io.inp), bad.not_zero, bad.not_colon)

  pub extract_host_stuck : extract_host q ≡ (false, q)
  unfolding extract_host
  extract_host_stuck = rw (stops_at_once (unread_count q.io.inp), lowered.0, lowered.1, bad.not_end)

module _ (r : Run) (going : goes_on r ≡ true) (at_host : r.request.rd.parser_state ≡ host)
    (bad : IsBad (peek r.request.io.inp)) (no_host : get_or r.request.rd.host 0 0 ≡ 0)
    (not_empty : r.request.io.empty ≡ false) where
  round_same : round r ≡ r
  unfolding round_in
  round_same =
      ap (λ s. round_in s r) at_host ∙ rw (extract_host_stuck r.request bad, no_host, not_empty)

  loop-none : (fuel : ℕ) → loop fuel r ≡ none
  loop-none zero = unfold loop in rw going
  loop-none (suc fuel) = loop_goes fuel r going ∙ ap (loop fuel) round_same ∙ loop-none fuel

-- `checkRequest`, with no host known, at a byte behind `Host:` that is no byte of a host, no colon
-- and does not end a header value: no number of rounds ends its loop, which reads nothing.
pub check_request_hangs :
    (q : Request)
    → q.rd.parser_state ≡ host
    → IsBad (peek q.io.inp)
    → get_or q.rd.host 0 0 ≡ 0
    → (fuel : ℕ) → check_request fuel q ≡ none
unfolding check_request
check_request_hangs q at_host bad no_host fuel =
    ap ended (loop-none (first_run q) refl at_host bad no_host refl fuel)
