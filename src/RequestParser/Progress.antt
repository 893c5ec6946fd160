-- ===== src/RequestParser/Progress.antt =====
-- The rounds of the request parser: each that goes on comes to a later state, but for one in the
-- state HOST that leaves the parser there.
use http_proxy.Base.{
  ap, ℕ, zero, suc, ◌+◌, ◌-◌, ◌≤◌, ◌<◌, ◌≡◌, ◌⊎◌, inl, inr, refl, Bool, true, false, ◌&&◌, some,
  arith, Bool-cases, ◌∙◌, List, Bytes,
}
use http_proxy.RequestParser.{
  RequestParserState, space_transition, method, uri, relative_uri, uri_host, version,
  start_line_end, localhost_header_check, headers, host, finished, Request,
}
use http_proxy.RequestParser.Headers.{extract_host}
use http_proxy.RequestParser.StartLine.{check_spaces, host_loop, host_start, host_port, HostRun}
use http_proxy.ParserUtils.{unread_count}
use http_proxy.RequestParser.Machine.{
  Run, round_in, round, loop, check_request, first_run, ended, finish_run,
}

-- The position of a state in the request line and the headers.
abbrev pub place : RequestParserState → ℕ
place method = 0
place uri = 2
place uri_host = 3
place relative_uri = 3
place version = 5
place start_line_end = 6
place localhost_header_check = 7
place headers = 8
place host = 10
place finished = 11
place space_transition = 0

-- The spaces stand just in front of the state that comes next.
abbrev pub rank_in : RequestParserState → RequestParserState → ℕ
rank_in space_transition next = place next - 1
rank_in method next = place method
rank_in uri next = place uri
rank_in uri_host next = place uri_host
rank_in relative_uri next = place relative_uri
rank_in version next = place version
rank_in start_line_end next = place start_line_end
rank_in localhost_header_check next = place localhost_header_check
rank_in headers next = place headers
rank_in host next = place host
rank_in finished next = place finished

abbrev pub rank : Run → ℕ
rank r = rank_in r.request.rd.parser_state r.request.rd.next

-- Behind spaces come the URI, the version or the host.
abbrev pub PlacedIn : RequestParserState → RequestParserState → Type 0
PlacedIn space_transition uri = Unit
PlacedIn space_transition version = Unit
PlacedIn space_transition host = Unit
PlacedIn space_transition _ = ⊥
PlacedIn method next = Unit
PlacedIn uri next = Unit
PlacedIn uri_host next = Unit
PlacedIn relative_uri next = Unit
PlacedIn version next = Unit
PlacedIn start_line_end next = Unit
PlacedIn localhost_header_check next = Unit
PlacedIn headers next = Unit
PlacedIn host next = Unit
PlacedIn finished next = Unit

abbrev pub IsPlaced : Run → Type 0
IsPlaced r = PlacedIn r.request.rd.parser_state r.request.rd.next

abbrev pub goes_on : Run → Bool
goes_on r = r.success && r.active

-- The round leaves the parser waiting for a host.
abbrev pub Stays : Run → Type 0
Stays r =
    (r.request.rd.parser_state ≡ host)
    × ((round r).request.rd.parser_state ≡ host)
    × (goes_on (round r) ≡ true)

abbrev Advances : Run → Run → Type 0
Advances r r' = (goes_on r' ≡ false) ⊎ ((rank r < rank r') × IsPlaced r')

pub rd-check_spaces : (q : Request) → (check_spaces q).1.rd ≡ q.rd
unfolding check_spaces
rd-check_spaces q = ground arith

parser_state-host_port :
    (q : Request) (h : HostRun) → (host_port q h).2.rd.parser_state ≡ q.rd.parser_state
unfolding host_port
parser_state-host_port q h = ground arith

pub parser_state-extract_host :
    (q : Request) → (extract_host q).1.rd.parser_state ≡ q.rd.parser_state
unfolding extract_host
parser_state-extract_host q =
    parser_state-host_port q (host_loop false (unread_count q.io.inp) (host_start q))

place-le : (s : RequestParserState) → place s ≤ 11
place-le space_transition = omega arith
place-le _ = omega arith

pub rank-le : (r : Run) → rank r ≤ 11
rank-le r = go r.request.rd.parser_state r.request.rd.next
  where
    go : (s next : RequestParserState) → rank_in s next ≤ 11
    go space_transition next = omega (arith, place-le next)
    go _ next = omega arith

pub placed_cases :
    (s : RequestParserState)
    → PlacedIn space_transition s
    → (s ≡ uri) ⊎ ((s ≡ version) ⊎ (s ≡ host))
placed_cases uri h = inl refl
placed_cases version h = inr (inl refl)
placed_cases host h = inr (inr refl)
placed_cases _ h = absurd h

round-Advances :
    (s : RequestParserState) (r : Run)
    → r.request.rd.parser_state ≡ s
    → IsPlaced r
    → Advances r (round_in s r) ⊎ Stays r
unfolding round_in
round-Advances space_transition r e p =
    let cases = placed_cases r.request.rd.next (rw e at p) in
    inl (ground (arith, rd-check_spaces r.request, cases))
round-Advances method r e p = inl (ground arith)
round-Advances uri r e p = inl (ground arith)
round-Advances uri_host r e p = inl (ground arith)
round-Advances relative_uri r e p = inl (ground arith)
round-Advances version r e p = inl (ground arith)
round-Advances start_line_end r e p = inl (ground arith)
round-Advances localhost_header_check r e p = inl (ground arith)
round-Advances headers r e p = inl (ground arith)
round-Advances host r e p = ground (arith, parser_state-extract_host r.request)
round-Advances finished r e p = inl (ground arith)

-- Rounds made one behind the other.
pub data Rounds : Run → Run → Type 0 where
  here : {r : Run} → Rounds r r
  later : {r r' s : Run} → goes_on r ≡ true → round r ≡ r' → Rounds r' s → Rounds r s

pub loop_stopped : (fuel : ℕ) (r : Run) → goes_on r ≡ false → loop fuel r ≡ some r
unfolding loop
loop_stopped zero r h = ground arith
loop_stopped (suc fuel) r h = ground arith

pub loop_goes : (fuel : ℕ) (r : Run) → goes_on r ≡ true → loop (suc fuel) r ≡ loop fuel (round r)
unfolding loop
loop_goes fuel r h = ground arith

-- What 12 rounds come to from a state that is placed.
abbrev pub Ends : ℕ → Run → Type 0
Ends fuel r =
    ((r' : Run) × (loop fuel r ≡ some r') × (goes_on r' ≡ false))
    ⊎ ((s : Run) × Rounds r s × (goes_on s ≡ true) × Stays s)

pub loop-Ends : (fuel : ℕ) (r : Run) → IsPlaced r → 12 ≤ rank r + fuel → Ends fuel r
loop-Ends zero r p h = absurd (omega (arith, rank-le r))
loop-Ends (suc fuel) r p h = elim (Bool-cases (goes_on r)) [
  | inr stopped ↦ inl (r, loop_stopped (suc fuel) r stopped, stopped)
  | inl going ↦ elim (round-Advances r.request.rd.parser_state r refl p) [
    | inr stays ↦ inr (r, here, going, stays)
    | inl (inl stopped) ↦
        inl (round r, loop_goes fuel r going ∙ loop_stopped fuel (round r) stopped, stopped)
    | inl (inr (lt, placed)) ↦ elim (loop-Ends fuel (round r) placed (omega arith)) [
      | inl (r', e, stopped) ↦ inl (r', loop_goes fuel r going ∙ e, stopped)
      | inr (s, rounds, on, stays) ↦ inr (s, later going refl rounds, on, stays)
    ]
  ]
]

-- `checkRequest` from a state in which the URI, the version or the host stand behind any spaces
-- ends within 12 rounds of its loop, unless its rounds come to one in the state HOST that leaves the
-- parser in HOST and the loop going, whether it reads bytes or not.
pub check_request_ends :
    (q : Request)
    → PlacedIn q.rd.parser_state q.rd.next
    → ((result : Bool × List (Bytes × ℕ) × Request) × (check_request 12 q ≡ some result))
      ⊎ ((s : Run) × Rounds (first_run q) s × (goes_on s ≡ true) × Stays s)
unfolding check_request
check_request_ends q p = elim (loop-Ends 12 (first_run q) p (omega arith)) [
  | inl (r, e, stopped) ↦ inl (finish_run r, ap ended e)
  | inr spins ↦ inr spins
]
