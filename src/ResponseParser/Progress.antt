-- ===== src/ResponseParser/Progress.antt =====
-- The rounds of the response parser: each that goes on comes to a later state, or has read a
-- byte, or has seen the input give out.
use http_proxy.Base.{
  ℕ, zero, suc, ◌+◌, ◌*◌, ◌≤◌, ◌<◌, ◌≡◌, ◌∙◌, ◌⊎◌, inl, inr, refl, ap, Bool, true, false, ◌&&◌,
  some, arith, Bool-cases,
}
use http_proxy.ParserUtils.{unread_count}
use http_proxy.ResponseParser.{
  ResponseParserState, res_space_transition, res_version, status, res_headers, length_check,
  encoding_check, chunked_check, connection_check, type_check, body_normal, body_transformation,
  res_finished, Response,
}
use http_proxy.ResponseParser.Headers.{check_spaces, check_headers}
use http_proxy.ResponseParser.Machine.{
  Run, round_in, round, loop, check_response, first_run, finish_run, ended, after_headers,
}
use http_proxy.ResponseParser.Unread.{count}
use http_proxy.ResponseParser.Leaves.{
  is_space, check_spaces-Leaves, next-check_spaces, extract_http_version-Leaves,
  extract_status-Leaves, check_length-Leaves, check_encoding-Leaves, check_chunked-Leaves,
  check_connection-Leaves, check_headers-Found,
}

-- The level of a state, in which the bytes unread are counted five times.
abbrev level : ResponseParserState → ℕ
level res_version = 6
level status = 4
level length_check = 4
level encoding_check = 4
level chunked_check = 4
level connection_check = 4
level type_check = 4
level res_headers = 3
level body_normal = 2
level body_transformation = 2
level res_finished = 1
level res_space_transition = 0

abbrev rank_in : ResponseParserState → ResponseParserState → ℕ → ℕ
rank_in res_space_transition next n = 5 * n + level next + 1
rank_in body_normal next n = 2
rank_in body_transformation next n = 2
rank_in res_finished next n = 1
rank_in s next n = 5 * n + level s

abbrev rank : Run → ℕ
rank r = rank_in r.response.rd.parser_state r.response.rd.next (count r.response.io)

-- Behind spaces comes another state than the spaces.
abbrev pub IsPlaced : ResponseParserState → ResponseParserState → Type 0
IsPlaced res_space_transition next = is_space next ≡ false
IsPlaced _ next = Unit

rank_in-le :
    (s next : ResponseParserState) (n : ℕ)
    → is_space s ≡ false
    → (rank_in s next n ≤ 5 * n + level s) × IsPlaced s next
rank_in-le res_space_transition next n h = absurd cc
rank_in-le body_normal next n h = ground arith
rank_in-le body_transformation next n h = ground arith
rank_in-le res_finished next n h = ground arith
rank_in-le _ next n h = ground arith

level-le : (s : ResponseParserState) → level s ≤ 6
level-le s = grind arith

rank_in-bounds :
    (s next : ResponseParserState) (n : ℕ) → (1 ≤ rank_in s next n) × (rank_in s next n ≤ 5 * n + 7)
rank_in-bounds res_space_transition next n = ground (arith, level-le next)
rank_in-bounds _ next n = ground arith

abbrev pub goes_on : Run → Bool
goes_on r = r.success && r.active

-- What a round that goes on comes to: the end, a set flag, or a state of a smaller rank.
abbrev Falls : Run → Run → Type 0
Falls r s =
    (goes_on s ≡ false)
    ⊎ ((s.response.io.empty ≡ true)
        ⊎ ((rank s < rank r) × IsPlaced s.response.rd.parser_state s.response.rd.next))

after_headers-Falls :
    (s : ResponseParserState) (q : Response) (m : ℕ)
    → is_space s ≡ false
    → q.rd.next ≡ s
    → count q.io < m
    → (rank_in
          (after_headers s q).rd.parser_state
          (after_headers s q).rd.next
          (count (after_headers s q).io)
        < 5 * m + 3)
      × IsPlaced (after_headers s q).rd.parser_state (after_headers s q).rd.next
after_headers-Falls res_space_transition q m h e lt = absurd cc
after_headers-Falls res_finished q m h e lt = ground arith
after_headers-Falls s q m h e lt = (omega (arith, level-le q.rd.next), ap is_space e ∙ h)

io-after_headers : (s : ResponseParserState) (q : Response) → (after_headers s q).io ≡ q.io
io-after_headers res_finished q = ground arith
io-after_headers _ q = refl

headers-Falls :
    (r : Run) → r.response.rd.parser_state ≡ res_headers → Falls r (round_in res_headers r)
unfolding round_in
headers-Falls r e = elim (Bool-cases (check_headers r.response).0) [
  | inr no_more ↦ rw no_more (inl refl)
  | inl more ↦ rw more (elim (check_headers-Found r.response more) [
    | inl gone ↦ inr (inl (ap (λ i. i.empty) (io-after_headers next q) ∙ gone))
    | inr (same, lt, there) ↦
        let (less, placed) = after_headers-Falls next q (count r.response.io) there refl lt in
        inr (inr (omega (arith, less, rank_is), placed))
  ])
]
  where
    rank_is : rank r ≡ 5 * count r.response.io + 3
    rank_is = ap (λ s. rank_in s r.response.rd.next (count r.response.io)) e

    q : Response
    q = (check_headers r.response).1

    next : ResponseParserState
    next = q.rd.next

round-Falls :
    (s : ResponseParserState) (r : Run)
    → r.response.rd.parser_state ≡ s
    → goes_on r ≡ true
    → IsPlaced r.response.rd.parser_state r.response.rd.next
    → Falls r (round_in s r)
unfolding round_in
round-Falls res_space_transition r e h p =
    let q = (check_spaces r.response).1 in
    let placed : is_space r.response.rd.next ≡ false = rw e at p in
    ground (
      arith,
      placed,
      check_spaces-Leaves r.response,
      next-check_spaces r.response,
      rank_in-le r.response.rd.next r.response.rd.next (count q.io) placed,
    )
round-Falls res_version r e h p = ground (arith, extract_http_version-Leaves r.response)
round-Falls status r e h p = ground (arith, extract_status-Leaves r.response)
round-Falls res_headers r e h p = headers-Falls r e
round-Falls length_check r e h p = ground (arith, check_length-Leaves r.response)
round-Falls encoding_check r e h p = ground (arith, check_encoding-Leaves r.response)
round-Falls chunked_check r e h p = ground (arith, check_chunked-Leaves r.response)
round-Falls connection_check r e h p = ground (arith, check_connection-Leaves r.response)
round-Falls type_check r e h p = ground arith
round-Falls body_normal r e h p = ground arith
round-Falls body_transformation r e h p = ground arith
round-Falls res_finished r e h p = ground arith

-- Rounds made one behind the other.
pub data Rounds : Run → Run → Type 0 where
  here : {r : Run} → Rounds r r
  later : {r r' s : Run} → goes_on r ≡ true → round r ≡ r' → Rounds r' s → Rounds r s

loop_stopped : (fuel : ℕ) (r : Run) → goes_on r ≡ false → loop fuel r ≡ some r
unfolding loop
loop_stopped zero r h = ground arith
loop_stopped (suc fuel) r h = ground arith

loop_goes : (fuel : ℕ) (r : Run) → goes_on r ≡ true → loop (suc fuel) r ≡ loop fuel (round r)
unfolding loop
loop_goes fuel r h = ground arith

abbrev Ends : ℕ → Run → Type 0
Ends fuel r =
    ((r' : Run) × (loop fuel r ≡ some r'))
    ⊎ ((s : Run) × Rounds r s × (goes_on s ≡ true) × (s.response.io.empty ≡ true))

loop-Ends :
    (fuel : ℕ) (r : Run)
    → IsPlaced r.response.rd.parser_state r.response.rd.next
    → rank r ≤ fuel
    → Ends fuel r
loop-Ends zero r p h = absurd (
    omega
      (arith, rank_in-bounds r.response.rd.parser_state r.response.rd.next (count r.response.io)))
loop-Ends (suc fuel) r p h = elim (Bool-cases (goes_on r)) [
  | inr stopped ↦ inl (r, loop_stopped (suc fuel) r stopped)
  | inl going ↦ elim (round-Falls r.response.rd.parser_state r refl going p) [
    | inl stopped ↦ inl (round r, loop_goes fuel r going ∙ loop_stopped fuel (round r) stopped)
    | inr (inl gone) ↦ elim (Bool-cases (goes_on (round r))) [
      | inl on ↦ inr (round r, later going refl here, on, gone)
      | inr off ↦ inl (round r, loop_goes fuel r going ∙ loop_stopped fuel (round r) off)
    ]
    | inr (inr (lt, placed)) ↦ elim (loop-Ends fuel (round r) placed (omega arith)) [
      | inl (r', e) ↦ inl (r', loop_goes fuel r going ∙ e)
      | inr (s, rounds, on, gone) ↦ inr (s, later going refl rounds, on, gone)
    ]
  ]
]

-- `checkResponse`, not behind spaces that more spaces follow, ends within five rounds of its loop
-- for each unread byte and seven more, unless its rounds come to a state that goes on although the
-- input gave out.
pub check_response_ends :
    (q : Response)
    → IsPlaced q.rd.parser_state q.rd.next
    → ((result : Bool × Response) × (check_response (5 * unread_count q.io.inp + 7) q
          ≡ some result))
      ⊎ ((s : Run) × Rounds (first_run q) s × (goes_on s ≡ true) × (s.response.io.empty ≡ true))
unfolding check_response
check_response_ends q p =
    elim (loop-Ends (5 * unread_count q.io.inp + 7) (first_run q) p
      (rank_in-bounds q.rd.parser_state q.rd.next (count q.io)).1) [
        | inl (r, e) ↦ inl (finish_run r, ap ended e)
        | inr spins ↦ inr spins
      ]
