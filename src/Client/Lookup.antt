-- ===== src/Client/Lookup.antt =====
-- How often the host of a client is looked up, in all its life.
use http_proxy.Base.{
  ℕ, zero, suc, ◌+◌, ◌≤◌, ◌≡◌, ◌≢◌, ◌⊎◌, inl, inr, ◌∙◌, refl, sym, ap, Bool, false, not, Option,
  none, some, ◌>>=◌, List, [], ◌∷◌, ◌++◌, Bytes, ◌==◌, get_or, arith, Bool-cases, leb, subst,
}
use mathlib.Core.Option.{some-injective}
use http_proxy.RequestParser.{RequestParserState, Request}
use http_proxy.RequestParser
use http_proxy.RequestParser.Machine.{loop, check_request}
use http_proxy.RequestParser.Calls.{CallsOnce, check_request-CallsOnce}
use http_proxy.Client.{
  no_error, keepalive_host_no_match, Client, Call, Result, op_write, set_interest,
  unregister_client, unregister_client_calls,
}
use http_proxy.Client.Keeping.{resolves, resolves-append, resolves-unregister_client_calls}
use http_proxy.CStrings.{strnlen, strncpy}
use http_proxy.Client.Origin.{client_set_host, new_host, start_thread, max_domain_name_length}
use http_proxy.Client.Readers.{
  request_io, with_request_io, is_finished, is_ok, parse_request, parse_unless_finished, checked,
  call_back, conclude, pass_request, drain,
}
use http_proxy.Client.Stranded.{completed, parse_request-completed}

-- The host is not known and was never looked up; or the parser has finished, and it was looked up once at
-- most.
abbrev pub LooksUp : Client → ℕ → Type 0
LooksUp c n =
    ((get_or c.host.fqdn 0 0 ≡ 0) × (c.err ≡ no_error) × (n ≡ 0))
    ⊎ ((c.req_data.parser_state ≡ RequestParser.finished)
        × (c.err ≢ keepalive_host_no_match)
        × (n ≤ 1))

abbrev First : Client → Client → List Call → Type 0
First c c' calls =
    (c'.req_data ≡ c.req_data) × (c'.err ≢ keepalive_host_no_match) × (resolves calls ≤ 1)

copied-First :
    (port : ℕ) (c c' : Client) (calls : List Call) (o : Option Bytes)
    → c.err ≡ no_error
    → (o >>= start_thread port c) ≡ some (c', calls)
    → First c c' calls
copied-First port c c' calls none e is = absurd cc
copied-First port c c' calls (some fqdn) e is = ground arith

new_host-First :
    (host : Bytes) (port : ℕ) (c c' : Client) (calls : List Call) (len : ℕ)
    → c.err ≡ no_error
    → new_host host port c len ≡ some (c', calls)
    → First c c' calls
new_host-First host port c c' calls len e is = elim (Bool-cases (leb len max_domain_name_length)) [
  | inl fits ↦
      copied-First port c c' calls (strncpy c.host.fqdn host max_domain_name_length) e
        (rw fits at is)
  | inr long ↦ let is' = rw long at is in ground arith
]

measured-First :
    (host : Bytes) (port : ℕ) (c c' : Client) (calls : List Call) (o : Option ℕ)
    → c.err ≡ no_error
    → (o >>= new_host host port c) ≡ some (c', calls)
    → First c c' calls
measured-First host port c c' calls none e is = absurd cc
measured-First host port c c' calls (some len) e is = new_host-First host port c c' calls len e is

-- The first call of `client_set_host`.
set_host-First :
    (host : Bytes) (port : ℕ) (c c' : Client) (calls : List Call)
    → get_or c.host.fqdn 0 0 ≡ 0
    → c.err ≡ no_error
    → client_set_host host port c ≡ some (c', calls)
    → First c c' calls
unfolding client_set_host
set_host-First host port c c' calls h e is =
    let unknown : not (get_or c.host.fqdn 0 0 == 0) ≡ false = ground arith in
    measured-First host port c c' calls (strnlen host (suc max_domain_name_length)) e
      (rw unknown at is)

one_call-First :
    (host : Bytes) (port : ℕ) (c c' : Client) (calls : List Call) (o : Option (Client × List Call))
    → get_or c.host.fqdn 0 0 ≡ 0
    → c.err ≡ no_error
    → client_set_host host port c ≡ o
    → (o >>= λ r. call_back [] (r.0, [] ++ r.1)) ≡ some (c', calls)
    → First c c' calls
unfolding call_back
one_call-First host port c c' calls none h e is end = absurd cc
one_call-First host port c c' calls (some (c1, calls1)) h e is end =
    subst (λ t. First c t.0 t.1) (some-injective _ _ end)
      (set_host-First host port c c1 calls1 h e is)

-- The calls that the parser makes.
call_back-LooksUp :
    (hosts : List (Bytes × ℕ)) (c c' : Client) (calls : List Call) (q : Request)
    → c.req_data ≡ q.rd
    → get_or c.host.fqdn 0 0 ≡ 0
    → c.err ≡ no_error
    → CallsOnce hosts q
    → call_back hosts (c, []) ≡ some (c', calls)
    → LooksUp c' (resolves calls)
unfolding call_back
call_back-LooksUp hosts c c' calls q d h e (inl none_made) is =
    subst (λ t. LooksUp t.0 (resolves t.1)) (some-injective _ _ (rw none_made at is))
      (inl (h, e, refl))
call_back-LooksUp hosts c c' calls q d h e (inr (finished, one)) is =
    let f =
      one_call-First q.rd.host q.rd.port c c' calls (client_set_host q.rd.host q.rd.port c) h e refl
        (rw one at is) in
    inr (ap (λ rd. rd.parser_state) (f.0 ∙ d) ∙ finished, f.1, f.2)

no_rounds : (c : Client) → parse_request 0 c ≡ none
unfolding parse_request check_request loop
no_rounds c = refl

-- A parser that has finished calls back no more.
finished-parse :
    (fuel : ℕ) (c c' : Client) (calls : List Call)
    → c.req_data.parser_state ≡ RequestParser.finished
    → parse_request fuel c ≡ some (c', calls)
    → (c' ≡ completed c) × (calls ≡ [])
finished-parse zero c c' calls done is = absurd (cc (no_rounds c))
finished-parse (suc fuel) c c' calls done is =
    let e = some-injective _ _ (sym (parse_request-completed fuel c done) ∙ is) in
    (ap (λ t. t.0) (sym e), ap (λ t. t.1) (sym e))

fresh-parse :
    (c c' : Client) (calls : List Call) (o : Option (Bool × List (Bytes × ℕ) × Request)) (fuel : ℕ)
    → get_or c.host.fqdn 0 0 ≡ 0
    → c.err ≡ no_error
    → check_request fuel (record { rd = c.req_data; io = request_io c }) ≡ o
    → (o >>= checked c) ≡ some (c', calls)
    → LooksUp c' (resolves calls)
fresh-parse c c' calls none fuel h e is end = absurd cc
fresh-parse c c' calls (some (complete, hosts, q)) fuel h e is end =
    call_back-LooksUp hosts
      (record (with_request_io c q.io) { req_data = q.rd; request_complete = complete }) c' calls q
      refl h e (check_request-CallsOnce fuel (record { rd = c.req_data; io = request_io c }) is) end

abbrev pub LooksUpAfter : ℕ → Client × List Call → Type 0
LooksUpAfter n r = LooksUp r.0 (n + resolves r.1)

pub parse_request-LooksUp :
    (fuel n : ℕ) (c c' : Client) (calls : List Call)
    → LooksUp c n
    → parse_request fuel c ≡ some (c', calls)
    → LooksUpAfter n (c', calls)
unfolding parse_request
parse_request-LooksUp fuel n c c' calls (inl (h, e, z)) is = subst (LooksUp c') (omega arith) (
    fresh-parse c c' calls (check_request fuel (record { rd = c.req_data; io = request_io c })) fuel
      h e refl is)
parse_request-LooksUp fuel n c c' calls (inr (done, kept, few)) is =
    let (same, none_made) = finished-parse fuel c c' calls done is in
    rw (same, none_made) (inr (done, kept, omega arith))

pub parse_unless-LooksUp :
    (fuel n : ℕ) (c c' : Client) (calls : List Call)
    → LooksUp c n
    → parse_unless_finished fuel c ≡ some (c', calls)
    → LooksUpAfter n (c', calls)
parse_unless-LooksUp fuel n c c' calls l is =
    elim (Bool-cases (is_finished c.req_data.parser_state)) [
      | inl done ↦
          subst (LooksUpAfter n) (some-injective _ _ (rw done at is))
            (subst (LooksUp c) (omega arith) l)
      | inr more ↦ parse_request-LooksUp fuel n c c' calls l (rw more at is)
    ]

-- What is made of the parser's answer keeps the claim.
abbrev pub Carries : (Client × List Call → Option Result) → Type 0
Carries k =
    (n : ℕ) (t : Client × List Call) (r : Result)
    → LooksUpAfter n t
    → k t ≡ some r
    → LooksUp r.client (n + resolves r.calls)

pub conclude-Carries : Carries conclude
unfolding drain unregister_client
conclude-Carries n (c, calls) r l is = elim (Bool-cases (is_ok c.req_data.state)) [
  | inl fine ↦
      subst (λ r. LooksUp r.client (n + resolves r.calls)) (some-injective _ _ (rw fine at is)) l
  | inr wrong ↦
      subst (λ r. LooksUp r.client (n + resolves r.calls)) (some-injective _ _ (rw wrong at is))
        (subst (LooksUp c)
          (omega (
            arith,
            resolves-append calls (unregister_client_calls c),
            resolves-unregister_client_calls c,
          ))
          l)
]

pub pass_request-Carries : Carries pass_request
unfolding drain
pass_request-Carries n (c, calls) r l is =
    subst (λ r. LooksUp r.client (n + resolves r.calls)) (some-injective _ _ is)
      (subst (LooksUp c)
        (omega (arith, resolves-append calls (set_interest c.origin_fd op_write ∷ []))) l)

pub carried :
    {k : Client × List Call → Option Result} (h : Carries k) (n : ℕ)
    (o : Option (Client × List Call)) (r : Result)
    → ((c' : Client) (calls : List Call) → o ≡ some (c', calls) → LooksUpAfter n (c', calls))
    → (o >>= k) ≡ some r
    → LooksUp r.client (n + resolves r.calls)
carried h n none r all is = absurd cc
carried h n (some (c', calls)) r all is = h n (c', calls) r (all c' calls refl) is
