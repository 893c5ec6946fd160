-- ===== src/Client/Life.antt =====
-- All that can happen to a client, and what never does.
use http_proxy.Base.{
  ℕ, ◌+◌, ◌-◌, ◌≤◌, ◌≡◌, ◌&&◌, ◌≢◌, inl, inr, ◌∙◌, refl, sym, ap, Bool, Option, none, some, ◌>>=◌,
  List, [], ◌∷◌, ◌++◌, Bytes, get_or, set, arith, Bool-cases, leb, subst,
}
use mathlib.Core.Option.{some-injective}
use http_proxy.Buffer.{Buffer, can_write, write_ptr}
use http_proxy.Buffer.Receive.{receive}
use http_proxy.Chunks.{ReadResult, read_error, got}
use http_proxy.Selector.{op_noop}
use http_proxy.Client.{
  ClientState, no_origin, send_req, keepalive_host_no_match, Client, Call, Written, Result,
  set_interest, unregister_client, unregister_client_calls,
}
use http_proxy.Client.Creation.{Given, client_new, listen_read_handler}
use http_proxy.Client.Keeping.{
  Keeps, resolves, resolves-append, resolves-unregister_client_calls, remote_write-Keeps,
  client_write-Keeps, client_block-Keeps, transf_write-Keeps, remote_read-Keeps, transf_read-Keeps,
}
use http_proxy.Client.Lookup.{
  LooksUp, parse_request-LooksUp, parse_unless-LooksUp, conclude-Carries, pass_request-Carries,
  carried,
}
use http_proxy.Client.Origin.{returns, Connecting, client_block, request_resolv_blocking}
use http_proxy.Client.Readers.{
  parse_request, parse_unless_finished, conclude, pass_request, after_calls, uses_buffers,
  read_no_origin, read_send_req, read_into, stop_reading, client_read_in, client_read, remote_read,
}
use http_proxy.Client.Senders.{remote_write, client_write, transf_write, transf_read}

abbrev Goes : ℕ → Result → Type 0
Goes n r = LooksUp r.client (n + resolves r.calls)

-- Calls in front that look nothing up.
before-Goes :
    (n : ℕ) (calls : List Call) (o : Option Result) (r : Result)
    → resolves calls ≡ 0
    → ((r : Result) → o ≡ some r → Goes n r)
    → after_calls calls o ≡ some r
    → Goes n r
before-Goes n calls none r quiet all is = absurd cc
before-Goes n calls (some r') r quiet all is =
    subst (Goes n) (some-injective _ _ is)
      (subst (LooksUp r'.client) (omega (arith, resolves-append calls r'.calls)) (all r' refl))

received-Goes :
    (n : ℕ) (o : Option Buffer) (k : Buffer → Option Result) (r : Result)
    → ((b : Buffer) (r : Result) → k b ≡ some r → Goes n r)
    → (o >>= k) ≡ some r
    → Goes n r
received-Goes n none k r all is = absurd cc
received-Goes n (some b) k r all is = all b r is

module _ (fuel n : ℕ) (c : Client) (l : LooksUp c n) where
  read_no_origin-Goes : (x : ReadResult) (r : Result) → read_no_origin fuel c x ≡ some r → Goes n r
  unfolding unregister_client
  read_no_origin-Goes read_error r is = elim (Bool-cases (c.client_registered && uses_buffers c)) [
    | inl freed ↦ absurd (cc (rw freed at is))
    | inr kept ↦
        let gone : Client = unregister_client c in
        before-Goes n (unregister_client_calls c) (parse_unless_finished fuel gone >>= conclude) r
          (resolves-unregister_client_calls c)
          (λ r.
            carried conclude-Carries n (parse_unless_finished fuel gone) r
              (λ c' calls. parse_unless-LooksUp fuel n gone c' calls l))
          (rw kept at is)
  ]
  read_no_origin-Goes (got ys) r is =
      received-Goes n (receive c.pre_req_parse_buf ys)
        (λ b. parse_unless_finished fuel (record c { pre_req_parse_buf = b }) >>= conclude) r
        (λ b r.
          carried conclude-Carries n
            (parse_unless_finished fuel (record c { pre_req_parse_buf = b })) r
            (λ c' calls.
              parse_unless-LooksUp fuel n (record c { pre_req_parse_buf = b }) c' calls l))
        is

  read_send_req-Goes : (x : ReadResult) (r : Result) → read_send_req fuel c x ≡ some r → Goes n r
  read_send_req-Goes read_error r is =
      carried pass_request-Carries n (parse_request fuel c) r
        (λ c' calls. parse_request-LooksUp fuel n c c' calls l) is
  read_send_req-Goes (got ys) r is =
      received-Goes n (receive c.pre_req_parse_buf ys)
        (λ b. parse_request fuel (record c { pre_req_parse_buf = b }) >>= pass_request) r
        (λ b r.
          carried pass_request-Carries n (parse_request fuel (record c { pre_req_parse_buf = b })) r
            (λ c' calls.
              parse_request-LooksUp fuel n (record c { pre_req_parse_buf = b }) c' calls l))
        is

  same-Goes :
      (calls : List Call) (r : Result)
      → resolves calls ≡ 0
      → ◌≡◌ {A = Option Result} (some (record { client = c; sent = []; calls = calls })) (some r)
      → Goes n r
  same-Goes calls r z is =
      subst (Goes n) (some-injective _ _ is) (subst (LooksUp c) (omega arith) l)

  read_into-Goes :
      (b : Buffer) (read : ℕ → ReadResult) (k : ReadResult → Option Result) (r : Result)
      → ((x : ReadResult) (r : Result) → k x ≡ some r → Goes n r)
      → read_into b read (stop_reading c) k ≡ some r
      → Goes n r
  unfolding write_ptr
  read_into-Goes b read k r all is = elim (Bool-cases (can_write b)) [
    | inl room ↦ elim (Bool-cases (leb b.write b.limit)) [
      | inl inside ↦ all (read (b.limit - b.write)) r (rw (room, inside) at is)
      | inr outside ↦ absurd (cc (rw (room, outside) at is))
    ]
    | inr full ↦ same-Goes (set_interest c.client_fd op_noop ∷ []) r refl (rw full at is)
  ]

  client_read_in-Goes :
      (st : ClientState) (read : ℕ → ReadResult) (r : Result)
      → client_read_in st fuel read c ≡ some r
      → Goes n r
  unfolding client_read_in
  client_read_in-Goes no_origin read r is =
      read_into-Goes c.pre_req_parse_buf read (read_no_origin fuel c) r read_no_origin-Goes is
  client_read_in-Goes send_req read r is =
      read_into-Goes c.pre_req_parse_buf read (read_send_req fuel c) r read_send_req-Goes is
  client_read_in-Goes _ read r is = same-Goes [] r refl is

kept-Goes : (n : ℕ) (c : Client) (r : Result) → LooksUp c n → Keeps c r → Goes n r
kept-Goes n c r (inl (h, e, z)) k =
    inl (ap (λ s. get_or s 0 0) k.fqdn ∙ h, k.err ∙ e, omega (arith, k.no_resolve))
kept-Goes n c r (inr (done, kept, few)) k = inr (
  ap (λ rd. rd.parser_state) k.req_data ∙ done,
  λ e. kept (sym k.err ∙ e),
  omega (arith, k.no_resolve),
)

-- One call of a handler that returns.
pub data Step (c : Client) : Result → Type 0 where
  client_reads :
      {r : Result} (fuel : ℕ) (read : ℕ → ReadResult) → client_read fuel read c ≡ some r → Step c r
  client_writes : {r : Result} (write : ℕ → Written) → client_write write c ≡ some r → Step c r
  client_blocks :
      {r : Result} (socket : Option ℕ) (k : Connecting) (noop_set put_in : Bool)
      → client_block socket k noop_set put_in c ≡ returns r
      → Step c r
  remote_reads :
      {r : Result} (fuel : ℕ) (read : ℕ → ReadResult)
      → remote_read fuel read c ≡ some (returns r)
      → Step c r
  remote_writes : {r : Result} (write : ℕ → Written) → remote_write write c ≡ some r → Step c r
  transf_reads :
      {r : Result} (print_hex : ℕ → Bytes) (allocated : Bool) (read : ℕ → ReadResult)
      → transf_read print_hex allocated read c ≡ some r
      → Step c r
  transf_writes : {r : Result} (write : ℕ → Written) → transf_write write c ≡ some r → Step c r

-- From a new client, calls of its handlers, and the ends of the threads that look a host up, lead to this
-- client, and the calls that they made.
pub data Lives : Client → List Call → Type 0 where
  born :
      {c : Client} {calls : List Call} (g : Given) (accepted : Option ℕ) (put_in : Bool)
      → listen_read_handler g accepted put_in ≡ some (c, calls)
      → Lives c calls
  handled :
      {c c' : Client} {calls calls' : List Call} {r : Result}
      → Lives c calls
      → Step c r
      → c' ≡ r.client
      → calls' ≡ calls ++ r.calls
      → Lives c' calls'
  looked_up :
      {c c' : Client} {calls : List Call} (found : Bool)
      → Lives c calls
      → c' ≡ request_resolv_blocking found c
      → Lives c' calls

Step-Goes : {n : ℕ} {c : Client} {r : Result} → LooksUp c n → Step c r → Goes n r
unfolding client_read
Step-Goes {n} {c} {r} l (client_reads fuel read e) = client_read_in-Goes fuel n c l c.state read r e
Step-Goes {n} {c} {r} l (client_writes write e) = kept-Goes n c r l (client_write-Keeps write c r e)
Step-Goes {n} {c} {r} l (client_blocks socket k a b e) =
    kept-Goes n c r l (client_block-Keeps socket k a b c r e)
Step-Goes {n} {c} {r} l (remote_reads fuel read e) =
    kept-Goes n c r l (remote_read-Keeps fuel read c r e)
Step-Goes {n} {c} {r} l (remote_writes write e) = kept-Goes n c r l (remote_write-Keeps write c r e)
Step-Goes {n} {c} {r} l (transf_reads hex allocated read e) =
    kept-Goes n c r l (transf_read-Keeps hex allocated read c r e)
Step-Goes {n} {c} {r} l (transf_writes write e) = kept-Goes n c r l (transf_write-Keeps write c r e)

no_host : (s : Bytes) → get_or (set s 0 0) 0 0 ≡ 0
no_host [] = refl
no_host (x ∷ s) = refl

born-LooksUp :
    (g : Given) (accepted : Option ℕ) (put_in : Bool) {c : Client} {calls : List Call}
    → listen_read_handler g accepted put_in ≡ some (c, calls)
    → LooksUp c (resolves calls)
unfolding listen_read_handler client_new
born-LooksUp g none put_in e = absurd cc
born-LooksUp g (some fd) put_in e =
    subst (λ t. LooksUp t.0 (resolves t.1)) (some-injective _ _ e)
      (inl (no_host g.junk.host.fqdn, refl, refl))

Lives-LooksUp : {c : Client} {calls : List Call} → Lives c calls → LooksUp c (resolves calls)
unfolding request_resolv_blocking
Lives-LooksUp (born g accepted put_in e) = born-LooksUp g accepted put_in e
Lives-LooksUp (handled {calls = calls} {r = r} life step e f) =
    rw (e, f, resolves-append calls r.calls) (Step-Goes (Lives-LooksUp life) step)
Lives-LooksUp (looked_up found life e) = rw e (Lives-LooksUp life)

-- Whatever handlers are called for a client and whatever the system answers them, from `accept` on and
-- as long as none of them faults, its host is looked up at most once, and its error is never
-- KEEPALIVE_HOST_NO_MATCH: the check of a second request's host is never reached.
pub Lives-looks_up_once :
    {c : Client} {calls : List Call}
    → Lives c calls
    → (resolves calls ≤ 1) × (c.err ≢ keepalive_host_no_match)
Lives-looks_up_once life = elim (Lives-LooksUp life) [
  | inl (h, e, z) ↦ (omega arith, λ k. cc)
  | inr (done, kept, few) ↦ (few, kept)
]
