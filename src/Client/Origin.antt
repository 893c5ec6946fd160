-- ===== src/Client/Origin.antt =====
-- client.c and client_handlers.c: what a client does about its origin. `client_set_host` is called by the
-- request parser, `client_block` when the host has been looked up. `none` is an access out of bounds.
use http_proxy.Base.{
  ℕ, suc, Bool, true, not, ◌&&◌, Option, none, some, ◌>>=◌, List, [], ◌∷◌, Bytes, ◌==◌, leb,
  if◌then◌else◌, get_or,
}
use http_proxy.CStrings.{strncmp_equal, strnlen, strncpy}
use http_proxy.Selector.{op_noop}
use http_proxy.Client.{
  send_req, cli_error, keepalive_host_no_match, invalid_host, Client, op_write, Call, set_interest,
  register, resolve, connect, Result, unregister_client, unregister_client_calls,
}

abbrev pub max_domain_name_length : ℕ
max_domain_name_length = 255

abbrev pub refused : Client → Client × List Call
refused c = (record c { err = keepalive_host_no_match; state = cli_error }, [])

-- A host is known already.
abbrev pub keep_alive : ℕ → Client → Bool → Client × List Call
keep_alive port c same =
    if same && port == c.host.port then (record c { state = send_req }, []) else refused c

-- The name is stored, and a thread looks it up.
abbrev pub start_thread : ℕ → Client → Bytes → Option (Client × List Call)
start_thread port c fqdn =
    some (record c { host = record (c.host) { fqdn = fqdn; port = port } }, resolve ∷ [])

-- Behind the length of the host.
abbrev pub new_host : Bytes → ℕ → Client → ℕ → Option (Client × List Call)
new_host host port c len =
    if leb len max_domain_name_length
    then strncpy c.host.fqdn host max_domain_name_length >>= start_thread port c
    else some (record c { err = invalid_host; state = cli_error }, [])

unfoldable pub client_set_host : Bytes → ℕ → Client → Option (Client × List Call)
unfolding strncmp_equal strnlen strncpy
client_set_host host port c =
    if not (get_or c.host.fqdn 0 0 == 0)
    then (strncmp_equal max_domain_name_length host c.host.fqdn >>= λ same.
        some (keep_alive port c same))
    else strnlen host (suc max_domain_name_length) >>= new_host host port c

-- What `connect(2)` gives; `in_progress` is -1 with EINPROGRESS.
pub data Connecting : Type 0 where
  connected in_progress failed : Connecting

-- What a handler does: it returns, or it ends the program.
pub data Handled : Type 0 where
  returns : Result → Handled
  exits : ℕ → Handled

abbrev pub done : Client → List Call → Handled
done c calls = returns (record { client = c; sent = []; calls = calls })

-- Behind `connect`. The last arguments say whether `selector_set_interest_key` and `selector_register`
-- succeed.
abbrev pub after_connect : ℕ → Client → Bool → Bool → Connecting → Handled
after_connect fd c noop_set put_in connected = done c (connect fd ∷ [])
after_connect fd c noop_set put_in failed = done c (connect fd ∷ [])
after_connect fd c noop_set put_in in_progress =
    if noop_set
    then (if put_in
        then done (record c { origin_registered = true })
            (connect fd ∷ set_interest c.client_fd op_noop ∷ register (some fd) op_write ∷ [])
        else exits 13)
    else exits 13

-- `socket` is `none` when there is no new socket.
unfoldable pub client_block : Option ℕ → Connecting → Bool → Bool → Client → Handled
unfolding unregister_client unregister_client_calls
client_block socket connecting noop_set put_in c =
    if c.host.resolved
    then elim socket [
      | none ↦ done (record c { state = cli_error }) []
      | some fd ↦
          after_connect fd (record c { state = send_req; origin_fd = some fd }) noop_set put_in
            connecting
    ]
    else done (unregister_client c) (unregister_client_calls c)

-- The thread that `client_set_host` starts: what `getaddrinfo` finds, before it calls back.
unfoldable pub request_resolv_blocking : Bool → Client → Client
request_resolv_blocking found c = record c { host = record (c.host) { resolved = found } }
