-- ===== src/Selector/Dispatch.antt =====
-- selector.c: one wait of `selector_select`, and the callbacks it makes. `none` is a failed assert, a
-- call of a null pointer or an access behind the end of `fds`.
use http_proxy.Base.{
  ℕ, zero, suc, ◌+◌, Bool, false, ◌&&◌, Option, none, some, ◌>>=◌, List, [], ◌∷◌, if◌then◌else◌,
}
use http_proxy.Selector.{Item, Selector, FdSet, Status, success, enomem, io, item_at}
use http_proxy.Selector.Items.{used, Key, key_of, Callback, Handlers}

-- `FD_ISSET(fd, set)`; no set has the descriptor -1 of an unused item.
abbrev pub is_set : Option ℕ → FdSet → Bool
is_set none set = false
is_set (some fd) set = set fd

-- The call of a handler that has to be there.
abbrev pub must_call : Option Callback → Key → Selector → Option Selector
must_call none key s = none
must_call (some call) key s = call key s

-- The part for reading of a round of `handle_iteration`.
abbrev pub read_part : Handlers → Item → Selector → Option Selector
read_part handlers item s =
    if is_set item.fd s.slave_r && item.interest.op_read
    then must_call (handlers item.handler).handle_read (key_of item) s
    else some s

-- The part for writing: the item is as the read handler left it, the key is not.
abbrev pub write_part : Handlers → ℕ → Key → Selector → Item → Option Selector
write_part handlers i key s item =
    if s.slave_w i && item.interest.op_write
    then must_call (handlers item.handler).handle_write key s
    else some s

unfoldable pub handle_item : Handlers → ℕ → Selector → Option Selector
handle_item handlers i s = item_at s.fds i >>= λ item.
    if used item
    then (read_part handlers item s >>= λ s'.
        item_at s'.fds i >>= write_part handlers i (key_of item) s')
    else some s

-- `for (int i = 0; i <= n; i++)`, with the number of rounds that are left.
unfoldable pub iteration_loop : Handlers → ℕ → ℕ → Selector → Option Selector
unfolding handle_item
iteration_loop handlers zero i s = some s
iteration_loop handlers (suc n) i s = handle_item handlers i s >>= iteration_loop handlers n (i + 1)

unfoldable pub handle_iteration : Handlers → Selector → Option Selector
unfolding iteration_loop
handle_iteration handlers s = iteration_loop handlers (suc s.max_fd) 0 s

unfoldable pub jobs_loop : Handlers → List ℕ → Selector → Option Selector
jobs_loop handlers [] s = some s
jobs_loop handlers (fd ∷ jobs) s = item_at s.fds fd >>= λ item.
    (if used item then must_call (handlers item.handler).handle_block (key_of item) s else some s)
    >>= jobs_loop handlers jobs

unfoldable pub handle_block_notifications : Handlers → Selector → Option Selector
unfolding jobs_loop
handle_block_notifications handlers s =
    jobs_loop handlers s.resolution_jobs s >>= λ s'. some (record s' { resolution_jobs = [] })

-- `allocated` is false when `malloc` returns NULL.
unfoldable pub selector_notify_block : Bool → ℕ → Selector → Status × Selector
selector_notify_block allocated fd s =
    if allocated
    then (success, record s { resolution_jobs = fd ∷ s.resolution_jobs })
    else (enomem, s)

-- What `pselect` says: the descriptors that are ready to be read and written, or an error by `errno`:
-- EAGAIN or EINTR, EBADF, or another one.
pub data Selected : Type 0 where
  ready : FdSet → FdSet → Selected
  interrupted bad_descriptor other_error : Selected

abbrev pub copy_sets : Selector → Selector
copy_sets s = record s { slave_r = s.master_r; slave_w = s.master_w }

abbrev pub answer_success : Option Selector → Option (Status × Selector)
answer_success none = none
answer_success (some s) = some (success, s)

unfoldable pub selector_select : Handlers → Selected → Selector → Option (Status × Selector)
unfolding handle_iteration handle_block_notifications
selector_select handlers (ready r w) s = answer_success (
    handle_iteration handlers (record (copy_sets s) { slave_r = r; slave_w = w })
    >>= handle_block_notifications handlers)
selector_select handlers interrupted s =
    answer_success (handle_block_notifications handlers (copy_sets s))
selector_select handlers bad_descriptor s = some (io, copy_sets s)
selector_select handlers other_error s = some (io, copy_sets s)
