-- ===== src/Selector/Register.antt =====
-- selector.c: registering a descriptor, changing its interest, and taking it out again. In all of
-- them `none` is an access behind the end of `fds`, an FD_CLR of -1 or a failed assert.
use http_proxy.Base.{
  ℕ, Bool, true, Option, none, some, ◌>>=◌, ltb, leb, if◌then◌else◌, ℤ, pos, negsuc, set,
}
use http_proxy.Selector.{
  Item, Selector, Interest, Status, success, iargs, fdinuse, Memory, zero_item, item_init, op_noop,
  item_at, items_max_size, ensure_capacity,
}
use http_proxy.Selector.Items.{
  used, Key, key_of, Callback, Handlers, items_update_fdset_for_fd, items_max_fd,
}

-- INVALID_FD
abbrev pub invalid_fd : ℤ → Bool
invalid_fd (pos n) = leb items_max_size n
invalid_fd (negsuc n) = true

-- The descriptor of a call that goes on, as an index.
abbrev pub index_of : ℤ → ℕ
index_of (pos n) = n
index_of (negsuc n) = 0

-- `*item = x` for the item at an index.
abbrev pub put_item : ℕ → Item → Selector → Selector
put_item i x s = record s { fds = set s.fds i x }

abbrev pub succeed : Option Selector → Option (Status × Selector)
succeed none = none
succeed (some s) = some (success, s)

-- Step 2 of `selector_register`, for the item found at `ufd`.
abbrev pub fill_item : ℕ → ℕ → Interest → ℕ → Selector → Item → Option (Status × Selector)
fill_item ufd handler interest data_at s item =
    let item' : Item = record {
      fd = some ufd;
      interest = interest;
      handler = handler;
      data_at = data_at;
    } in
    let s' : Selector = put_item ufd item' s in
    if used item
    then some (fdinuse, s)
    else succeed (
        items_update_fdset_for_fd item'
          (record s' { max_fd = if ltb s.max_fd ufd then ufd else s.max_fd }))

abbrev pub register_at : ℕ → ℕ → Interest → ℕ → Status × Selector → Option (Status × Selector)
register_at ufd handler interest data_at (success, s) =
    item_at s.fds ufd >>= fill_item ufd handler interest data_at s
register_at ufd handler interest data_at (status, s) = some (status, s)

-- A handler is `none` for a null pointer.
unfoldable pub selector_register :
    Memory → ℤ → Option ℕ → Interest → ℕ → Selector → Option (Status × Selector)
unfolding ensure_capacity
selector_register m fd none interest data_at s = some (iargs, s)
selector_register m fd (some handler) interest data_at s =
    let ufd = index_of fd in
    if invalid_fd fd
    then some (iargs, s)
    else (if ltb s.fd_size ufd then ensure_capacity m ufd s else some (success, s))
      >>= register_at ufd handler interest data_at

unfoldable pub selector_set_interest : ℤ → Interest → Selector → Option (Status × Selector)
selector_set_interest fd i s =
    if invalid_fd fd
    then some (iargs, s)
    else item_at s.fds (index_of fd) >>= λ item.
        let item' : Item = record item { interest = i } in
        if used item
        then succeed (items_update_fdset_for_fd item' (put_item (index_of fd) item' s))
        else some (iargs, s)

-- For the descriptor of a key.
unfoldable pub selector_set_interest_key : ℤ → Interest → Selector → Option (Status × Selector)
unfolding selector_set_interest
selector_set_interest_key fd i s =
    if invalid_fd fd then some (iargs, s) else selector_set_interest fd i s

-- `if (item->handler->handle_close != NULL)`
abbrev pub call_if : Option Callback → Key → Selector → Option Selector
call_if none key s = some s
call_if (some call) key s = call key s

-- Behind `handle_close`, for the item that is then at the index.
abbrev pub empty_item : ℕ → Selector → Item → Option (Status × Selector)
unfolding items_max_fd
empty_item ufd s item =
    let item' : Item = record item { interest = op_noop } in
    items_update_fdset_for_fd item' (put_item ufd item' s) >>= λ s'.
    let s'' : Selector = put_item ufd (item_init zero_item) s' in
    items_max_fd s'' >>= λ max. some (success, record s'' { max_fd = max })

unfoldable pub selector_unregister_fd : Handlers → ℤ → Selector → Option (Status × Selector)
unfolding items_max_fd
selector_unregister_fd handlers fd s =
    let ufd = index_of fd in
    if invalid_fd fd
    then some (iargs, s)
    else item_at s.fds ufd >>= λ item.
        if used item
        then (call_if (handlers item.handler).handle_close (key_of item) s >>= λ s'.
            item_at s'.fds ufd >>= empty_item ufd s')
        else some (iargs, s)
