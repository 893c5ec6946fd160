-- ===== src/Selector/Items.antt =====
-- selector.c: what is kept up to date besides an item, and the callbacks of the handlers.
use http_proxy.Base.{
  ℕ, zero, suc, Bool, true, false, Option, none, some, List, [], ◌∷◌, ltb, if◌then◌else◌,
}
use http_proxy.Selector.{Item, Selector, FdSet, Interest, fd_set, fd_clr}

-- ITEM_USED
abbrev pub used : Item → Bool
used x = elim x.fd [ none ↦ false | some f ↦ true ]

-- `if (item->fd > max) max = item->fd`, for an item in use.
abbrev pub larger_fd : Option ℕ → ℕ → ℕ
larger_fd none max = max
larger_fd (some f) max = if ltb max f then f else max

-- The loop of `items_max_fd` over the next items, as many as the second argument says; `none` is an
-- access behind the end of the memory.
unfoldable pub max_loop : List Item → ℕ → ℕ → Option ℕ
max_loop xs zero max = some max
max_loop [] (suc n) max = none
max_loop (x ∷ xs) (suc n) max = max_loop xs n (larger_fd x.fd max)

unfoldable pub items_max_fd : Selector → Option ℕ
unfolding max_loop
items_max_fd s = max_loop s.fds (suc s.max_fd) 0

abbrev pub set_when : Bool → ℕ → FdSet → FdSet
set_when true fd set = fd_set fd set
set_when false fd set = set

abbrev pub with_fdsets : ℕ → Interest → Selector → Selector
with_fdsets fd interest s = record s {
  master_r = set_when interest.op_read fd (fd_clr fd s.master_r);
  master_w = set_when interest.op_write fd (fd_clr fd s.master_w);
}

-- `none` is an FD_CLR of the descriptor -1.
abbrev pub items_update_fdset_for_fd : Item → Selector → Option Selector
items_update_fdset_for_fd x s = elim x.fd [
  | none ↦ none
  | some fd ↦ some (with_fdsets fd x.interest s)
]

-- `struct selector_key`, without the selector.
pub record Key : Type 0 where
  pub fd : Option ℕ
  pub data_at : ℕ

abbrev pub key_of : Item → Key
key_of x = record { fd = x.fd; data_at = x.data_at }

-- A callback works on the selector; `none` is a failed assert or an access out of bounds in it.
abbrev pub Callback : Type 0
Callback = Key → Selector → Option Selector

-- The `fd_handler` at an address; a callback is `none` for a null pointer.
pub record Handler : Type 0 where
  pub handle_read : Option Callback
  pub handle_write : Option Callback
  pub handle_block : Option Callback
  pub handle_close : Option Callback

abbrev pub Handlers : Type 0
Handlers = ℕ → Handler
