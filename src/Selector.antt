-- ===== src/Selector.antt =====
-- selector.c: the table of the registered descriptors, and the sets for select(2).
pub mod Items
pub mod Register
pub mod Dispatch
pub mod Capacity
pub mod Invariant
pub mod Emptying
pub mod Registry
pub mod Registering
pub mod Creating
pub mod Safety
pub mod Interests
mod Tests
use http_proxy.Base.{
  ℕ, zero, suc, ◌+◌, ◌-◌, ◌/◌, ◌%◌, ◌^◌, Bool, true, false, Option, none, some, List, [], ◌∷◌, ◌++◌,
  ◌==◌, ltb, leb, if◌then◌else◌, ℤ, pos, negsuc, length, set,
}

pub data Status : Type 0 where
  success enomem maxfd iargs fdinuse io : Status

-- The bits OP_READ and OP_WRITE of an `fd_interest`.
pub record Interest : Type 0 where
  pub op_read : Bool
  pub op_write : Bool

abbrev pub op_noop : Interest
op_noop = record { op_read = false; op_write = false }

-- `struct item`: an unused one has the descriptor -1, here `none`. A handler is the address of an
-- `fd_handler`, and `data` that of the data the callbacks get.
pub record Item : Type 0 where
  pub fd : Option ℕ
  pub interest : Interest
  pub handler : ℕ
  pub data_at : ℕ

-- What `memset` with 0, or `calloc`, leaves.
abbrev pub zero_item : Item
zero_item = record { fd = some 0; interest = op_noop; handler = 0; data_at = 0 }

-- An `fd_set`, with the macros of select(2) for descriptors below FD_SETSIZE.
abbrev pub FdSet : Type 0
FdSet = ℕ → Bool

abbrev pub fd_zero : FdSet
fd_zero k = false

abbrev pub fd_set : ℕ → FdSet → FdSet
fd_set fd s k = if k == fd then true else s k

abbrev pub fd_clr : ℕ → FdSet → FdSet
fd_clr fd s k = if k == fd then false else s k

-- `struct fdselector`, without the times and the thread. `fds` is empty for a null pointer, and
-- `resolution_jobs` has the descriptors of the finished jobs, the last one in front.
pub record Selector : Type 0 where
  pub fds : List Item
  pub fd_size : ℕ
  pub max_fd : ℕ
  pub master_r : FdSet
  pub master_w : FdSet
  pub slave_r : FdSet
  pub slave_w : FdSet
  pub resolution_jobs : List ℕ

abbrev pub items_max_size : ℕ
items_max_size = 1024

-- `sizeof(struct item)`, and SIZE_MAX.
abbrev pub element_size : ℕ
element_size = 24

abbrev pub size_max : ℕ
size_max = 2 ^ 64 - 1

-- `while (tmp != 0)`, on the width of `tmp` as fuel.
unfoldable pub count_bits : ℕ → ℕ → ℕ → ℕ
count_bits zero tmp bits = bits
count_bits (suc fuel) tmp bits =
    let rest = count_bits fuel (tmp / 2) (bits + 1) in if tmp == 0 then bits else rest

-- `none` is the failed assert.
unfoldable pub next_capacity : ℕ → Option ℕ
unfolding count_bits
next_capacity n =
    let tmp = 2 ^ count_bits 64 n 0 % 2 ^ 64 in
    if leb n tmp then some ((if ltb items_max_size tmp then items_max_size else tmp) + 1) else none

-- The item at an index; `none` behind the end of the memory.
abbrev pub item_at : List Item → ℕ → Option Item
item_at [] i = none
item_at (x ∷ xs) zero = some x
item_at (x ∷ xs) (suc i) = item_at xs i

abbrev pub item_init : Item → Item
item_init x = record x { fd = none }

-- `n` items behind what there is, with the memory's old contents `junk`, and then `items_init`.
abbrev pub new_items : ℕ → Item → List Item
new_items zero junk = []
new_items (suc n) junk = item_init junk ∷ new_items n junk

-- What the allocator does: whether there is memory, and what is in it.
pub record Memory : Type 0 where
  pub enough : Bool
  pub junk : Item

-- With room for `new_size` items: the old ones, and the others initialised.
abbrev pub resized : ℕ → Item → Selector → Selector
resized new_size junk s = record s {
  fds = s.fds ++ new_items (new_size - s.fd_size) junk;
  fd_size = new_size;
}

abbrev pub is_null : List Item → Bool
is_null [] = true
is_null (x ∷ xs) = false

-- The branch for a null pointer, and the other one.
abbrev pub allocate : Memory → ℕ → Selector → Status × Selector
allocate m new_size s =
    if is_null s.fds
    then if m.enough then (success, resized new_size zero_item s) else (enomem, s)
    else if ltb (size_max / element_size) new_size
    then (enomem, s)
    else if m.enough
    then (success, resized new_size m.junk s)
    else (enomem, s)

unfoldable pub ensure_capacity : Memory → ℕ → Selector → Option (Status × Selector)
unfolding next_capacity
ensure_capacity m n s =
    if ltb n s.fd_size
    then some (success, s)
    else if ltb items_max_size n
    then some (maxfd, s)
    else elim (next_capacity n) [ none ↦ none | some new_size ↦ some (allocate m new_size s) ]

-- The state behind `memset(ret, 0x00, size)` in `selector_new`.
abbrev pub blank : Selector
blank = record {
  fds = [];
  fd_size = 0;
  max_fd = 0;
  master_r = fd_zero;
  master_w = fd_zero;
  slave_r = fd_zero;
  slave_w = fd_zero;
  resolution_jobs = [];
}

-- NULL for a failure.
abbrev pub created : Option (Status × Selector) → Option (Option Selector)
created none = none
created (some (success, s)) = some (some s)
created (some (_, s)) = some none

-- `selector_new`, when there is memory for the struct itself.
unfoldable pub selector_new : Memory → ℕ → Option (Option Selector)
unfolding ensure_capacity
selector_new m initial_elements = created (ensure_capacity m initial_elements blank)
