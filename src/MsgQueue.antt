-- ===== src/MsgQueue.antt =====
-- msg_queue.c: the queue of messages that wait for the administrator, a linked list between the
-- pointers `first` and `last`.
pub mod Fifo
mod Tests
use http_proxy.Base.{
  ℕ, zero, suc, Bool, true, false, Option, none, some, List, [], ◌∷◌, ◌++◌, ◌==◌, if◌then◌else◌, ℤ,
  pos, negsuc, length,
}
use http_proxy.Serializer.{Msg}

-- `struct qnode`. A pointer to a node is the number of nodes allocated before it; `none` is NULL.
pub record Node : Type 0 where
  pub msg : Msg
  pub next : Option ℕ

-- The nodes in the order of their allocation, and the two static pointers. No node is freed.
pub record Queue : Type 0 where
  pub nodes : List Node
  pub first : Option ℕ
  pub last : Option ℕ

abbrev pub empty_queue : Queue
empty_queue = record { nodes = []; first = none; last = none }

-- The other two static variables, `msg_fd` and `msg_s`, that no function of the file reads.
pub record Target : Type 0 where
  pub msg_fd : ℤ
  pub msg_s : ℕ

abbrev pub q_init : ℤ → ℕ → Target
q_init fd s = record { msg_fd = fd; msg_s = s }

abbrev pub node_at : List Node → ℕ → Option Node
node_at [] p = none
node_at (n ∷ ns) zero = some n
node_at (n ∷ ns) (suc p) = node_at ns p

-- `p->next = next`
abbrev pub link : List Node → ℕ → Option ℕ → List Node
link [] p next = []
link (n ∷ ns) zero next = record n { next = next } ∷ ns
link (n ∷ ns) (suc p) next = n ∷ link ns p next

abbrev pub is_null : Option ℕ → Bool
is_null none = true
is_null (some p) = false

abbrev pub ptr_eq : Option ℕ → Option ℕ → Bool
ptr_eq none none = true
ptr_eq none (some q) = false
ptr_eq (some p) none = false
ptr_eq (some p) (some q) = p == q

abbrev pub q_is_empty : Queue → Bool
q_is_empty q = is_null q.first

-- `*p`; `none` when there is nothing at `p`.
abbrev pub deref : List Node → Option ℕ → Option Node
deref ns none = none
deref ns (some p) = node_at ns p

-- The message, NULL for an empty queue; `none` when a pointer is followed to nothing.
unfoldable pub q_poll : Queue → Option (Option Msg × Queue)
q_poll q = if q_is_empty q then some (none, q) else elim (deref q.nodes q.first) [
  | none ↦ none
  | some node ↦
      let last' = if ptr_eq q.first q.last then none else q.last in
      some (some node.msg, record q { last = last'; first = node.next })
]

-- `last->next = qnode; last = last->next`
abbrev pub append : List Node → Option ℕ → ℕ → Option ℕ → Option (ℤ × Queue)
append ns none qnode first = none
append ns (some p) qnode first = elim (node_at ns p) [
  | none ↦ none
  | some _ ↦
      some (pos 0, record { nodes = link ns p (some qnode); first = first; last = some qnode })
]

-- `allocated` is false when `malloc` returns NULL.
unfoldable pub q_offer : Bool → Msg → Queue → Option (ℤ × Queue)
q_offer allocated msg q =
    let qnode = length q.nodes in
    let nodes' = q.nodes ++ (record { msg = msg; next = none } ∷ []) in
    if allocated
    then if q_is_empty q
      then some (pos 0, record { nodes = nodes'; first = some qnode; last = some qnode })
      else append nodes' q.last qnode q.first
    else some (negsuc 0, q)
