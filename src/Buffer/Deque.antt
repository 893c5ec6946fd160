-- ===== src/Buffer/Deque.antt =====
-- What buffer.c promises: a queue of bytes with a bounded room behind its end for writing, and a
-- bounded room before its front, where bytes can be put back. There are no pointers in it.
use http_proxy.Base.{ℕ, ◌+◌, ◌-◌, Bool, List, [], ◌∷◌, ◌++◌, ltb, if◌then◌else◌}

pub record Deque : Type 0 where
  pub items : List ℕ
  pub front : ℕ
  pub back : ℕ
  -- The rooms of the empty queue: taking the last byte gives them back.
  pub front_home : ℕ
  pub back_home : ℕ

-- The calls of a client, and what it sees of each.
pub data Op : Type 0 where
  put : ℕ → Op
  put_back : ℕ → Op
  take_one : Op
  look : Op
  room : Op

pub data Reply : Type 0 where
  done : Reply
  byte : ℕ → Reply
  rooms : Bool → Bool → Bool → Bool → Reply

abbrev pub is_empty : List ℕ → Bool
is_empty [] = Bool.true
is_empty (_ ∷ _) = Bool.false

abbrev pub first : List ℕ → ℕ
first [] = 0
first (x ∷ _) = x

abbrev pub put_end : Deque → ℕ → Deque
put_end d c =
    if ltb 0 d.back then record d { items = d.items ++ (c ∷ []); back = d.back - 1 } else d

abbrev pub put_front : Deque → ℕ → Deque
put_front d c = if ltb 0 d.front then record d { items = c ∷ d.items; front = d.front - 1 } else d

abbrev pub rest_of : Deque → List ℕ → Deque
rest_of d [] = d
rest_of d (_ ∷ []) = record d { items = []; front = d.front_home; back = d.back_home }
rest_of d (_ ∷ x ∷ xs) = record d { items = x ∷ xs; front = d.front + 1 }

abbrev pub step : Deque → Op → Reply
step d (put c) = done
step d (put_back c) = done
step d take_one = byte (first d.items)
step d look = byte (first d.items)
step d room =
    rooms (ltb 0 d.back) (if is_empty d.items then Bool.false else Bool.true) (ltb 0 d.front)
      (ltb d.front d.front_home)

abbrev pub after : Deque → Op → Deque
after d (put c) = put_end d c
after d (put_back c) = put_front d c
after d take_one = rest_of d d.items
after d look = d
after d room = d

unfoldable pub run : Deque → List Op → List Reply
run d [] = []
run d (op ∷ ops) = step d op ∷ run (after d op) ops
