-- ===== src/Buffer/Refine.antt =====
-- A valid buffer behaves as the bounded queue of the bytes between its two pointers.
use http_proxy.Base.{
  ℕ, suc, ◌+◌, ◌-◌, ◌≤◌, ◌<◌, ◌≡◌, ◌∙◌, refl, sym, ap, ap₂, true, false, List, [], ◌∷◌, ◌++◌, ltb,
  ◌==◌, if◌then◌else◌, get_or, set, stretch, stretch-set_before, stretch-set_end, get_or-set_self,
  Bool-cases, inl, inr, arith,
}
use http_proxy.Buffer.{
  Buffer, can_read, can_write, can_write_reverse, is_reserved, peek, read, write, write_reverse,
}
use http_proxy.Buffer.Asserts.{
  written, unread, advanced, write-written, write_full, write_reverse-unread, write_reverse_full,
  read-advanced, read_empty,
}
use http_proxy.Buffer.Deque
use http_proxy.Buffer.Deque.{
  Deque, Op, put, put_back, take_one, look, room, Reply, done, byte, rooms, first, is_empty,
}
use http_proxy.Buffer.Invariant.{IsValid, write-IsValid, read-IsValid, write_reverse-IsValid}

-- The unread bytes, and how many bytes stand unread in the reserved zone at least.
abbrev pub contents : Buffer → List ℕ
contents b = stretch b.mem b.read (b.write - b.read)

abbrev pub view : Buffer → Deque
view b = record {
  items = contents b;
  front = b.read;
  back = b.limit - b.write;
  front_home = b.inf_limit;
  back_home = b.limit - b.inf_limit;
}

pub stretch-congr :
    (mem : List ℕ) {lo lo' n n' : ℕ} → lo ≡ lo' → n ≡ n' → stretch mem lo n ≡ stretch mem lo' n'
stretch-congr mem p q = ap₂ (λ l k. stretch mem l k) p q

-- `stretch` matches on `suc`, the code compares pointers.
pub contents-cons :
    (b : Buffer)
    → b.read < b.write
    → contents b ≡ get_or b.mem b.read 0 ∷ stretch b.mem (b.read + 1) (b.write - (b.read + 1))
contents-cons b h = stretch-congr b.mem {n' = suc (b.write - (b.read + 1))} refl (omega arith)

pub contents-nil : (b : Buffer) → b.write ≤ b.read → contents b ≡ []
contents-nil b h = stretch-congr b.mem {n' = 0} refl (omega arith)

pub contents-written :
    {b : Buffer} (c : ℕ)
    → IsValid b
    → b.write < b.limit
    → contents (written b c) ≡ contents b ++ (c ∷ [])
contents-written {b} c v h =
    stretch-congr (set b.mem b.write c) {n' = suc (b.write - b.read)} refl (omega arith)
    ∙ stretch-set_end b.mem b.write c b.read (b.write - b.read) (omega arith) (omega arith)

pub contents-unread :
    {b : Buffer} (c : ℕ) → IsValid b → 0 < b.read → contents (unread b c) ≡ c ∷ contents b
contents-unread {b} c v h =
    stretch-congr (set b.mem (b.read - 1) c) {n' = suc (b.write - b.read)} refl (omega arith)
    ∙ ap₂ ◌∷◌ (get_or-set_self b.mem (b.read - 1) c 0 (omega arith)) (
        stretch-set_before b.mem (b.read - 1) c (b.read - 1 + 1) (b.write - b.read) (omega arith)
        ∙ stretch-congr b.mem (omega arith) refl)

module _ {b : Buffer} (v : IsValid b) where
  pub view-write : (c : ℕ) → view (write b c) ≡ Deque.put_end (view b) c
  view-write c = elim (Bool-cases (ltb b.write b.limit)) [
    | inl h ↦ rw (write-written b c (ground arith)) (ground (arith, contents-written c v))
    | inr h ↦ rw (write_full b c (ground arith)) (ground arith)
  ]

  pub view-write_reverse : (c : ℕ) → view (write_reverse b c) ≡ Deque.put_front (view b) c
  view-write_reverse c = elim (Bool-cases (ltb 0 b.read)) [
    | inl h ↦ rw (write_reverse-unread b c (ground arith)) (ground (arith, contents-unread c v))
    | inr h ↦ rw (write_reverse_full b c (ground arith)) (ground arith)
  ]

  first-contents : b.read < b.write → first (contents b) ≡ get_or b.mem b.read 0
  first-contents h = rw (contents-cons b h)

  pub view-advanced : b.read < b.write → view (advanced b) ≡ Deque.rest_of (view b) (contents b)
  view-advanced h = elim (Bool-cases (b.read + 1 == b.write)) [
    | inl e ↦
        rw (contents-cons b h, contents-nil (record b { read = b.read + 1 }) (ground arith))
          (ground (arith, contents-nil (advanced b)))
    | inr e ↦
        rw (contents-cons b h, contents-cons (record b { read = b.read + 1 }) (ground arith))
          (ground (arith, contents-cons (record b { read = b.read + 1 })))
  ]

  pub view-read :
      let (c, b') = read b in
      (c ≡ first (contents b)) × (view b' ≡ Deque.rest_of (view b) (contents b))
  view-read = elim (Bool-cases (ltb b.read b.write)) [
    | inl h ↦
        let lt : b.read < b.write = ground arith in
        rw (read-advanced b lt) (sym (first-contents lt), view-advanced lt)
    | inr h ↦
        let le : b.write ≤ b.read = ground arith in
        rw (read_empty b le, contents-nil b le) (refl, refl)
  ]

  pub peek-first : peek b ≡ first (contents b)
  unfolding peek
  peek-first = ground (arith, contents-cons b, contents-nil b)

  can_read-is_empty : can_read b ≡ (if is_empty (contents b) then false else true)
  unfolding can_read
  can_read-is_empty = ground (arith, contents-cons b, contents-nil b)
  -- The calls on a buffer, with what each returns.

pub step : Buffer → Op → Reply
step b (put c) = done
step b (put_back c) = done
step b take_one = byte (read b).0
step b look = byte (peek b)
step b room = rooms (can_write b) (can_read b) (can_write_reverse b) (is_reserved b)

pub after : Buffer → Op → Buffer
after b (put c) = write b c
after b (put_back c) = write_reverse b c
after b take_one = (read b).1
after b look = b
after b room = b

pub run : Buffer → List Op → List Reply
run b [] = []
run b (op ∷ ops) = step b op ∷ run (after b op) ops

step_refines : {b : Buffer} (op : Op) → IsValid b → step b op ≡ Deque.step (view b) op
unfolding step
step_refines (put c) v = refl
step_refines (put_back c) v = refl
step_refines take_one v = ap byte (view-read v).0
step_refines look v = ap byte (peek-first v)
step_refines room v =
    unfold can_write can_write_reverse is_reserved in ground (arith, can_read-is_empty v)

after_refines : {b : Buffer} (op : Op) → IsValid b → view (after b op) ≡ Deque.after (view b) op
unfolding after
after_refines (put c) v = view-write v c
after_refines (put_back c) v = view-write_reverse v c
after_refines take_one v = (view-read v).1
after_refines look v = refl
after_refines room v = refl

after-IsValid : {b : Buffer} (op : Op) → IsValid b → IsValid (after b op)
unfolding after
after-IsValid (put c) v = write-IsValid c v
after-IsValid (put_back c) v = write_reverse-IsValid c v
after-IsValid take_one v = read-IsValid v
after-IsValid look v = v
after-IsValid room v = v

-- From a valid buffer, any sequence of writes, writes in reverse, reads, peeks and tests gives the
-- replies of the bounded queue of the buffer's contents.
pub run_refines : (ops : List Op) {b : Buffer} → IsValid b → run b ops ≡ Deque.run (view b) ops
unfolding run Deque.run
run_refines [] v = refl
run_refines (op ∷ ops) v =
    ap₂ ◌∷◌ (step_refines op v)
      (run_refines ops (after-IsValid op v) ∙ ap (λ d. Deque.run d ops) (after_refines op v))
