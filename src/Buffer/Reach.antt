-- ===== src/Buffer/Reach.antt =====
-- The states that calls of buffer.c lead to from a buffer that `buffer_init_r` made.
use http_proxy.Base.{ℕ, ◌+◌, ◌-◌, ◌≤◌, ◌≡◌, some, List, ℤ, Bytes, length, subst, sym}
use http_proxy.Buffer.{
  Buffer, init_r, reset, write, read, write_reverse, write_adv, read_adv, write_adv_reverse,
  compact,
}
use http_proxy.Buffer.Invariant.{
  IsValid, init_r-IsValid, reset-IsValid, write-IsValid, read-IsValid, write_reverse-IsValid,
  adv-IsValid, compact-IsValid,
}
use http_proxy.Buffer.Receive.{receive, Fits, received-IsValid, receive-eq}

-- A call that stops at an assert leads nowhere.
pub data Reached : Buffer → Type 0 where
  made :
      (b : Buffer) (n0 n : ℕ) (mem : List ℕ) → n0 ≤ n → n ≤ length mem → Reached (init_r b n0 n mem)
  cleared : {b : Buffer} → Reached b → Reached (reset b)
  wrote : {b : Buffer} (c : ℕ) → Reached b → Reached (write b c)
  took : {b : Buffer} → Reached b → Reached (read b).1
  put_back : {b : Buffer} (c : ℕ) → Reached b → Reached (write_reverse b c)
  advanced : {b b' : Buffer} (n : ℤ) → write_adv b n ≡ some b' → Reached b → Reached b'
  passed : {b b' : Buffer} (n : ℤ) → read_adv b n ≡ some b' → Reached b → Reached b'
  went_back : {b b' : Buffer} (n : ℤ) → write_adv_reverse b n ≡ some b' → Reached b → Reached b'
  moved_down :
      {b : Buffer} → b.inf_limit + (b.write - b.read) ≤ b.limit → Reached b → Reached (compact b)
  arrived :
      {b b' : Buffer} (ys : Bytes) → Fits ys b → receive b ys ≡ some b' → Reached b → Reached b'

-- In every state that calls of the functions of buffer.c and `read(2)` into the free space lead to,
-- from a buffer made with a size in its storage and a reserved zone in its size, the pointers are
-- in order and inside the storage. A call of `buffer_compact` needs the room that it moves into.
pub Reached-IsValid : {b : Buffer} → Reached b → IsValid b
Reached-IsValid (made b n0 n mem h k) = init_r-IsValid b n0 n mem h k
Reached-IsValid (cleared r) = reset-IsValid (Reached-IsValid r)
Reached-IsValid (wrote c r) = write-IsValid c (Reached-IsValid r)
Reached-IsValid (took r) = read-IsValid (Reached-IsValid r)
Reached-IsValid (put_back c r) = write_reverse-IsValid c (Reached-IsValid r)
Reached-IsValid (advanced n e r) = (adv-IsValid n (Reached-IsValid r)).0 e
Reached-IsValid (passed n e r) = (adv-IsValid n (Reached-IsValid r)).1 e
Reached-IsValid (went_back n e r) = (adv-IsValid n (Reached-IsValid r)).2 e
Reached-IsValid (moved_down h r) = compact-IsValid (Reached-IsValid r) h
Reached-IsValid {b} (arrived ys h e r) =
    let v = Reached-IsValid r in subst IsValid (sym (receive-eq v ys h e)) (received-IsValid v ys h)
