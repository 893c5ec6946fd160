-- ===== src/Buffer.antt =====
-- buffer.c: a byte buffer with a read and a write pointer, and a reserved zone in front of the
-- data. The pointers are offsets from `data`; a function that updates `*b` returns the new buffer.
pub mod Asserts
pub mod Invariant
pub mod Deque
pub mod Refine
pub mod Compact
pub mod Receive
pub mod Reach
mod Tests
use http_proxy.Base.{
  ℕ, zero, suc, ◌+◌, ◌-◌, ◌<◌, Bool, true, false, ◌≡◌, Option, none, some, List, [], ◌∷◌, ℤ, pos,
  negsuc, ltb, leb, ◌==◌, if◌then◌else◌, get_or, set, stretch,
}
use mathlib.Core.Option

pub record Buffer : Type 0 where
  pub mem : List ℕ
  pub inf_limit : ℕ
  pub limit : ℕ
  pub read : ℕ
  pub write : ℕ

unfoldable pub reset : Buffer → Buffer
reset b = record b { read = b.inf_limit; write = b.inf_limit }

-- `b` is the storage of the struct before the call.
unfoldable pub init_r : Buffer → ℕ → ℕ → List ℕ → Buffer
unfolding reset
init_r b n0 n mem = record (reset (record b { mem = mem; inf_limit = n0 })) { limit = n }

unfoldable pub init : Buffer → ℕ → List ℕ → Buffer
unfolding init_r
init b n mem = init_r b 0 n mem

unfoldable pub can_write : Buffer → Bool
can_write b = ltb b.write b.limit

unfoldable pub can_read : Buffer → Bool
can_read b = ltb b.read b.write

unfoldable pub can_write_reverse : Buffer → Bool
can_write_reverse b = ltb 0 b.read

unfoldable pub is_reserved : Buffer → Bool
is_reserved b = ltb b.read b.inf_limit

-- The number that goes through `*nbyte`, beside the offset returned; `none` is a failed assert.
unfoldable pub write_ptr : Buffer → Option (ℕ × ℕ)
write_ptr b = if leb b.write b.limit then some (b.write, b.limit - b.write) else none

unfoldable pub read_ptr : Buffer → Option (ℕ × ℕ)
read_ptr b = if leb b.read b.write then some (b.read, b.write - b.read) else none

-- `memmove(mem + dst, bytes)`, for bytes that were read beforehand.
unfoldable pub store_all : List ℕ → ℕ → List ℕ → List ℕ
store_all mem dst [] = mem
store_all mem dst (c ∷ cs) = store_all (set mem dst c) (dst + 1) cs

unfoldable pub compact : Buffer → Buffer
unfolding store_all
compact b =
    if b.inf_limit == b.read
    then b
    else if b.read == b.write
    then record b { read = b.inf_limit; write = b.inf_limit }
    else let n = b.write - b.read in
      record b {
        mem = store_all b.mem b.inf_limit (stretch b.mem b.read n);
        read = b.inf_limit;
        write = b.inf_limit + n;
      }

-- `none` is a failed assert, which stops the program. A negative count changes nothing.
unfoldable pub write_adv : Buffer → ℤ → Option Buffer
write_adv b (pos n) =
    if leb (b.write + n) b.limit then some (record b { write = b.write + n }) else none
write_adv b (negsuc n) = some b

unfoldable pub read_adv : Buffer → ℤ → Option Buffer
unfolding compact
read_adv b (pos n) =
    let b' = record b { read = b.read + n } in
    if leb b'.read b'.write then some (if b'.read == b'.write then compact b' else b') else none
read_adv b (negsuc n) = some b

unfoldable pub write_adv_reverse : Buffer → ℤ → Option Buffer
write_adv_reverse b (pos n) = if leb n b.read then some (record b { read = b.read - n }) else none
write_adv_reverse b (negsuc n) = some b

-- The functions below call the ones above by one byte, behind a test that implies the
-- assert: the second argument of `Option.get_or` is never taken (Buffer/Asserts.antt).
unfoldable pub peek : Buffer → ℕ
unfolding can_read
peek b = if can_read b then get_or b.mem b.read 0 else 0

unfoldable pub read : Buffer → ℕ × Buffer
unfolding can_read read_adv
read b =
    if can_read b then (get_or b.mem b.read 0, Option.get_or (read_adv b (pos 1)) b) else (0, b)

unfoldable pub write : Buffer → ℕ → Buffer
unfolding can_write write_adv
write b c =
    if can_write b
    then (let b' = record b { mem = set b.mem b.write c } in
        Option.get_or (write_adv b' (pos 1)) b')
    else b

unfoldable pub write_reverse : Buffer → ℕ → Buffer
unfolding can_write_reverse write_adv_reverse
write_reverse b c =
    if can_write_reverse b
    then (let b' = Option.get_or (write_adv_reverse b (pos 1)) b in
        record b' { mem = set b'.mem b'.read c })
    else b
