-- ===== src/Buffer/Invariant.antt =====
-- The invariant of `buffer`: the pointers are in order, inside the storage.
use http_proxy.Base.{
  ℕ, ◌<◌, ◌⊎◌, ◌+◌, ◌-◌, ◌≤◌, ◌≡◌, refl, some, List, [], ◌∷◌, ℤ, pos, negsuc, set, length,
  length-set, stretch, arith, ◌∙◌,
}
use http_proxy.Buffer.{
  Buffer, reset, init_r, store_all, compact, read_adv, write_adv, write_adv_reverse, read, write,
  write_reverse,
}

pub record IsValid (b : Buffer) : Type 0 where
  pub inf_le_write : b.inf_limit ≤ b.write
  pub read_le_write : b.read ≤ b.write
  -- An empty buffer has its pointers at the lower limit.
  pub read_home : (b.read < b.write) ⊎ (b.read ≡ b.inf_limit)
  pub write_le_limit : b.write ≤ b.limit
  pub in_storage : b.limit ≤ length b.mem

pub length-store_all :
    (mem : List ℕ) (dst : ℕ) (cs : List ℕ) → length (store_all mem dst cs) ≡ length mem
unfolding store_all
length-store_all mem dst [] = refl
length-store_all mem dst (c ∷ cs) =
    length-store_all (set mem dst c) (dst + 1) cs ∙ length-set mem dst c

-- A buffer made by `buffer_init_r` is valid, if the reserved zone fits in the size and the size
-- in the storage.
pub init_r-IsValid :
    (b : Buffer) (n0 n : ℕ) (mem : List ℕ) → n0 ≤ n → n ≤ length mem → IsValid (init_r b n0 n mem)
unfolding init_r
init_r-IsValid b n0 n mem h k = ground arith

pub reset-IsValid : {b : Buffer} → IsValid b → IsValid (reset b)
unfolding reset
reset-IsValid v = ground arith

pub write-IsValid : {b : Buffer} (c : ℕ) → IsValid b → IsValid (write b c)
unfolding write
write-IsValid {b} c v = ground (arith, length-set b.mem b.write c)

pub read-IsValid : {b : Buffer} → IsValid b → IsValid (read b).1
unfolding read
read-IsValid v = ground arith

pub write_reverse-IsValid : {b : Buffer} (c : ℕ) → IsValid b → IsValid (write_reverse b c)
unfolding write_reverse
write_reverse-IsValid {b} c v = ground (arith, length-set b.mem (b.read - 1) c)

-- Compaction needs room behind the lower limit for all that is moved there; outside the reserved
-- zone there always is.
pub compact-IsValid :
    {b : Buffer} → IsValid b → b.inf_limit + (b.write - b.read) ≤ b.limit → IsValid (compact b)
unfolding compact
compact-IsValid {b} v h =
    ground (arith, length-store_all b.mem b.inf_limit (stretch b.mem b.read (b.write - b.read)))

-- Advances that do not stop at an assert.
pub adv-IsValid :
    {b b' : Buffer} (n : ℤ)
    → IsValid b
    → (write_adv b n ≡ some b' → IsValid b')
      × (read_adv b n ≡ some b' → IsValid b')
      × (write_adv_reverse b n ≡ some b' → IsValid b')
unfolding write_adv read_adv write_adv_reverse
adv-IsValid (pos n) v = (λ e. ground arith, λ e. ground arith, λ e. ground arith)
adv-IsValid (negsuc n) v = (λ e. ground arith, λ e. ground arith, λ e. ground arith)
