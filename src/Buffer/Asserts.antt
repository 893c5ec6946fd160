-- ===== src/Buffer/Asserts.antt =====
-- What the one-byte operations of buffer.c do to the pointers: their asserts never fail.
use http_proxy.Base.{
  ℕ, ◌+◌, ◌-◌, ◌<◌, ◌≤◌, ◌≡◌, some, none, Option, Bool, true, false, pos, ◌==◌, if◌then◌else◌, set,
  get_or, arith,
}
use http_proxy.Buffer.{
  Buffer, can_read, can_write, can_write_reverse, read_adv, write_adv, write_adv_reverse, read,
  write, write_reverse,
}

-- The direct description of each operation, with no assert in it.
abbrev pub written : Buffer → ℕ → Buffer
written b c = record b { mem = set b.mem b.write c; write = b.write + 1 }

abbrev pub unread : Buffer → ℕ → Buffer
unread b c = record b { mem = set b.mem (b.read - 1) c; read = b.read - 1 }

-- At the last byte both pointers go back to the lower limit.
abbrev pub advanced : Buffer → Buffer
advanced b =
    if b.read + 1 == b.write
    then record b { read = b.inf_limit; write = b.inf_limit }
    else record b { read = b.read + 1 }

pub write-written : (b : Buffer) (c : ℕ) → b.write < b.limit → write b c ≡ written b c
unfolding write
write-written b c h = ground arith

pub write_full : (b : Buffer) (c : ℕ) → b.limit ≤ b.write → write b c ≡ b
unfolding write
write_full b c h = ground arith

pub write_reverse-unread : (b : Buffer) (c : ℕ) → 0 < b.read → write_reverse b c ≡ unread b c
unfolding write_reverse
write_reverse-unread b c h = ground arith

pub write_reverse_full : (b : Buffer) (c : ℕ) → b.read ≡ 0 → write_reverse b c ≡ b
unfolding write_reverse
write_reverse_full b c h = ground arith

pub read-advanced : (b : Buffer) → b.read < b.write → read b ≡ (get_or b.mem b.read 0, advanced b)
unfolding read
read-advanced b h = ground arith

pub read_empty : (b : Buffer) → b.write ≤ b.read → read b ≡ (0, b)
unfolding read
read_empty b h = ground arith

abbrev pub is_some : Option Buffer → Bool
is_some none = false
is_some (some _) = true

-- The asserts of the three advances by one byte hold exactly when `buffer_can_write`,
-- `buffer_can_read` and `buffer_can_write_reverse` do, in any state of the buffer.
pub asserts_hold :
    (b : Buffer)
    → (is_some (write_adv b (pos 1)) ≡ can_write b)
      × (is_some (read_adv b (pos 1)) ≡ can_read b)
      × (is_some (write_adv_reverse b (pos 1)) ≡ can_write_reverse b)
unfolding can_write can_read can_write_reverse write_adv read_adv write_adv_reverse
asserts_hold b = (ground arith, ground arith, ground arith)
