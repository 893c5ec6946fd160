-- ===== src/Log.antt =====
-- logger.c: the lines for the system's log, which go through a buffer and a pipe to a thread that hands
-- them to syslog(3). `none` is a failed assert, or an access out of bounds.
pub mod Sending
pub mod Thread
pub mod Delivery
mod Tests
use http_proxy.Base.{
  ℕ, zero, suc, ◌+◌, ◌-◌, Bool, true, false, ◌&&◌, ◌||◌, Option, none, some, ◌>>=◌, List, [], ◌∷◌,
  ◌++◌, Bytes, ◌==◌, ltb, if◌then◌else◌, ℤ, pos, negsuc, set, zeros, stretch,
}
use http_proxy.Admin.{c_string}
use http_proxy.Buffer.{Buffer, init, write_ptr, write_adv, read_ptr, read_adv, store_all}
use http_proxy.Client.{Written, write_error, wrote, op_write}
use http_proxy.CStrings.{strnlen, prepend}
use http_proxy.Selector.{Interest, op_noop}

-- `struct log`, with the interest of its descriptor in the selector.
pub record Log : Type 0 where
  pub readfd : ℕ
  pub writefd : ℕ
  pub logbuf : Buffer
  pub interest : Interest

abbrev pub logbuf_size : ℕ
logbuf_size = 8192

-- `log_start`; `none` is PIPE_FAIL. `ends` are the ends of the pipe, and `memory` is what `malloc` gives.
unfoldable pub log_start : Log → Option (ℕ × ℕ) → Bytes → Option Log
unfolding init
log_start l none memory = none
log_start l (some (readfd, writefd)) memory =
    some
      (record l { readfd = readfd; writefd = writefd; logbuf = init l.logbuf logbuf_size memory })

-- The `n` bytes that `strncpy` writes.
unfoldable pub strncpy_text : Bytes → ℕ → Option Bytes
strncpy_text s zero = some []
strncpy_text [] (suc n) = none
strncpy_text (x ∷ s) (suc n) =
    let rest = strncpy_text s n in if x == 0 then some (zeros (suc n)) else prepend x rest

-- The free space of the buffer gets `text`, and the write pointer goes on by `n`.
abbrev pub put_text : Buffer → Bytes → ℕ → Option Buffer
put_text b text n = write_adv (record b { mem = store_all b.mem b.write text }) (pos n)

-- `buffer_ptr[-1] = 0`, for a buffer without free space.
abbrev pub close_last : Buffer → Option Buffer
close_last b = if b.write == 0 then none else some (record b { mem = set b.mem (b.write - 1) 0 })

-- Behind the length of the message and the bytes copied. Where the closing 0 would stand behind the end
-- of the free space, the assert of `buffer_write_adv` fails.
abbrev pub close_text : Buffer → ℕ → ℕ → Bytes → Option Buffer
close_text b space len text =
    if ltb space len
    then (if space == 0 then close_last b else put_text b (set text (space - 1) 0) space)
    else put_text b (set text len 0) (len + 1)

abbrev pub max_log_message : ℕ
max_log_message = 2048

-- What `log_send` does to the buffer.
unfoldable pub buffer_message : Bytes → Buffer → Option Buffer
unfolding write_ptr write_adv store_all strnlen strncpy_text
buffer_message s b = elim (write_ptr b) [
  | none ↦ none
  | some (at, space) ↦ do
    len ← strnlen s max_log_message
    text ← strncpy_text s space
    close_text b space len text
]

abbrev pub asks_to_write : Log → Option Buffer → Option Log
asks_to_write l none = none
asks_to_write l (some b) = some (record l { logbuf = b; interest = op_write })

unfoldable pub log_send : Bytes → Log → Option Log
unfolding buffer_message
log_send s l = asks_to_write l (buffer_message s l.logbuf)

abbrev pub int_of : Written → ℤ
int_of write_error = negsuc 0
int_of (wrote n) = pos n

abbrev pub count_of : Written → ℕ
count_of write_error = 0
count_of (wrote n) = n

abbrev pub with_logbuf : Log → Bytes → Option Buffer → Option (Log × Bytes)
with_logbuf l sent none = none
with_logbuf l sent (some b) = some (record l { logbuf = b }, sent)

-- `log_write`, with the bytes that it writes to the pipe.
unfoldable pub log_write : (ℕ → Written) → Log → Option (Log × Bytes)
unfolding read_ptr read_adv
log_write write l = elim (read_ptr l.logbuf) [
  | none ↦ none
  | some (at, size) ↦
      if ltb 0 size
      then with_logbuf l (stretch l.logbuf.mem at (count_of (write size)))
          (read_adv l.logbuf (int_of (write size)))
      else some (record l { interest = op_noop }, [])
]

-- The variables of `log_thread`.
pub record Cache : Type 0 where
  pub cache : Bytes
  pub position : ℕ

-- The cache behind `memset`.
unfoldable pub cleared : Bytes
cleared = zeros 2048

abbrev pub flushes : ℕ → ℕ → Bool
flushes position c = (ltb position 2046 && c == 0) || position == 2046

abbrev pub stored : Cache → ℕ → Cache
stored t c = record { cache = set t.cache t.position c; position = t.position + 1 }

abbrev pub line : Option Bytes → Option (List Bytes) → Option (List Bytes)
line none more = none
line (some l) none = none
line (some l) (some ls) = some (l ∷ ls)

-- The lines that `log_thread` gives to syslog, until the end of the pipe. A `none` among the reads is a
-- read that fails.
unfoldable pub log_thread : Cache → List (Option ℕ) → Option (List Bytes)
log_thread t [] = some []
log_thread t (none ∷ reads) = log_thread t reads
log_thread t (some c ∷ reads) =
    let t' = stored t c in
    let flush = flushes t'.position c in
    let more = log_thread (if flush then record { cache = cleared; position = 0 } else t') reads in
    if flush then line (c_string t'.cache) more else more
