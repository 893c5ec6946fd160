-- ===== src/Log/Tests.antt =====
-- A log with room for 16 bytes.
use http_proxy.Base.{
  ℕ, ◌+◌, ◌≤◌, ◌<◌, ◌≡◌, refl, none, some, [], ◌∷◌, Bytes, codes, zeros, take, min, arith, inr, ap,
}
use http_proxy.Buffer.{Buffer}
use http_proxy.Buffer.Invariant.{IsValid}
use http_proxy.Buffer.Refine.{contents}
use http_proxy.Client.{Written, write_error, wrote}
use http_proxy.Client.Writing.{AtMost}
use http_proxy.Log.{Log, buffer_message, log_thread}
use http_proxy.Log.Delivery.{log_all, write_all, log_delivers}
use http_proxy.Log.Sending.{c_array, Logged, buffer_message-Logged}
use http_proxy.Log.Thread.{arrives}
use http_proxy.Selector.{op_noop}

abbrev sixteen : Buffer
sixteen = record { mem = zeros 16; inf_limit = 0; limit = 16; read = 0; write = 0 }

sixteen-IsValid : IsValid sixteen
sixteen-IsValid = record {
  inf_le_write = omega arith;
  read_le_write = omega arith;
  read_home = inr refl;
  write_le_limit = omega arith;
  in_storage = omega arith;
}

-- It fits; it takes all 16 bytes, and the closing 0 has no place; it is longer.
buffer_message-Logged_example :
    (2 + 1 ≤ 16 → Logged sixteen (codes "hi") (buffer_message (c_array (codes "hi") []) sixteen))
    × (◌≡◌ {A = ℕ} 2 16 → buffer_message (c_array (codes "hi") []) sixteen ≡ none)
    × (16 < 2
        → Logged sixteen (take 15 (codes "hi")) (buffer_message (c_array (codes "hi") []) sixteen))
buffer_message-Logged_example =
    buffer_message-Logged sixteen-IsValid (codes "hi") [] (omega arith) (omega arith) (omega arith)

no_place : buffer_message (c_array (codes "sixteen letters!") []) sixteen ≡ none
unfolding buffer_message
no_place = refl

abbrev log : Log
log = record { readfd = 3; writefd = 4; logbuf = sixteen; interest = op_noop }

abbrev three_at_most : ℕ → Written
three_at_most n = wrote (min n 3)

bytes : Written → ℕ
bytes write_error = 0
bytes (wrote n) = n

three_at_most-AtMost : AtMost three_at_most
unfolding bytes
three_at_most-AtMost n k e = let is : min n 3 ≡ k = ap bytes e in omega arith

log_delivers_example :
    (l1 : Log) × (l2 : Log) × (sent : Bytes) × (log_all (codes "hi" ∷ codes "you" ∷ []) log
      ≡ some l1)
    × (write_all (three_at_most ∷ three_at_most ∷ three_at_most ∷ []) l1 ≡ some (l2, sent))
    × (contents l2.logbuf ≡ []
        → log_thread (record { cache = zeros 2048; position = 0 }) (arrives sent)
          ≡ some (codes "hi" ∷ codes "you" ∷ []))
log_delivers_example =
    log_delivers (codes "hi" ∷ codes "you" ∷ [])
      (three_at_most ∷ three_at_most ∷ three_at_most ∷ []) log (zeros 2048) sixteen-IsValid refl
      (omega arith) (omega arith)
      (three_at_most-AtMost, (three_at_most-AtMost, (three_at_most-AtMost, tt))) refl
