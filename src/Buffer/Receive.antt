-- ===== src/Buffer/Receive.antt =====
-- How the event handlers fill a buffer: `read(2)` into `buffer_write_ptr`, then
-- `buffer_write_adv` by the count that arrived.
use http_proxy.Base.{
  ℕ, suc, ◌+◌, ◌-◌, ◌≤◌, ◌≡◌, ◌∙◌, refl, sym, ap, Option, none, some, List, [], ◌∷◌, ◌++◌, Bytes,
  pos, set, length, stretch, stretch-set_end, append_assoc, append-nil, length-set, arith,
}
use http_proxy.Buffer.{Buffer, write_ptr, write_adv, store_all}
use http_proxy.Buffer.Invariant.{IsValid, length-store_all}
use http_proxy.Buffer.Refine.{contents, stretch-congr}

-- `arrived` are the bytes that `read(2)` stored; `none` is a failed assert.
unfoldable pub receive : Buffer → Bytes → Option Buffer
unfolding write_ptr write_adv store_all
receive b arrived = elim (write_ptr b) [
  | none ↦ none
  | some (at, space) ↦
      write_adv (record b { mem = store_all b.mem at arrived }) (pos (length arrived))
]

abbrev pub received : Buffer → Bytes → Buffer
received b ys = record b { mem = store_all b.mem b.write ys; write = b.write + length ys }

-- `read(2)` returns at most the space that `buffer_write_ptr` reported.
abbrev pub Fits : Bytes → Buffer → Type 0
Fits ys b = length ys ≤ b.limit - b.write

stretch-store_all_end :
    (ys : Bytes) (mem : List ℕ) (i lo n : ℕ)
    → lo + n ≡ i
    → i + length ys ≤ length mem
    → stretch (store_all mem i ys) lo (n + length ys) ≡ stretch mem lo n ++ ys
unfolding store_all
stretch-store_all_end [] mem i lo n e h =
    stretch-congr mem refl (omega arith) ∙ sym (append-nil (stretch mem lo n))
stretch-store_all_end (y ∷ ys) mem i lo n e h =
    stretch-congr (store_all (set mem i y) (i + 1) ys) {n' = suc n + length ys} refl (omega arith)
    ∙ stretch-store_all_end ys (set mem i y) (i + 1) lo (suc n) (omega arith)
        (omega (arith, length-set mem i y))
    ∙ ap (λ l. l ++ ys) (stretch-set_end mem i y lo n e (omega arith))
    ∙ append_assoc (stretch mem lo n) (y ∷ []) ys

module _ {b : Buffer} (v : IsValid b) (ys : Bytes) (h : Fits ys b) where
  pub receive-received : receive b ys ≡ some (received b ys)
  unfolding receive
  receive-received = ground arith

  pub received-IsValid : IsValid (received b ys)
  received-IsValid = ground (arith, length-store_all b.mem b.write ys)

  pub contents-received : contents (received b ys) ≡ contents b ++ ys
  contents-received =
      stretch-congr (store_all b.mem b.write ys) {n' = (b.write - b.read) + length ys} refl
        (omega arith)
      ∙ stretch-store_all_end ys b.mem b.write b.read (b.write - b.read) (omega arith) (omega arith)

  -- Bytes that fit are received: no assert fails, they stand behind the unread bytes, and the read
  -- pointer and the invariant stay.
  pub receive_lem :
      (b' : Buffer) × (receive b ys ≡ some b')
      × IsValid b'
      × (contents b' ≡ contents b ++ ys)
      × (b'.read ≡ b.read)
      × (b'.inf_limit ≡ b.inf_limit)
  receive_lem = (received b ys, receive-received, received-IsValid, contents-received, refl, refl)

  pub receive-eq : {b' : Buffer} → receive b ys ≡ some b' → b' ≡ received b ys
  receive-eq e = ground (arith, receive-received)
