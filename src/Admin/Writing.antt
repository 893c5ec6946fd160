-- ===== src/Admin/Writing.antt =====
-- The messages that `admin_write_handler` sends.
use http_proxy.Base.{
  ◌≤◌, ◌≡◌, refl, Bool, true, false, Option, none, some, List, [], ◌∷◌, Bytes, length, ltb,
  if◌then◌else◌, arith,
}
use http_proxy.MsgQueue.{Queue, q_is_empty}
use http_proxy.MsgQueue.Fifo.{Holds, q_poll-Holds}
use http_proxy.Serializer.{Msg, serialize_msg}
use http_proxy.Admin.{Admin, max_msg_size, admin_write_handler}

abbrev delivered : Option Bytes → List Bytes → List Bytes
delivered none rest = rest
delivered (some bytes) rest = bytes ∷ rest

-- One call of `admin_write_handler` after another, for each whether its `sctp_sendmsg` succeeds: what
-- leaves.
abbrev pub write_all : {D : Type 0} → List Bool → Admin D → Option (List Bytes × Admin D)
write_all [] s = some ([], s)
write_all (sends ∷ more) s = elim (admin_write_handler sends s) [
  | none ↦ none
  | some (sent, s') ↦ elim (write_all more s') [
    | none ↦ none
    | some (rest, s'') ↦ some (delivered sent rest, s'')
  ]
]

-- The packets whose sending succeeds, in their order.
abbrev pub arriving : List Bool → List Bytes → List Bytes
arriving [] ps = []
arriving (b ∷ bs) [] = []
arriving (true ∷ bs) (p ∷ ps) = p ∷ arriving bs ps
arriving (false ∷ bs) (p ∷ ps) = arriving bs ps

-- The bytes of each message, which the buffer of the handler can hold.
abbrev pub Packets : List Msg → List Bytes → Type 0
Packets [] [] = Unit
Packets [] (p ∷ ps) = ⊥
Packets (m ∷ ms) [] = ⊥
Packets (m ∷ ms) (p ∷ ps) = (serialize_msg m ≡ some p) × (length p ≤ max_msg_size) × Packets ms ps

abbrev leaving : Bool → Bytes → Option Bytes
leaving true bytes = some bytes
leaving false bytes = none

write_one :
    {D : Type 0} (sends : Bool) (s : Admin D) (m : Msg) (ms : List Msg) (p : Bytes)
    → Holds s.queue (m ∷ ms)
    → serialize_msg m ≡ some p
    → length p ≤ max_msg_size
    → (q : Queue) × (admin_write_handler sends s ≡ some (leaving sends p, record s { queue = q }))
      × Holds q ms
unfolding admin_write_handler
write_one sends s m ms p h packed small =
    let (q, e, h') = q_poll-Holds s.queue (m ∷ ms) h in
    let (at, l, ef, el, c) = h in
    let full : q_is_empty s.queue ≡ false = rw ef refl in
    let fits : ltb max_msg_size (length p) ≡ false = ground arith in
    (q, rw (full, e, packed, fits) (same sends), h')
  where
    same :
        {T : Type 0} {t : T} (b : Bool)
        → ◌≡◌ {A = Option (Option Bytes × T)}
            (some (if b then some p else none, t))
            (some (leaving b p, t))
    same true = refl
    same false = refl

-- As many calls of `admin_write_handler` as messages wait, each of which has at most 1024 bytes, leave
-- the queue empty, whichever of their `sctp_sendmsg` succeed, and what leaves is the messages of those
-- calls, in the order in which they were queued: the others are lost.
pub write_all-arriving :
    {D : Type 0} (answers : List Bool) (ms : List Msg) (ps : List Bytes) (s : Admin D)
    → Holds s.queue ms
    → Packets ms ps
    → length answers ≡ length ms
    → (s' : Admin D) × (write_all answers s ≡ some (arriving answers ps, s')) × Holds s'.queue []
write_all-arriving [] [] ps s h packed e = (s, refl, h)
write_all-arriving [] (m ∷ ms) ps s h packed e = absurd (omega arith)
write_all-arriving (b ∷ bs) [] ps s h packed e = absurd (omega arith)
write_all-arriving (b ∷ bs) (m ∷ ms) [] s h packed e = absurd packed
write_all-arriving (true ∷ bs) (m ∷ ms) (p ∷ ps) s h packed e =
    let (q, wrote, h') = write_one true s m ms p h packed.0 packed.1 in
    let (s', rest, done) =
      write_all-arriving bs ms ps (record s { queue = q }) h' packed.2 (omega arith) in
    (s', rw (wrote, write_all, rest) refl, done)
write_all-arriving (false ∷ bs) (m ∷ ms) (p ∷ ps) s h packed e =
    let (q, wrote, h') = write_one false s m ms p h packed.0 packed.1 in
    let (s', rest, done) =
      write_all-arriving bs ms ps (record s { queue = q }) h' packed.2 (omega arith) in
    (s', rw (wrote, write_all, rest) refl, done)
