-- ===== src/Log/Delivery.antt =====
-- The way of the messages from `log_send` to syslog.
use http_proxy.Base.{
  ℕ, ◌-◌, ◌≤◌, ◌≡◌, ◌∙◌, refl, sym, ap, true, Option, none, some, ◌>>=◌, List, [], ◌∷◌, ◌++◌,
  append_assoc, append-nil, Bytes, ltb, leb, length, length-append, stretch, Bool-cases, inl, inr,
  arith,
}
use http_proxy.Buffer.{read_ptr, read_adv}
use http_proxy.Buffer.Invariant.{IsValid}
use http_proxy.Buffer.Refine.{contents}
use http_proxy.Client.{Written, write_error, wrote, op_write}
use http_proxy.Selector.{op_noop}
use http_proxy.Client.Writing.{AtMost, read_adv-split}
use http_proxy.Log.{
  Log, asks_to_write, log_send, int_of, count_of, with_logbuf, log_write, log_thread,
}
use http_proxy.Log.Sending.{c_array, buffer_message-Logged}
use http_proxy.Log.Thread.{packed, arrives, AllShort, log_thread-packed}

-- Some messages in a row.
unfoldable pub log_all : List Bytes → Log → Option Log
unfolding log_send
log_all [] l = some l
log_all (m ∷ ms) l = log_send (c_array m []) l >>= log_all ms

abbrev also_sent : Bytes → Option (Log × Bytes) → Option (Log × Bytes)
also_sent sent none = none
also_sent sent (some (l, more)) = some (l, sent ++ more)

-- Some calls of `log_write` in a row, with all that they send.
unfoldable pub write_all : List (ℕ → Written) → Log → Option (Log × Bytes)
unfolding log_write
write_all [] l = some (l, [])
write_all (write ∷ writes) l = elim (log_write write l) [
  | none ↦ none
  | some (l', sent) ↦ also_sent sent (write_all writes l')
]

abbrev pub AllAtMost : List (ℕ → Written) → Type 0
AllAtMost [] = Unit
AllAtMost (write ∷ writes) = AtMost write × AllAtMost writes

abbrev Holds : Log → Bytes → Option Log → Type 0
Holds l ys o =
    (l' : Log) × (o ≡ some l') × IsValid l'.logbuf × (contents l'.logbuf ≡ contents l.logbuf ++ ys)

log_all-Holds :
    (ms : List Bytes) (l : Log)
    → IsValid l.logbuf
    → AllShort ms
    → length (packed ms) ≤ l.logbuf.limit - l.logbuf.write
    → Holds l (packed ms) (log_all ms l)
unfolding log_all log_send
log_all-Holds [] l v short room = (l, refl, v, sym (append-nil (contents l.logbuf)))
log_all-Holds (m ∷ ms) l v short room =
    let size = length-append m (0 ∷ packed ms) in
    let (b, e, vb, has, left) =
      (buffer_message-Logged v m [] short.0 (omega (arith, short.1)) (omega arith)).0
        (omega arith) in
    let l1 : Log = record l { logbuf = b; interest = op_write } in
    let (l', is, v', all) = log_all-Holds ms l1 vb short.2 (omega arith) in
    (
      l',
      ap (λ o. asks_to_write l o >>= log_all ms) e ∙ is,
      v',
      all
          ∙ ap (λ xs. xs ++ packed ms) has
          ∙ append_assoc (contents l.logbuf) (m ++ 0 ∷ []) (packed ms)
          ∙ ap (λ xs. contents l.logbuf ++ xs) (append_assoc m (0 ∷ []) (packed ms)),
    )

abbrev Sends : Log → Option (Log × Bytes) → Type 0
Sends l o =
    (l' : Log) × (sent : Bytes) × (o ≡ some (l', sent))
    × IsValid l'.logbuf
    × (sent ++ contents l'.logbuf ≡ contents l.logbuf)

-- Behind `write(2)`.
written-Sends :
    (l : Log)
    → IsValid l.logbuf
    → (w : Written) → ((k : ℕ) → w ≡ wrote k → k ≤ l.logbuf.write - l.logbuf.read)
    → Sends l (
        with_logbuf l
          (stretch l.logbuf.mem l.logbuf.read (count_of w))
          (read_adv l.logbuf (int_of w)))
unfolding read_adv
written-Sends l v write_error few = (l, [], refl, v, refl)
written-Sends l v (wrote n) few =
    let (b', e, v', split) = read_adv-split n v (few n refl) in
    (
      record l { logbuf = b' },
      stretch l.logbuf.mem l.logbuf.read n,
      ap (with_logbuf l (stretch l.logbuf.mem l.logbuf.read n)) e,
      v',
      split,
    )

log_write-Sends :
    (write : ℕ → Written) (l : Log) → IsValid l.logbuf → AtMost write → Sends l (log_write write l)
unfolding log_write read_ptr
log_write-Sends write l v few =
    let size : ℕ = l.logbuf.write - l.logbuf.read in
    let inside : leb l.logbuf.read l.logbuf.write ≡ true = ground (arith, v.read_le_write) in
    elim (Bool-cases (ltb 0 size)) [
      | inl some_bytes ↦
          let (l', sent, is, v', split) = written-Sends l v (write size) (few size) in
          (l', sent, rw (inside, log_write, some_bytes) is, v', split)
      | inr nothing ↦
          (record l { interest = op_noop }, [], rw (inside, log_write, nothing) refl, v, refl)
    ]

write_all-Sends :
    (writes : List (ℕ → Written)) (l : Log)
    → IsValid l.logbuf
    → AllAtMost writes
    → Sends l (write_all writes l)
unfolding write_all
write_all-Sends [] l v few = (l, [], refl, v, refl)
write_all-Sends (write ∷ writes) l v few =
    let (l1, sent, e, v1, split) = log_write-Sends write l v few.0 in
    let (l2, more, e', v2, split') = write_all-Sends writes l1 v1 few.1 in
    (
      l2,
      sent ++ more,
      ap
            (λ (o : Option (Log × Bytes)). elim o as (λ _. Option (Log × Bytes)) [
              | none ↦ none
              | some (l', sent) ↦ also_sent sent (write_all writes l')
            ])
            e
          ∙ ap (also_sent sent) e',
      v2,
      append_assoc sent more (contents l2.logbuf) ∙ ap (λ xs. sent ++ xs) split' ∙ split,
    )

-- For a log whose buffer is valid and empty, messages of at most 2045 bytes each, none of them 0, for which
-- with their closing 0s there is room in the buffer: each `log_send` succeeds, and whatever calls of
-- `log_write` follow, each of whose `write`s writes no more than it is given or fails, no assert fails. When
-- they have emptied the buffer, the thread at the other end of the pipe, whatever its cache of 2048
-- bytes held, hands exactly these messages to syslog, in order.
pub log_delivers :
    (ms : List Bytes) (writes : List (ℕ → Written)) (l : Log) (junk : Bytes)
    → IsValid l.logbuf
    → contents l.logbuf ≡ []
    → AllShort ms
    → length (packed ms) ≤ l.logbuf.limit - l.logbuf.write
    → AllAtMost writes
    → length junk ≡ 2048
    → (l1 : Log) × (l2 : Log) × (sent : Bytes) × (log_all ms l ≡ some l1)
      × (write_all writes l1 ≡ some (l2, sent))
      × (contents l2.logbuf ≡ []
          → log_thread (record { cache = junk; position = 0 }) (arrives sent) ≡ some ms)
log_delivers ms writes l junk v none_left short room few full =
    let (l1, is, v1, has) = log_all-Holds ms l v short room in
    let (l2, sent, went, v2, split) = write_all-Sends writes l1 v1 few in
    (
      l1,
      l2,
      sent,
      is,
      went,
      λ empty.
          let all : sent ≡ packed ms =
            sym (append-nil sent)
            ∙ ap (λ xs. sent ++ xs) (sym empty)
            ∙ split
            ∙ has
            ∙ ap (λ xs. xs ++ packed ms) none_left in
          ap (λ s. log_thread (record { cache = junk; position = 0 }) (arrives s)) all
          ∙ log_thread-packed ms junk full short,
    )
