-- ===== src/Selector/Tests.antt =====
-- A selector for five descriptors, and one in which the descriptor 3 is registered for reading.
use http_proxy.Base.{
  ℕ, zero, suc, ◌≤◌, ◌<◌, ◌≡◌, ◌⊎◌, ◌∙◌, refl, sym, ap, subst, Bool, true, false, not, none, some,
  ◌==◌, pos, inl, inr, arith,
}
use http_proxy.Selector.{
  Item, Interest, Selector, Status, success, iargs, Memory, op_noop, zero_item, fd_zero, resized,
  blank, next_capacity,
}
use http_proxy.Selector.Items.{used, Callback, Handlers}
use http_proxy.Selector.Register.{selector_register, selector_set_interest, selector_unregister_fd}
use http_proxy.Selector.Dispatch.{ready, selector_select}
use http_proxy.Selector.Capacity.{next_capacity_lem}
use http_proxy.Selector.Invariant.{IsValid, look, look-put, filled, filled-IsValid}
use http_proxy.Selector.Emptying.{Emptied}
use http_proxy.Selector.Registry.{new_item, Filled}
use http_proxy.Selector.Registering.{
  Answered, selector_register-Answered, selector_set_interest-Filled, Closes,
  selector_unregister_fd-Emptied,
}
use http_proxy.Selector.Creating.{fresh_look, fresh-IsValid}
use http_proxy.Selector.Safety.{Armed, Good, Keeps, AllKeep, Answers, selector_select-Good}
use http_proxy.Selector.Interests.{ignoring_status, set_interest-GoesOn}

abbrev memory : Memory
memory = record { enough = true; junk = zero_item }

abbrev reading : Interest
reading = record { op_read = true; op_write = false }

abbrev writing : Interest
writing = record { op_read = false; op_write = true }

abbrev five : Selector
five = resized 5 zero_item blank

five-IsValid : IsValid five
five-IsValid = fresh-IsValid 5 zero_item (omega arith) (omega arith)

next_capacity_lem_example : (m : ℕ) × (next_capacity 3 ≡ some m) × (3 < m) × (m ≤ 1025)
next_capacity_lem_example = next_capacity_lem 3 (omega arith)

three_to_five : next_capacity 3 ≡ some 5
unfolding next_capacity
three_to_five = refl

abbrev three : Item
three = new_item 3 0 reading 9

abbrev with_three : Selector
with_three = filled 3 three 3 five

selector_register-Answered_example :
    Answered memory
      (pos 3)
      (some 0)
      reading
      9
      five
      (selector_register memory (pos 3) (some 0) reading 9 five)
selector_register-Answered_example =
    selector_register-Answered memory (pos 3) (some 0) reading 9 five-IsValid

registered_three :
    selector_register memory (pos 3) (some 0) reading 9 five ≡ some (success, with_three)
unfolding selector_register
registered_three = refl

with_three-IsValid : IsValid with_three
with_three-IsValid =
    filled-IsValid 3 three 3 five-IsValid (omega arith) refl (omega arith) (omega arith) (inr refl)

selector_set_interest-Filled_example :
    ((used (look with_three 3) ≡ false)
      × (selector_set_interest (pos 3) writing with_three ≡ some (iargs, with_three)))
    ⊎ ((t : Selector) × (used (look with_three 3) ≡ true)
        × (selector_set_interest (pos 3) writing with_three ≡ some (success, t))
        × Filled 3 (record (look with_three 3) { interest = writing }) with_three t)
selector_set_interest-Filled_example =
    selector_set_interest-Filled 3 writing with_three-IsValid (omega arith) (omega arith)

-- A callback that does nothing with the selector.
abbrev leave : Callback
leave key s = some s

abbrev handlers : Handlers
handlers h = record {
  handle_read = some leave;
  handle_write = none;
  handle_block = some leave;
  handle_close = none;
}

abbrev nothing_to_close : Closes none 3 with_three
nothing_to_close = (with_three, refl, with_three-IsValid, omega arith, refl)

selector_unregister_fd-Emptied_example :
    (t : Selector) × (selector_unregister_fd handlers (pos 3) with_three ≡ some (success, t))
    × Emptied 3 with_three t
selector_unregister_fd-Emptied_example =
    selector_unregister_fd-Emptied handlers 3 with_three-IsValid (omega arith) (omega arith) refl
      nothing_to_close

abbrev log_fd : ℕ
log_fd = 3

-- `log_write`, as far as the selector is concerned: when no byte stands unread in the buffer of the log,
-- its descriptor is to be written no more.
abbrev log_write : Bool → Callback
log_write true key s = some s
log_write false key s = ignoring_status (selector_set_interest (pos log_fd) op_noop s)

-- The `logging_handlers` of the program, for some bytes in the log or none, and its `admin_handler`,
-- whose callbacks do nothing with the selector. Neither has a `handle_block`.
abbrev proxy_handlers : Bool → Handlers
proxy_handlers unread zero = record {
  handle_read = none;
  handle_write = some (log_write unread);
  handle_block = none;
  handle_close = some leave;
}
proxy_handlers unread (suc h) = record {
  handle_read = some leave;
  handle_write = some leave;
  handle_block = none;
  handle_close = none;
}

-- Jobs are done for other descriptors than that of the log, which is in the table.
abbrev for_clients : ℕ → Bool
for_clients k = not (k == log_fd)

abbrev HasLog : Selector → Type 0
HasLog s = log_fd < s.fd_size

reads_keep :
    (b : Bool) (h : ℕ)
    → Keeps (proxy_handlers b) for_clients HasLog (proxy_handlers b h).handle_read
reads_keep b zero = tt
reads_keep b (suc h) = λ key s g. (s, refl, g, omega arith)

writes_keep :
    (b : Bool) (h : ℕ)
    → Keeps (proxy_handlers b) for_clients HasLog (proxy_handlers b h).handle_write
writes_keep true zero = λ key s g. (s, refl, g, omega arith)
writes_keep false zero = λ key s g.
    set_interest-GoesOn (proxy_handlers false) for_clients HasLog log_fd op_noop s g g.more
      (omega arith) (record { reads = λ e. absurd (cc); writes = λ e. absurd (cc) }) g.more
writes_keep b (suc h) = λ key s g. (s, refl, g, omega arith)

blocks_keep :
    (b : Bool) (h : ℕ)
    → Keeps (proxy_handlers b) for_clients HasLog (proxy_handlers b h).handle_block
blocks_keep b zero = tt
blocks_keep b (suc h) = tt

proxy_handlers-AllKeep : (b : Bool) → AllKeep (proxy_handlers b) for_clients HasLog
proxy_handlers-AllKeep b = record {
  read = reads_keep b;
  write = writes_keep b;
  block = blocks_keep b;
}

abbrev log_item : Item
log_item = new_item log_fd 0 writing 9

abbrev with_log : Selector
with_log = filled log_fd log_item log_fd five

log_item-Armed : (b : Bool) (x : Item) → x ≡ log_item → Armed (proxy_handlers b x.handler) x
log_item-Armed b x e =
    subst (λ y. Armed (proxy_handlers b y.handler) y) (sym e)
      (record { reads = λ h. absurd (cc); writes = λ h q. cc })

-- No other descriptor is registered.
alone : (i : ℕ) → used (look with_log i) ≡ true → look with_log i ≡ log_item
alone i u = elim (look-put five log_fd log_item i (omega arith)) [
  | inl (same, l) ↦ l
  | inr (other, l) ↦
      let free : (look with_log i).fd ≡ none = ap (λ y. y.fd) l ∙ fresh_look 5 zero_item i in
      absurd (
        let idle : used (look with_log i) ≡ false =
          ap (λ o. elim o [ none ↦ false | some f ↦ true ]) free in
        cc)
]

with_log-Good : (b : Bool) → Good (proxy_handlers b) for_clients HasLog with_log
with_log-Good b = record {
  valid =
      filled-IsValid log_fd log_item log_fd five-IsValid (omega arith) refl (omega arith)
        (omega arith) (inr refl);
  armed = λ i u. log_item-Armed b (look with_log i) (alone i u);
  blocks = λ i w u. elim (look-put five log_fd log_item i (omega arith)) [
    | inl (same, l) ↦ absurd (ground (arith, same))
    | inr (other, l) ↦
        let free : used (look with_log i) ≡ false =
          ap (λ o. elim o [ none ↦ false | some f ↦ true ])
            (ap (λ y. y.fd) l ∙ fresh_look 5 zero_item i) in
        absurd (cc)
  ];
  idle = idle_writes;
  jobs = tt;
  more = omega arith;
}
  where
    idle_writes :
        (i : ℕ) → used (look with_log i) ≡ false → (look with_log i).interest.op_write ≡ false
    idle_writes zero u = refl
    idle_writes (suc zero) u = refl
    idle_writes (suc (suc zero)) u = refl
    idle_writes (suc (suc (suc zero))) u = absurd (cc)
    idle_writes (suc (suc (suc (suc zero)))) u = refl
    idle_writes (suc (suc (suc (suc (suc i))))) u = refl

-- The log's descriptor can be written, and nothing is to be written.
selector_select-Good_example :
    (status : Status) × (t : Selector) × (selector_select
        (proxy_handlers false)
        (ready fd_zero (λ k. true))
        with_log
      ≡ some (status, t))
    × Good (proxy_handlers false) for_clients HasLog t
    × Answers (ready fd_zero (λ k. true)) with_log status t
selector_select-Good_example =
    selector_select-Good (proxy_handlers false) for_clients HasLog (λ s r w jobs h. h)
      (proxy_handlers-AllKeep false) (ready fd_zero (λ k. true)) with_log (with_log-Good false)
