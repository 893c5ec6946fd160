-- ===== src/Selector/Registering.antt =====
-- What `selector_register`, `selector_set_interest` and `selector_unregister_fd` answer
-- and do, for a valid selector.
use http_proxy.Base.{
  ℕ, zero, suc, ◌≤◌, ◌<◌, ◌≡◌, ◌≢◌, ◌⊎◌, ◌↔◌, ◌∙◌, refl, ap, true, false, Option, none, some, ◌>>=◌,
  List, [], ◌∷◌, ◌==◌, ltb, leb, ℤ, pos, negsuc, length, Bool-cases, inl, inr, arith,
}
use http_proxy.Selector.{
  Item, Interest, Selector, Status, success, enomem, iargs, Memory, item_at, items_max_size,
  ensure_capacity,
}
use http_proxy.Selector.Items.{used, key_of, Handlers, Callback}
use http_proxy.Selector.Register.{
  put_item, succeed, register_at, fill_item, selector_register, selector_set_interest, call_if,
  empty_item, selector_unregister_fd,
}
use http_proxy.Selector.Capacity.{ensure_capacity-Ensured}
use http_proxy.Selector.Invariant.{IsValid, look, unused_item, item_at-look, filled, filled-IsValid}
use http_proxy.Selector.Emptying.{update_fdset_lem, Emptied, empty_item-Emptied}
use http_proxy.Selector.Registry.{
  new_item, Filled, place, place-Enlarged, Registered, used-at, filled-Filled,
}

module _ (m : Memory) (n handler : ℕ) (interest : Interest) (data_at : ℕ) (s : Selector) where
  -- With room for the descriptor, and without.
  register_inside :
      n < items_max_size
      → n ≤ s.fd_size
      → selector_register m (pos n) (some handler) interest data_at s
        ≡ register_at n handler interest data_at (success, s)
  unfolding selector_register
  register_inside small h =
      let valid : leb items_max_size n ≡ false = ground arith in
      let room : ltb s.fd_size n ≡ false = ground arith in rw (valid, room) refl

  register_growing :
      n < items_max_size
      → s.fd_size < n
      → selector_register m (pos n) (some handler) interest data_at s
        ≡ (ensure_capacity m n s >>= register_at n handler interest data_at)
  unfolding selector_register
  register_growing small h =
      let valid : leb items_max_size n ≡ false = ground arith in
      let full : ltb s.fd_size n ≡ true = ground arith in rw (valid, full) refl

item_at-outside : (xs : List Item) (i : ℕ) → length xs ≤ i → item_at xs i ≡ none
item_at-outside [] i h = refl
item_at-outside (x ∷ xs) zero h = absurd (omega arith)
item_at-outside (x ∷ xs) (suc i) h = item_at-outside xs i (omega arith)

-- For a valid selector, a handler and a descriptor below 1024 other than the length of the table,
-- `selector_register` fails no assert and makes no access out of bounds. Below that length it answers
-- SELECTOR_FDINUSE and changes nothing when the descriptor is registered, and success otherwise;
-- above it, SELECTOR_ENOMEM without memory, and success with it. After success the selector is valid,
-- the descriptor is registered with what was given, and the others as before.
pub selector_register-Registered :
    (m : Memory) (n handler : ℕ) (interest : Interest) (data_at : ℕ) {s : Selector}
    → IsValid s
    → n < items_max_size
    → n ≢ s.fd_size
    → (status : Status) × (t : Selector) × (selector_register m
          (pos n)
          (some handler)
          interest
          data_at
          s
        ≡ some (status, t))
      × Registered m n (new_item n handler interest data_at) s status t
selector_register-Registered m n handler interest data_at {s} v small apart =
    elim (Bool-cases (ltb n s.fd_size)) [
      | inl within ↦
          let (status, t, e, placed) = place n handler interest data_at v (ground arith) in
          (
            status,
            t,
            register_inside m n handler interest data_at s small (ground arith) ∙ e,
            inl (ground arith, placed),
          )
      | inr behind ↦
          let more : s.fd_size < n = ground arith in
          let (status, s', e, ensured) = ensure_capacity-Ensured m n s in
          let growing =
            register_growing m n handler interest data_at s small more
            ∙ ap (λ o. o >>= register_at n handler interest data_at) e in
          elim ensured [
            | inl w ↦ absurd (omega (arith, w.0))
            | inr (le, inl w) ↦ absurd (omega (arith, w.0))
            | inr (le, inr (inl (few, short, is, same))) ↦ (
              enomem,
              s,
              growing
                  ∙ ap (register_at n handler interest data_at) (ap (λ u. (u, s')) is)
                  ∙ ap (λ w. some (enomem, w)) same,
              inr (inl (more, short, refl, refl)),
            )
            | inr (le, inr (inr (few, enough, is, larger))) ↦
                let (t, placed, f) = place-Enlarged n handler interest data_at v more larger in
                (
                  success,
                  t,
                  growing ∙ ap (λ u. register_at n handler interest data_at (u, s')) is ∙ placed,
                  inr (inr (more, enough, refl, f)),
                )
          ]
    ]

pub selector_register_out_of_bounds :
    (m : Memory) (n handler : ℕ) (interest : Interest) (data_at : ℕ) {s : Selector}
    → IsValid s
    → n < items_max_size
    → (selector_register m (pos n) (some handler) interest data_at s ≡ none) ↔ (n ≡ s.fd_size)
selector_register_out_of_bounds m n handler interest data_at {s} v small = (
  λ e. elim (Bool-cases (n == s.fd_size)) [
    | inl same ↦ ground arith
    | inr other ↦
        let (status, t, there, _) =
          selector_register-Registered m n handler interest data_at v small (λ q. ground arith) in
        absurd (cc)
  ],
  λ q.
      let outside : item_at s.fds n ≡ none = item_at-outside s.fds n (omega (arith, v.sized)) in
      register_inside m n handler interest data_at s small (omega arith)
      ∙ ap (λ o. o >>= λ item. fill_item n handler interest data_at s item) outside,
)

-- A descriptor that `selector_register` refuses: a negative one, or one that is not below 1024.
abbrev pub Outside : ℤ → Type 0
Outside (negsuc n) = Unit
Outside (pos n) = items_max_size ≤ n

-- What a call of `selector_register` comes to: bad arguments, memory behind the table, or the answers
-- for a descriptor that the table has or can be given room for.
pub data Answered (m : Memory) (fd : ℤ) (handler : Option ℕ) (interest : Interest) (data_at : ℕ)
    (s : Selector) : Option (Status × Selector) → Type 0 where
  bad_arguments :
      {o : Option (Status × Selector)}
      → (handler ≡ none) ⊎ Outside fd
      → o ≡ some (iargs, s)
      → Answered m fd handler interest data_at s o
  behind_table :
      {o : Option (Status × Selector)} (n h : ℕ)
      → handler ≡ some h
      → fd ≡ pos n
      → n < items_max_size
      → n ≡ s.fd_size
      → o ≡ none
      → Answered m fd handler interest data_at s o
  registers :
      {o : Option (Status × Selector)} (n h : ℕ) (status : Status) (t : Selector)
      → handler ≡ some h
      → fd ≡ pos n
      → n < items_max_size
      → n ≢ s.fd_size
      → o ≡ some (status, t)
      → Registered m n (new_item n h interest data_at) s status t
      → Answered m fd handler interest data_at s o

outside_lem :
    (m : Memory) (n h : ℕ) (interest : Interest) (data_at : ℕ) (s : Selector)
    → items_max_size ≤ n
    → selector_register m (pos n) (some h) interest data_at s ≡ some (iargs, s)
unfolding selector_register
outside_lem m n h interest data_at s le =
    let out : leb items_max_size n ≡ true = ground arith in rw out refl

-- For a valid selector, any handler and any descriptor: `selector_register` answers SELECTOR_IARGS and
-- changes nothing for a null handler, a negative descriptor and one that is not below 1024. For any
-- other that is the length of the table, it uses memory behind the table. For the others it fails no
-- assert and makes no access out of bounds: below that length it answers SELECTOR_FDINUSE and changes
-- nothing when the descriptor is registered, and success otherwise; above it, SELECTOR_ENOMEM without
-- memory, changing nothing, and success with it. After success the selector is valid, the descriptor is
-- registered with what was given, and the others as before.
pub selector_register-Answered :
    (m : Memory) (fd : ℤ) (handler : Option ℕ) (interest : Interest) (data_at : ℕ) {s : Selector}
    → IsValid s
    → Answered m fd handler interest data_at s (selector_register m fd handler interest data_at s)
unfolding selector_register
selector_register-Answered m fd none interest data_at v = bad_arguments (inl refl) refl
selector_register-Answered m (negsuc n) (some h) interest data_at v = bad_arguments (inr tt) refl
selector_register-Answered m (pos n) (some h) interest data_at {s} v =
    elim (Bool-cases (leb items_max_size n)) [
      | inl out ↦
          bad_arguments (inr (ground arith)) (outside_lem m n h interest data_at s (ground arith))
      | inr small ↦ elim (Bool-cases (n == s.fd_size)) [
        | inl same ↦ behind_table n h refl refl (ground arith) (ground arith) (
            (selector_register_out_of_bounds m n h interest data_at v (ground arith)).1
              (ground arith))
        | inr apart ↦
            let ne : n ≢ s.fd_size = λ q. ground arith in
            let (status, t, e, placed) =
              selector_register-Registered m n h interest data_at v (ground arith) ne in
            registers n h status t refl refl (ground arith) ne e placed
      ]
    ]

-- The item of a descriptor below the length of the table.
found : {s : Selector} → IsValid s → (n : ℕ) → n < s.fd_size → item_at s.fds n ≡ some (look s n)
found {s} v n h = item_at-look s.fds n unused_item (omega (arith, v.sized))

-- For a valid selector and a descriptor below 1024 and below the length of the table,
-- `selector_set_interest` answers SELECTOR_IARGS and changes nothing when the descriptor is not
-- registered; when it is, it answers success, the selector is valid, the descriptor has the new
-- interest with its handler and data, and the others are as before.
pub selector_set_interest-Filled :
    (n : ℕ) (interest : Interest) {s : Selector}
    → IsValid s
    → n < items_max_size
    → n < s.fd_size
    → ((used (look s n) ≡ false) × (selector_set_interest (pos n) interest s ≡ some (iargs, s)))
      ⊎ ((t : Selector) × (used (look s n) ≡ true)
          × (selector_set_interest (pos n) interest s ≡ some (success, t))
          × Filled n (record (look s n) { interest = interest }) s t)
unfolding selector_set_interest
selector_set_interest-Filled n interest {s} v small h =
    let valid : leb items_max_size n ≡ false = ground arith in
    let there : item_at s.fds n ≡ some (look s n) = found v n h in
    let x : Item = record (look s n) { interest = interest } in
    elim (Bool-cases (used (look s n))) [
      | inr free ↦ inl (free, rw (valid, there, free) refl)
      | inl in_use ↦
          let e : (look s n).fd ≡ some n = used-at v n in_use in
          inr (
            filled n x s.max_fd s,
            in_use,
            rw (valid, there, in_use) (ap succeed (update_fdset_lem x n (put_item n x s) e)),
            filled-Filled n x s.max_fd v h
                (filled-IsValid n x s.max_fd v h e (omega arith) (v.below n n e) (inl refl)),
          )
    ]

-- What `handle_close` of the descriptor leaves it to: no callback, or one after which the selector is
-- valid, not smaller, and the descriptor still registered.
abbrev pub Closes : Option Callback → ℕ → Selector → Type 0
Closes close n s =
    (s' : Selector) × (call_if close (key_of (look s n)) s ≡ some s')
    × IsValid s'
    × (s.fd_size ≤ s'.fd_size)
    × ((look s' n).fd ≡ some n)

-- For a valid selector and a descriptor below 1024 that is registered, with a `handle_close` that keeps
-- the selector valid and the descriptor registered, `selector_unregister_fd` answers success, the
-- selector is valid, and compared with what `handle_close` left, the descriptor is registered no more
-- and the others are as before.
pub selector_unregister_fd-Emptied :
    (handlers : Handlers) (n : ℕ) {s : Selector}
    → IsValid s
    → n < items_max_size
    → n < s.fd_size
    → used (look s n) ≡ true
    → (c : Closes (handlers (look s n).handler).handle_close n s)
    → (t : Selector) × (selector_unregister_fd handlers (pos n) s ≡ some (success, t))
      × Emptied n c.0 t
unfolding selector_unregister_fd
selector_unregister_fd-Emptied handlers n {s} v small h in_use (s', called, v', size, still) =
    let valid : leb items_max_size n ≡ false = ground arith in
    let there : item_at s.fds n ≡ some (look s n) = found v n h in
    let there' : item_at s'.fds n ≡ some (look s' n) = found v' n (omega arith) in
    let (t, e, emptied) = empty_item-Emptied n v' (omega arith) still in
    (
      t,
      rw (valid, there, in_use)
          (ap (λ o. o >>= λ u. item_at u.fds n >>= empty_item n u) called
            ∙ ap (λ o. o >>= empty_item n s') there'
            ∙ e),
      emptied,
    )
