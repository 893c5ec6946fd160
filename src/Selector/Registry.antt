-- ===== src/Selector/Registry.antt =====
-- A larger table, and the item that `selector_register` fills in it.
use http_proxy.Base.{
  ℕ, zero, suc, ◌-◌, ◌≤◌, ◌<◌, ◌≡◌, ◌≢◌, ◌⊎◌, ◌∙◌, refl, sym, ap, Bool, true, false, ◌&&◌, none,
  some, ltb, length, length-append, subst, Bool-cases, Option-cases, inl, inr, arith,
}
use http_proxy.Selector.{
  Item, Interest, Selector, Status, success, enomem, fdinuse, Memory, item_at, new_items, resized,
}
use http_proxy.Selector.Items.{used}
use http_proxy.Selector.Register.{register_at}
use http_proxy.Selector.Capacity.{Enlarged}
use http_proxy.Selector.Invariant.{
  IsValid, look, unused_item, wants_read, wants_write, item_at-look, get_or-outside, resized-look,
  look-put, filled, filled-IsValid,
}

pub length-new_items : (n : ℕ) (junk : Item) → length (new_items n junk) ≡ n
length-new_items zero junk = refl
length-new_items (suc n) junk = ap suc (length-new_items n junk)

-- An item is used exactly when it has a descriptor.
used_fd : (x : Item) → used x ≡ true → (f : ℕ) × (x.fd ≡ some f)
used_fd x u = elim (Option-cases x.fd) [
  | inl no_fd ↦
      absurd
        (let free : used x ≡ false = ap (λ o. elim o [ none ↦ false | some f ↦ true ]) no_fd in cc)
  | inr fd ↦ fd
]

pub used-at : {s : Selector} → IsValid s → (i : ℕ) → used (look s i) ≡ true → (look s i).fd ≡ some i
used-at {s} v i u = let (f, e) = used_fd (look s i) u in e ∙ ap some (v.indexed i f e)

-- A larger table is a valid one, with the same items in use.
same_use :
    (wants : Item → Bool)
    → ((y : Item) → y.fd ≡ none → wants y ≡ false)
    → (y z : Item) → (y ≡ z) ⊎ ((y.fd ≡ none) × (z.fd ≡ none))
    → wants z ≡ wants y
same_use wants no_wish y z (inl e) = ap wants (sym e)
same_use wants no_wish y z (inr (a, b)) = no_wish z b ∙ sym (no_wish y a)

pub no_read : (y : Item) → y.fd ≡ none → wants_read y ≡ false
no_read y e = ap (λ o. elim o [ none ↦ false | some f ↦ true ] && y.interest.op_read) e

pub no_write : (y : Item) → y.fd ≡ none → wants_write y ≡ false
no_write y e = ap (λ o. elim o [ none ↦ false | some f ↦ true ] && y.interest.op_write) e

module _ {s : Selector} (v : IsValid s) (n : ℕ) (junk : Item) (h : s.fd_size ≤ n)
    (b : n ≤ 1025) where
  resized_fd : (k f : ℕ) → (look (resized n junk s) k).fd ≡ some f → (look s k).fd ≡ some f
  resized_fd k f q = elim (resized-look s.fds (n - s.fd_size) junk k) [
    | inl e ↦ sym (ap (λ y. y.fd) e) ∙ q
    | inr (a, _) ↦ absurd (cc)
  ]

  pub resized-IsValid : IsValid (resized n junk s)
  resized-IsValid = record {
    sized = omega (
      arith,
      v.sized,
      length-append {0} s.fds (new_items (n - s.fd_size) junk),
      length-new_items (n - s.fd_size) junk,
    );
    some_items = omega (arith, v.some_items);
    bound = b;
    indexed = λ k f q. v.indexed k f (resized_fd k f q);
    below = λ k f q. v.below k f (resized_fd k f q);
    top = elim v.top [
      | inl none_used ↦ inl none_used
      | inr t ↦ elim (resized-look s.fds (n - s.fd_size) junk s.max_fd) [
        | inl e ↦ inr (ap (λ y. y.fd) e ∙ t)
        | inr (_, c) ↦ absurd (cc)
      ]
    ];
    read_set = λ k.
        v.read_set k ∙ same_use wants_read no_read _ _ (resized-look s.fds (n - s.fd_size) junk k);
    write_set = λ k.
        v.write_set k
        ∙ same_use wants_write no_write _ _ (resized-look s.fds (n - s.fd_size) junk k);
  }

-- The same item, or both unused.
abbrev pub Same : Item → Item → Type 0
Same y z = (y ≡ z) ⊎ ((y.fd ≡ none) × (z.fd ≡ none))

-- In `t` the item of `n` is `x`, and the others are those of `s`.
pub record Filled (n : ℕ) (x : Item) (s t : Selector) : Type 0 where
  pub valid : IsValid t
  pub grown : s.fd_size ≤ t.fd_size
  pub here : look t n ≡ x
  pub others : (k : ℕ) → k ≢ n → Same (look t k) (look s k)

pub filled-Filled :
    (n : ℕ) (x : Item) (m : ℕ) {s : Selector}
    → IsValid s
    → n < s.fd_size
    → IsValid (filled n x m s)
    → Filled n x s (filled n x m s)
filled-Filled n x m {s} v h valid =
    let inside : n < length s.fds = omega (arith, v.sized) in
    record {
      valid = valid;
      grown = omega arith;
      here = elim (look-put s n x n inside) [
        | inl (_, l) ↦ l
        | inr (other, l) ↦ absurd (ground arith)
      ];
      others = λ k apart. elim (look-put s n x k inside) [
        | inl (same, l) ↦ absurd (apart same)
        | inr (_, l) ↦ inl l
      ];
    }

abbrev pub new_item : ℕ → ℕ → Interest → ℕ → Item
new_item n handler interest data_at = record {
  fd = some n;
  interest = interest;
  handler = handler;
  data_at = data_at;
}

-- What step 2 of `selector_register` says and does, from a table with room for `n`.
abbrev pub Placed : ℕ → Item → Selector → Status → Selector → Type 0
Placed n x s status t =
    ((used (look s n) ≡ true) × (status ≡ fdinuse) × (t ≡ s))
    ⊎ ((used (look s n) ≡ false) × (status ≡ success) × Filled n x s t)

pub place :
    (n handler : ℕ) (interest : Interest) (data_at : ℕ) {s : Selector}
    → IsValid s
    → n < s.fd_size
    → (status : Status) × (t : Selector) × (register_at n handler interest data_at (success, s)
        ≡ some (status, t))
      × Placed n (new_item n handler interest data_at) s status t
place n handler interest data_at {s} v h =
    let x : Item = new_item n handler interest data_at in
    let there : item_at s.fds n ≡ some (look s n) =
      item_at-look s.fds n unused_item (omega (arith, v.sized)) in
    elim (Bool-cases (used (look s n))) [
      | inl in_use ↦ (fdinuse, s, rw (there, in_use) refl, inl (in_use, refl, refl))
      | inr free ↦ elim (Bool-cases (ltb s.max_fd n)) [
        | inl higher ↦ (
          success,
          filled n x n s,
          rw (there, free, higher) refl,
          inr (
            free,
            refl,
            filled-Filled n x n v h
                (filled-IsValid n x n v h refl (ground arith) (omega arith) (inr refl)),
          ),
        )
        | inr lower ↦ (
          success,
          filled n x s.max_fd s,
          rw (there, free, lower) refl,
          inr (
            free,
            refl,
            filled-Filled n x s.max_fd v h
                (filled-IsValid n x s.max_fd v h refl (omega arith) (ground arith) (inl refl)),
          ),
        )
      ]
    ]

Same-trans : (x y z : Item) → Same x y → Same y z → Same x z
Same-trans x y z (inl e) (inl q) = inl (e ∙ q)
Same-trans x y z (inl e) (inr (a, b)) = inr (ap (λ w. w.fd) e ∙ a, b)
Same-trans x y z (inr (a, b)) (inl q) = inr (a, sym (ap (λ w. w.fd) q) ∙ b)
Same-trans x y z (inr (a, b)) (inr (c, d)) = inr (a, d)

-- A valid table, enlarged.
pub enlarged :
    (n : ℕ) {s t : Selector}
    → IsValid s
    → Enlarged n s t
    → IsValid t × ((k : ℕ) → Same (look t k) (look s k))
enlarged n {s} {t} v g =
    let u : Selector = resized t.fd_size g.junk s in
    (
      subst IsValid (sym g.is) (resized-IsValid v t.fd_size g.junk g.grown g.bound),
      λ k.
          subst (λ w. Same (look w k) (look s k)) (sym g.is)
            (resized-look s.fds (t.fd_size - s.fd_size) g.junk k),
    )

unused-outside : {s : Selector} → IsValid s → (n : ℕ) → s.fd_size ≤ n → (look s n).fd ≡ none
unused-outside {s} v n h =
    ap (λ y. y.fd) (get_or-outside s.fds n unused_item (omega (arith, v.sized)))

-- What `selector_register` says and does, by the place of `n` and the memory.
abbrev pub Registered : Memory → ℕ → Item → Selector → Status → Selector → Type 0
Registered m n x s status t =
    ((n < s.fd_size) × Placed n x s status t)
    ⊎ ((s.fd_size < n) × (m.enough ≡ false) × (status ≡ enomem) × (t ≡ s))
    ⊎ ((s.fd_size < n) × (m.enough ≡ true) × (status ≡ success) × Filled n x s t)

pub place-Enlarged :
    (n handler : ℕ) (interest : Interest) (data_at : ℕ) {s s' : Selector}
    → IsValid s
    → s.fd_size < n
    → Enlarged n s s'
    → (t : Selector) × (register_at n handler interest data_at (success, s') ≡ some (success, t))
      × Filled n (new_item n handler interest data_at) s t
place-Enlarged n handler interest data_at {s} {s'} v h g =
    let (v', same) = enlarged n v g in
    let (status, t, e, placed) = place n handler interest data_at v' g.room in
    let free : (look s' n).fd ≡ none = elim (same n) [
      | inl q ↦ ap (λ y. y.fd) q ∙ unused-outside v n (omega arith)
      | inr (a, b) ↦ a
    ] in
    elim placed [
      | inl (in_use, _, _) ↦ absurd (let q = used-at v' n in_use in cc)
      | inr (_, is, f) ↦ (
        t,
        e ∙ ap (λ u. some (u, t)) is,
        record {
          valid = f.valid;
          grown = omega (arith, g.grown, f.grown);
          here = f.here;
          others = λ k apart. Same-trans _ _ _ (f.others k apart) (same k);
        },
      )
    ]
