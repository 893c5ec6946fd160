-- ===== src/Selector/Emptying.antt =====
-- `items_max_fd`, and the item that `selector_unregister_fd` empties.
use http_proxy.Base.{
  ℕ, zero, suc, ◌≤◌, ◌<◌, ◌≡◌, ◌≢◌, ◌⊎◌, ◌∙◌, refl, sym, ap, false, Option, none, some, ◌>>=◌, List,
  [], ◌∷◌, ◌==◌, ltb, length, length-set, get_or, set, Bool-cases, inl, inr, arith,
}
use http_proxy.Selector.{Item, Selector, success, op_noop}
use http_proxy.Selector.Items.{
  larger_fd, max_loop, items_max_fd, with_fdsets, items_update_fdset_for_fd,
}
use http_proxy.Selector.Register.{put_item, empty_item}
use http_proxy.Selector.Invariant.{
  IsValid, look, unused_item, wants_read, wants_write, look-put, get_or-outside, set_when_self,
  set_when_other,
}

larger_fd_lem :
    (o : Option ℕ) (max : ℕ)
    → (max ≤ larger_fd o max)
      × ((f : ℕ) → o ≡ some f → f ≤ larger_fd o max)
      × ((larger_fd o max ≡ max) ⊎ (o ≡ some (larger_fd o max)))
larger_fd_lem none max = (omega arith, λ f e. absurd (cc), inl refl)
larger_fd_lem (some g) max = elim (Bool-cases (ltb max g)) [
  | inl more ↦ rw more (ground arith, λ f e. ground (arith), inr refl)
  | inr less ↦ rw less (omega arith, λ f e. ground (arith), inl refl)
]

-- No item in use among the first `n` has a larger descriptor than `m`.
abbrev AtMost : List Item → ℕ → ℕ → Type 0
AtMost xs n m = (k f : ℕ) → k < n → (get_or xs k unused_item).fd ≡ some f → f ≤ m

AtMost-cons :
    (x : Item) (xs : List Item) (n m : ℕ)
    → ((f : ℕ) → x.fd ≡ some f → f ≤ m)
    → AtMost xs n m
    → AtMost (x ∷ xs) (suc n) m
AtMost-cons x xs n m p q zero f lt e = p f e
AtMost-cons x xs n m p q (suc k) f lt e = q k f (omega arith) e

-- The loop finds the largest descriptor in use among the first `n` items.
pub max_loop_lem :
    (xs : List Item) (n max : ℕ)
    → n ≤ length xs
    → (m : ℕ) × (max_loop xs n max ≡ some m)
      × (max ≤ m)
      × AtMost xs n m
      × ((m ≡ max) ⊎ ((k : ℕ) × (k < n) × ((get_or xs k unused_item).fd ≡ some m)))
unfolding max_loop
max_loop_lem xs zero max h = (max, refl, omega arith, λ k f lt. absurd (omega arith), inl refl)
max_loop_lem [] (suc n) max h = absurd (omega arith)
max_loop_lem (x ∷ xs) (suc n) max h =
    let (lo, at_least, from) = larger_fd_lem x.fd max in
    let (m, e, le, all, source) = max_loop_lem xs n (larger_fd x.fd max) (omega arith) in
    (
      m,
      e,
      omega arith,
      AtMost-cons x xs n m (λ f q. omega (arith, at_least f q)) all,
      elim source [
        | inr (k, lt, q) ↦ inr (suc k, omega arith, q)
        | inl is ↦ elim from [
          | inl same ↦ inl (is ∙ same)
          | inr here ↦ inr (0, omega arith, here ∙ ap some (sym is))
        ]
      ],
    )

-- The table with the item at `i` emptied, and that descriptor in no set.
abbrev pub cleared : ℕ → Item → Selector → Selector
cleared i x s = put_item i unused_item (with_fdsets i op_noop (put_item i x s))

-- `i` is registered no more, and nothing else is changed in the table.
pub record Emptied (i : ℕ) (s t : Selector) : Type 0 where
  pub valid : IsValid t
  pub size : t.fd_size ≡ s.fd_size
  pub gone : look t i ≡ unused_item
  pub others : (k : ℕ) → k ≢ i → look t k ≡ look s k

cleared-look :
    (i : ℕ) (x : Item) (s : Selector) (k : ℕ)
    → i < length s.fds
    → ((k ≡ i) × (look (cleared i x s) k ≡ unused_item))
      ⊎ ((k == i ≡ false) × (look (cleared i x s) k ≡ look s k))
cleared-look i x s k h =
    let s' : Selector = with_fdsets i op_noop (put_item i x s) in
    let inside : i < length (set s.fds i x) = omega (arith, length-set s.fds i x) in
    elim (look-put s' i unused_item k inside) [
      | inl (same, l) ↦ inl (same, l)
      | inr (other, l) ↦ elim (look-put s i x k h) [
        | inl (same, l') ↦ absurd (ground arith)
        | inr (_, l') ↦ inr (other, l ∙ l')
      ]
    ]

pub max_fd_inside : {s : Selector} → IsValid s → s.max_fd < s.fd_size
max_fd_inside {s} v = elim (Bool-cases (ltb s.max_fd s.fd_size)) [
  | inl h ↦ ground arith
  | inr h ↦ elim v.top [
    | inl none_used ↦ omega (arith, v.some_items)
    | inr t ↦
        let out : look s s.max_fd ≡ unused_item =
          get_or-outside s.fds s.max_fd unused_item (ground (arith, v.sized)) in
        absurd (cc)
  ]
]

module _ {s : Selector} (v : IsValid s) (i : ℕ) (x : Item) (h : i < s.fd_size) where
  inside : i < length s.fds
  inside = omega (arith, v.sized)

  length-cleared : length (cleared i x s).fds ≡ s.fd_size
  length-cleared = length-set (set s.fds i x) i unused_item ∙ length-set s.fds i x ∙ v.sized

  cleared_fd : (k f : ℕ) → (look (cleared i x s) k).fd ≡ some f → (look s k).fd ≡ some f
  cleared_fd k f q = elim (cleared-look i x s k inside) [
    | inl (same, l) ↦ absurd (cc)
    | inr (other, l) ↦ sym (ap (λ y. y.fd) l) ∙ q
  ]

  cleared_max :
      (m : ℕ)
      → AtMost (cleared i x s).fds (suc s.max_fd) m
      → (m ≡ 0) ⊎ ((k : ℕ) × (k < suc s.max_fd) × ((look (cleared i x s) k).fd ≡ some m))
      → IsValid (record (cleared i x s) { max_fd = m })
  cleared_max m all source = record {
    sized = length-cleared;
    some_items = v.some_items;
    bound = v.bound;
    indexed = λ k f q. v.indexed k f (cleared_fd k f q);
    below = λ k f q.
        let old = cleared_fd k f q in
        omega
          (arith, v.below k f old, v.indexed k f old, all k f (omega (arith, v.below k f old)) q);
    top = elim source [
      | inl zero_max ↦ inl zero_max
      | inr (k, lt, q) ↦
          let same : m ≡ k = v.indexed k m (cleared_fd k m q) in
          inr (ap (λ j. (look (cleared i x s) j).fd) same ∙ q)
    ];
    read_set = λ k. elim (cleared-look i x s k inside) [
      | inl (same, l) ↦ set_when_self false i k s.master_r same ∙ ap wants_read (sym l)
      | inr (other, l) ↦
          set_when_other false i k s.master_r other ∙ v.read_set k ∙ ap wants_read (sym l)
    ];
    write_set = λ k. elim (cleared-look i x s k inside) [
      | inl (same, l) ↦ set_when_self false i k s.master_w same ∙ ap wants_write (sym l)
      | inr (other, l) ↦
          set_when_other false i k s.master_w other ∙ v.write_set k ∙ ap wants_write (sym l)
    ];
  }

pub update_fdset_lem :
    (y : Item) (i : ℕ) (s : Selector)
    → y.fd ≡ some i
    → items_update_fdset_for_fd y s ≡ some (with_fdsets i y.interest s)
update_fdset_lem y i s e =
    ap (λ o. elim o [ none ↦ none | some fd ↦ some (with_fdsets fd y.interest s) ]) e

empty_item_lem :
    (i : ℕ) (s : Selector) (y : Item) (m : ℕ)
    → y.fd ≡ some i
    → items_max_fd (cleared i (record y { interest = op_noop }) s) ≡ some m
    → empty_item i s y
      ≡ some (success, record (cleared i (record y { interest = op_noop }) s) { max_fd = m })
unfolding items_max_fd
empty_item_lem i s y m e found =
    let x : Item = record y { interest = op_noop } in
    let u : Selector = cleared i x s in
    ap
      (λ o. o >>= λ s'. items_max_fd (put_item i unused_item s') >>= λ max.
        some (success, record (put_item i unused_item s') { max_fd = max }))
      (update_fdset_lem x i (put_item i x s) e)
    ∙ ap (λ o. o >>= λ max. some (success, record u { max_fd = max })) found

-- Behind `handle_close`, the item of a registered descriptor is emptied without an access out of
-- bounds.
pub empty_item-Emptied :
    (i : ℕ) {s : Selector}
    → IsValid s
    → i < s.fd_size
    → (look s i).fd ≡ some i
    → (t : Selector) × (empty_item i s (look s i) ≡ some (success, t)) × Emptied i s t
unfolding items_max_fd
empty_item-Emptied i {s} v h e =
    let x : Item = record (look s i) { interest = op_noop } in
    let inside_s : i < length s.fds = omega (arith, v.sized) in
    let enough : suc s.max_fd ≤ length (cleared i x s).fds =
      omega (arith, length-cleared v i x h, max_fd_inside v) in
    let (m, found, le, all, source) = max_loop_lem (cleared i x s).fds (suc s.max_fd) 0 enough in
    let u : Selector = cleared i x s in
    (
      record u { max_fd = m },
      empty_item_lem i s (look s i) m e found,
      record {
        valid = cleared_max v i x h m all source;
        size = refl;
        gone = elim (cleared-look i x s i inside_s) [
          | inl (same, l) ↦ l
          | inr (other, l) ↦ absurd (ground arith)
        ];
        others = λ k apart. elim (cleared-look i x s k inside_s) [
          | inl (same, l) ↦ absurd (apart same)
          | inr (other, l) ↦ l
        ];
      },
    )
