-- ===== src/Selector/Capacity.antt =====
-- How large `fds` gets.
use http_proxy.Base.{
  ℕ, zero, suc, ◌+◌, ◌*◌, ◌/◌, ◌%◌, ◌^◌, ◌≤◌, ◌<◌, ◌≡◌, ◌⊎◌, ◌∙◌, refl, ap, true, false, some, ◌==◌,
  ltb, leb, if◌then◌else◌, Bool-cases, inl, inr, arith,
}
use native.Mathlib.Nat.{pow-succ', pow-le-pow_right}
use http_proxy.Selector.{
  Item, Selector, Status, success, enomem, maxfd, Memory, items_max_size, count_bits, next_capacity,
  resized, allocate, ensure_capacity, zero_item, is_null, size_max, element_size,
}

pow_suc : (k : ℕ) → 2 ^ suc k ≡ 2 * 2 ^ k
pow_suc k = pow-succ' 2 k

-- A number of at most `k` bits, with `k` rounds of fuel: what the loop counts is enough bits for it.
count_bits_fit :
    (fuel k n bits : ℕ)
    → n < 2 ^ k
    → k ≤ fuel
    → (c : ℕ) × (count_bits fuel n bits ≡ bits + c) × (n < 2 ^ c) × (c ≤ k)
unfolding count_bits
count_bits_fit zero zero n bits h f = (0, omega arith, h, omega arith)
count_bits_fit zero (suc k) n bits h f = absurd (omega arith)
count_bits_fit (suc fuel) zero n bits h f =
    let done : n == 0 ≡ true = ground arith in (0, rw done (omega arith), h, omega arith)
count_bits_fit (suc fuel) (suc k) n bits h f = elim (Bool-cases (n == 0)) [
  | inl done ↦ (0, rw done (omega arith), ground (arith), omega arith)
  | inr more ↦
      let (c, e, lt, le) =
        count_bits_fit fuel k (n / 2) (bits + 1) (omega (arith, pow_suc k)) (omega arith) in
      (suc c, rw (more, e) (omega arith), omega (arith, pow_suc c), omega arith)
]

-- For at most 1024 descriptors, `next_capacity` gives more than that, 1025 at most, and its assert
-- holds.
pub next_capacity_lem :
    (n : ℕ) → n ≤ items_max_size → (m : ℕ) × (next_capacity n ≡ some m) × (n < m) × (m ≤ 1025)
unfolding next_capacity
next_capacity_lem n h =
    let (c, e, lt, le) = count_bits_fit 64 11 n 0 (omega arith) (omega arith) in
    let small : 2 ^ c ≤ 2 ^ 11 = pow-le-pow_right (omega arith) le in
    let bits : count_bits 64 n 0 ≡ c = omega arith in
    let tmp : 2 ^ count_bits 64 n 0 % 2 ^ 64 ≡ 2 ^ c =
      ap (λ k. 2 ^ k % 2 ^ 64) bits ∙ omega arith in
    let fits : leb n (2 ^ c) ≡ true = ground arith in
    (
      (if ltb items_max_size (2 ^ c) then items_max_size else 2 ^ c) + 1,
      rw (tmp, fits) refl,
      ground arith,
      ground arith,
    )

-- `t` has room for `n` descriptors, the items of `s` and, behind them, unused ones.
pub record Enlarged (n : ℕ) (s t : Selector) : Type 0 where
  pub room : n < t.fd_size
  pub grown : s.fd_size ≤ t.fd_size
  pub bound : t.fd_size ≤ 1025
  pub junk : Item
  pub is : t ≡ resized t.fd_size junk s

resized-Enlarged :
    (n m : ℕ) (junk : Item) (s : Selector)
    → n < m
    → s.fd_size ≤ n
    → m ≤ 1025
    → Enlarged n s (resized m junk s)
resized-Enlarged n m junk s h le b = record {
  room = h;
  grown = omega arith;
  bound = b;
  junk = junk;
  is = refl;
}

-- What `ensure_capacity` says and does: there was room already; more than 1024 descriptors are
-- asked for; there is no memory; or the table is enlarged.
abbrev pub Ensured : Memory → ℕ → Selector → Status → Selector → Type 0
Ensured m n s status t =
    ((n < s.fd_size) × (status ≡ success) × (t ≡ s))
    ⊎ ((s.fd_size ≤ n)
        × (((1024 < n) × (status ≡ maxfd) × (t ≡ s))
            ⊎ ((n ≤ 1024) × (m.enough ≡ false) × (status ≡ enomem) × (t ≡ s))
            ⊎ ((n ≤ 1024) × (m.enough ≡ true) × (status ≡ success) × Enlarged n s t)))

allocate-Ensured :
    (m : Memory) (n new_size : ℕ) (s : Selector)
    → n ≤ 1024
    → n < new_size
    → new_size ≤ 1025
    → s.fd_size ≤ n
    → Ensured m n s (allocate m new_size s).0 (allocate m new_size s).1
allocate-Ensured m n new_size s h lt b le =
    let small : ltb (size_max / element_size) new_size ≡ false = ground arith in
    elim (Bool-cases (is_null s.fds)) [
      | inl null ↦ elim (Bool-cases m.enough) [
        | inl enough ↦
            rw (null, enough)
              (inr (le, inr (inr (h, refl, refl, resized-Enlarged n new_size zero_item s lt le b))))
        | inr short ↦ rw (null, short) (inr (le, inr (inl (h, refl, refl, refl))))
      ]
      | inr there ↦ elim (Bool-cases m.enough) [
        | inl enough ↦
            rw (there, small, enough)
              (inr (le, inr (inr (h, refl, refl, resized-Enlarged n new_size m.junk s lt le b))))
        | inr short ↦ rw (there, small, short) (inr (le, inr (inl (h, refl, refl, refl))))
      ]
    ]

-- `ensure_capacity` never fails its assert, and gives success and leaves the table alone when it has
-- room for `n`; SELECTOR_MAXFD when `n` is more than 1024;
-- SELECTOR_ENOMEM without memory; and otherwise success and a table of at most 1025 items with more
-- than `n`, the items there were in front and unused ones behind them.
pub ensure_capacity-Ensured :
    (m : Memory) (n : ℕ) (s : Selector)
    → (status : Status) × (t : Selector) × (ensure_capacity m n s ≡ some (status, t))
      × Ensured m n s status t
unfolding ensure_capacity
ensure_capacity-Ensured m n s = elim (Bool-cases (ltb n s.fd_size)) [
  | inl room ↦ (success, s, rw room refl, inl (ground arith, refl, refl))
  | inr out ↦ elim (Bool-cases (ltb items_max_size n)) [
    | inl many ↦ (maxfd, s, rw (out, many) refl, inr (ground arith, inl (ground arith, refl, refl)))
    | inr few ↦
        let (new_size, e, lt, b) = next_capacity_lem n (ground arith) in
        (
          (allocate m new_size s).0,
          (allocate m new_size s).1,
          rw (out, few, e) refl,
          allocate-Ensured m n new_size s (ground arith) lt b (ground arith),
        )
  ]
]
