-- ===== src/ParserUtils/PutBack.antt =====
-- Putting a number back in the reserved zone: `writeDecToBufReverse` and `writeHexToBufReverse`
-- write the numeral that the readers turn into the same number again.
use http_proxy.Base.{
  ℕ, zero, suc, ◌+◌, ◌/◌, ◌%◌, ◌^◌, ◌≤◌, ◌<◌, ◌≡◌, refl, true, false, [], ◌∷◌, ◌++◌, Bytes, ◌==◌,
  if◌then◌else◌, length, append_assoc, length-append, Bool-cases, inl, inr, arith, int_mod,
  int_is_pos, subst,
}
use http_proxy.Buffer.{Buffer, write_reverse}
use http_proxy.ParserUtils.{digits_reverse_loop}
use http_proxy.ParserUtils.Numbers.{Notation}
use http_proxy.ParserUtils.Digits.{span, value_from, value_from-append, span-append}
use http_proxy.ParserUtils.Streams.{Unread, Held, put_back}
use native.Mathlib.Nat.{
  div-add-mod, mod-lt, mod-eq_of_lt, pow-zero, div-le_self, div-lt_iff_lt-mul, pow-suc,
}

module _ (base : ℕ) (digit : ℕ → ℕ) where
  -- The digits of a positive number, the highest first; none of 0.
  abbrev pub digits_of : ℕ → ℕ → Bytes
  digits_of zero n = []
  digits_of (suc fuel) n =
      if n == 0 then [] else digits_of fuel (n / base) ++ (digit (n % base) ∷ [])

  pub length-digits_of : (fuel n : ℕ) → length (digits_of fuel n) ≤ fuel
  length-digits_of zero n = omega arith
  length-digits_of (suc fuel) n = ground (
    arith,
    length-digits_of fuel (n / base),
    length-append {0} (digits_of fuel (n / base)) (digit (n % base) ∷ []),
  )

  pub digits_reverse_loop-Held :
      (fuel n : ℕ) {b : Buffer} {zone : ℕ} {xs : Bytes}
      → 1 < base
      → n < 2 ^ 31
      → fuel + length xs ≤ zone
      → Held b zone xs
      → Held (digits_reverse_loop base digit fuel n b) zone (digits_of fuel n ++ xs)
  unfolding digits_reverse_loop
  digits_reverse_loop-Held zero n hb h k u = u
  digits_reverse_loop-Held (suc fuel) n {b} {zone} {xs} hb h k u = elim (Bool-cases (n == 0)) [
    | inl e ↦ let no : int_is_pos n ≡ false = ground arith in rw (e, no) u
    | inr e ↦
        let yes' : int_is_pos n ≡ true = ground arith in
        let c = digit (n % base) in
        let one : Held (write_reverse b c) zone (c ∷ xs) =
          subst (λ r. Unread (write_reverse b c) zone r (c ∷ xs)) (omega arith)
            (put_back c u (omega arith) refl) in
        rw (e, yes', append_assoc)
          (digits_reverse_loop-Held fuel (n / base) hb (omega (arith, div-le_self n base))
            (omega arith) one)
  ]

-- The digits that are written are those that are read.
pub record Agrees (nt : Notation) (digit : ℕ → ℕ) : Type 0 where
  pub base_gt_one : 1 < nt.base
  pub numeral : (d : ℕ) → d < nt.base → nt.is_numeral (digit d) ≡ true
  pub value_is : (d : ℕ) → d < nt.base → nt.value (digit d) ≡ d

module _ (nt : Notation) (digit : ℕ → ℕ) (ag : Agrees nt digit) where
  digit_is : (n : ℕ) → n % nt.base < nt.base
  digit_is n = mod-lt n (omega (arith, ag.base_gt_one))

  pub span-digits_of :
      (fuel n : ℕ)
      → span nt (digits_of nt.base digit fuel n) ≡ length (digits_of nt.base digit fuel n)
  span-digits_of zero n = refl
  span-digits_of (suc fuel) n =
      let ds = digits_of nt.base digit fuel (n / nt.base) in
      let d = digit (n % nt.base) in
      ground (
        arith,
        span-append nt ds (d ∷ []) (span-digits_of fuel (n / nt.base)),
        length-append {0} ds (d ∷ []),
        ag.numeral (n % nt.base) (digit_is n),
      )

  pub value_from-digits_of :
      (fuel n : ℕ)
      → n < nt.base ^ fuel
      → n < int_mod
      → value_from nt 0 (digits_of nt.base digit fuel n) ≡ n
  value_from-digits_of zero n h k = omega (arith, pow-zero nt.base)
  value_from-digits_of (suc fuel) n h k = elim (Bool-cases (n == 0)) [
    | inl e ↦ rw e (ground arith)
    | inr e ↦
        let q = n / nt.base in
        let ds = digits_of nt.base digit fuel q in
        let d = n % nt.base in
        let fewer : q < nt.base ^ fuel =
          (div-lt_iff_lt-mul (omega (arith, ag.base_gt_one))).1 (rw pow-suc at h) in
        rw
          (
            e,
            value_from-append nt 0 ds (digit d ∷ []),
            value_from-digits_of fuel q fewer (omega (arith, div-le_self n nt.base)),
            ag.value_is d (digit_is n),
            div-add-mod n nt.base,
          )
          (mod-eq_of_lt k)
  ]
