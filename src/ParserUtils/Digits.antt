-- ===== src/ParserUtils/Digits.antt =====
-- What `getNumber` and its hexadecimal kin read.
use http_proxy.Base.{
  ℕ, zero, suc, ◌+◌, ◌-◌, ◌*◌, ◌%◌, ◌≤◌, ◌≡◌, ◌≢◌, ◌∙◌, refl, ap, false, [], ◌∷◌, ◌++◌, Bytes,
  if◌then◌else◌, length, append_assoc, append-nil, take, drop, Bool-cases, inl, inr, arith, int_mod,
}
use http_proxy.Buffer.Deque.{first}
use http_proxy.ParserUtils.{Io}
use http_proxy.ParserUtils.Numbers.{Notation, number_loop}
use http_proxy.ParserUtils.Streams.{At, At-cast, At-le, peek_cons, peek_nil, Passing}

module _ (nt : Notation) where
  -- How many numerals stand at the front, and the value that they add to a number (an `int`).
  abbrev pub span : Bytes → ℕ
  span [] = 0
  span (x ∷ xs) = if nt.is_numeral x then suc (span xs) else 0

  abbrev pub value_from : ℕ → Bytes → ℕ
  value_from current [] = current
  value_from current (x ∷ xs) = value_from ((nt.base * current + nt.value x) % int_mod) xs

  pub span-le : (xs : Bytes) → span xs ≤ length xs
  span-le [] = omega arith
  span-le (x ∷ xs) = ground (arith, span-le xs)

  -- The numerals of a notation are not 0, and the byte behind a span of them is none.
  abbrev pub Sane : Type 0
  Sane = nt.is_numeral 0 ≡ false

  pub span-append : (xs ys : Bytes) → span xs ≡ length xs → span (xs ++ ys) ≡ length xs + span ys
  span-append [] ys h = omega arith
  span-append (x ∷ xs) ys h = ground (arith, span-append xs ys)

  pub value_from-append :
      (current : ℕ) (xs ys : Bytes)
      → value_from current (xs ++ ys) ≡ value_from (value_from current xs) ys
  value_from-append current [] ys = refl
  value_from-append current (x ∷ xs) ys =
      value_from-append ((nt.base * current + nt.value x) % int_mod) xs ys

  module _ {emit : ℕ → Bytes → Bytes} (p : Passing nt.next emit) (sane : Sane) where
    -- What the loop leaves: the byte that stopped it, the number, and the buffers.
    pub record Counted (io : Io) (zone r : ℕ) (xs : Bytes) (room : ℕ) (ws : Bytes) (n current : ℕ)
        (result : ℕ × ℕ × Io) : Type 0 where
      pub stopped : result.0 ≡ first (drop n xs)
      pub number : result.1 ≡ value_from current (take n xs)
      pub at : At result.2 zone (r - n) (drop n xs) room (ws ++ emit r (take n xs))
      pub same_empty : result.2.empty ≡ io.empty

    -- With a round for each unread byte the loop ends by its test.
    pub number_loop-Counted :
        (fuel : ℕ) {io : Io} {zone room : ℕ} (current r : ℕ) (xs ws : Bytes)
        → length xs ≤ fuel
        → At io zone r xs (length xs + room) ws
        → Counted io zone r xs room ws (span xs) current (number_loop nt fuel current io)
    unfolding number_loop
    number_loop-Counted zero current r [] ws h a = record {
      stopped = peek_nil a.unread;
      number = refl;
      at = At-le (omega arith) (At-cast a (omega arith) (rw (p.emit-nil r, append-nil)));
      same_empty = refl;
    }
    number_loop-Counted zero current r (x ∷ xs) ws h a = absurd (omega arith)
    number_loop-Counted (suc fuel) current r [] ws h a =
        rw (peek_nil a.unread, sane)
          record {
            stopped = refl;
            number = refl;
            at = At-le (omega arith) (At-cast a (omega arith) (rw (p.emit-nil r, append-nil)));
            same_empty = refl;
          }
    number_loop-Counted (suc fuel) {io} {zone} {room} current r (x ∷ xs) ws h a =
        rw (peek_cons a.unread) (elim (Bool-cases (nt.is_numeral x)) [
          | inl e ↦
              let x-ne : x ≢ 0 = λ z. ground (arith, ap nt.is_numeral z) in
              let a' : At (nt.next io) zone (r - 1) xs (length xs + room) (ws ++ emit r (x ∷ [])) =
                p.one r (At-le (omega arith) a) x-ne in
              let rest =
                number_loop-Counted fuel ((nt.base * current + nt.value x) % int_mod) (r - 1) xs
                  (ws ++ emit r (x ∷ [])) (omega arith) a' in
              rw e record {
                stopped = rest.stopped;
                number = rest.number;
                at =
                    At-cast rest.at (omega arith)
                      (append_assoc ws _ _ ∙ ap (λ l. ws ++ l) (p.emit-cons r x _));
                same_empty = rest.same_empty ∙ p.keeps_empty io;
              }
          | inr e ↦ rw e record {
            stopped = refl;
            number = refl;
            at = At-le (omega arith) (At-cast a (omega arith) (rw (p.emit-nil r, append-nil)));
            same_empty = refl;
          }
        ])
