-- ===== src/ParserUtils/Renumbering.antt =====
-- What the number readers return on every outcome, and how a number that was cut short by the end
-- of the input goes on when more bytes have arrived.
use http_proxy.Base.{
  ℕ, ◌+◌, ◌-◌, ◌^◌, ◌≤◌, ◌<◌, ◌≡◌, ◌∙◌, refl, ap, Bool, true, false, not, ◌&&◌, ◌||◌, [], ◌∷◌, ◌++◌,
  Bytes, ◌==◌, if◌then◌else◌, length, append-nil, take, drop, take-all, drop-all, Bool-cases, inl,
  inr, arith, subst,
}
use http_proxy.Buffer.{Buffer, peek}
use http_proxy.Buffer.Deque.{first}
use http_proxy.ParserUtils.{Io, unread_count, write_prefix}
use http_proxy.ParserUtils.Numbers.{
  Notation, decimal, hexadecimal, read_number, get_number, get_hex_number, simple_get_hex_number,
}
use http_proxy.ParserUtils.Digits.{span, span-le, value_from, number_loop-Counted}
use http_proxy.ParserUtils.Matching.{NonZero, first-drop}
use http_proxy.ParserUtils.Writable.{
  Writable, writable_decimal, writable_hexadecimal, writable_simple_hexadecimal,
}
use http_proxy.ParserUtils.Streams.{
  Unread, Unread-count, Held, At, At-cast, At-le, peek_cons, peek_nil, Passing, passing_on,
  passing_over, reserved_nil, put_back_all, Sent-le,
}

-- How a number read ends: the first byte is no numeral; the input gives out; or there is a number.
abbrev pub refused : Notation → Bytes → Bool
refused nt [] = false
refused nt (x ∷ xs) = not (nt.is_numeral x)

abbrev pub runs_out : Notation → Bytes → Bool
runs_out nt xs = span nt xs == length xs

refused-peek :
    (nt : Notation) (xs : Bytes) {b : Buffer} {zone r : ℕ}
    → NonZero xs
    → Unread b zone r xs
    → (not (peek b == 0) && not (nt.is_numeral (peek b))) ≡ refused nt xs
refused-peek nt [] h u = rw (peek_nil u)
refused-peek nt (x ∷ xs) h u = rw (peek_cons u) (ground arith)

refused-runs_out : (nt : Notation) (xs : Bytes) → refused nt xs ≡ true → runs_out nt xs ≡ false
refused-runs_out nt [] h = cc
refused-runs_out nt (x ∷ xs) h = ground arith

span-refused : (nt : Notation) (xs : Bytes) → refused nt xs ≡ true → span nt xs ≡ 0
span-refused nt [] h = refl
span-refused nt (x ∷ xs) h = ground arith

stopped_end :
    (nt : Notation) (xs : Bytes) {c : ℕ}
    → c ≡ first (drop (span nt xs) xs)
    → NonZero xs
    → (c == 0) ≡ runs_out nt xs
stopped_end nt xs e nz = ground (arith, first-drop (span nt xs) xs nz, span-le nt xs)

module _ {nt : Notation} (w : Writable nt) {emit : ℕ → Bytes → Bytes}
    (p : Passing nt.next emit) where
  value : Bytes → ℕ
  value xs = value_from nt 0 (take (span nt xs) xs)

  -- What a reader leaves: the outcome `ok`, the number, the flag, the unread bytes with the count
  -- of those reserved, and what has been passed on.
  pub record ReadNumber (number : ℕ) (prefix : Bytes) (io : Io) (zone r : ℕ) (xs : Bytes) (room : ℕ)
      (ws : Bytes) (bad gone : Bool) (result : Bool × ℕ × Io) : Type 0 where
    pub ok : result.0 ≡ not (bad || gone)
    pub number_is :
        result.1 ≡ (if bad || gone then number else value_from nt 0 (take (span nt xs) xs))
    pub empty : result.2.empty ≡ io.empty || gone
    pub at :
        At result.2 zone
          (if gone then length (prefix ++ w.numeral (value_from nt 0 xs)) else r - span nt xs)
          (if gone then prefix ++ w.numeral (value_from nt 0 xs) else drop (span nt xs) xs)
          room
          (ws ++ emit r (take (span nt xs) xs))

  put_number :
      (xs prefix : Bytes) {b : Buffer} {zone r current : ℕ}
      → runs_out nt xs ≡ true
      → (runs_out nt xs ≡ true → value_from nt 0 xs < 2 ^ 31)
      → length prefix + w.width ≤ zone
      → current ≡ value_from nt 0 (take (span nt xs) xs)
      → Unread b zone r (drop (span nt xs) xs)
      → Held
          (write_prefix (nt.put_back current b) prefix)
          zone
          (prefix ++ w.numeral (value_from nt 0 xs))
  unfolding write_prefix
  put_number xs prefix {b} {zone} {r} {current} gone small fits e u =
      let all : length xs ≤ span nt xs = ground arith in
      let v = value_from nt 0 xs in
      let is : current ≡ v = e ∙ ap (value_from nt 0) (take-all (span nt xs) xs all) in
      let u' : Unread b zone r [] =
        subst (λ l. Unread b zone r l) (drop-all (span nt xs) xs all) u in
      let held : Held b zone [] = subst (λ k. Unread b zone k []) (reserved_nil u') u' in
      rw is (
        subst (λ l. Held (write_prefix (nt.put_back v b) prefix) zone (l ++ w.numeral v))
          (take-all (length prefix) prefix (omega arith))
          (put_back_all prefix (length prefix) (w.put v (small gone) (omega arith) held)
            (omega arith) (omega (arith, w.fits v))))

  pub read_number-ReadNumber :
      (number : ℕ) (prefix : Bytes) {io : Io} {zone room : ℕ} (r : ℕ) (xs ws : Bytes)
      → NonZero xs
      → length prefix + w.width ≤ zone
      → (runs_out nt xs ≡ true → value_from nt 0 xs < 2 ^ 31)
      → At io zone r xs (length xs + room) ws
      → ReadNumber number prefix io zone r xs room ws
          (refused nt xs)
          (runs_out nt xs)
          (read_number nt number prefix io)
  unfolding read_number
  read_number-ReadNumber number prefix {io} {zone} {room} r xs ws nz fits small a =
      let loop =
        number_loop-Counted nt p w.sane (unread_count io.inp) 0 r xs ws
          (omega (arith, Unread-count a.unread)) a in
      elim (Bool-cases (refused nt xs)) [
        | inl bad ↦
            let none : span nt xs ≡ 0 = span-refused nt xs bad in
            rw (refused-peek nt xs nz a.unread ∙ bad, bad, refused-runs_out nt xs bad)
              record {
                ok = refl;
                number_is = refl;
                empty = ground arith;
                at =
                    rw none (
                      At-le (omega arith)
                        (At-cast a (omega arith) (rw (p.emit-nil r, append-nil))));
              }
        | inr fine ↦ elim (Bool-cases (runs_out nt xs)) [
          | inl gone ↦
              rw
                (
                  refused-peek nt xs nz a.unread ∙ fine,
                  fine,
                  stopped_end nt xs loop.stopped nz ∙ gone,
                  gone,
                )
                record {
                  ok = refl;
                  number_is = refl;
                  empty = ground arith;
                  at = record {
                    unread = put_number xs prefix gone small fits loop.number loop.at.unread;
                    sent = Sent-le (omega arith) loop.at.sent;
                  };
                }
          | inr more ↦
              rw
                (
                  refused-peek nt xs nz a.unread ∙ fine,
                  fine,
                  stopped_end nt xs loop.stopped nz ∙ more,
                  more,
                )
                record {
                  ok = refl;
                  number_is = loop.number;
                  empty = ground (arith, loop.same_empty);
                  at = At-le (omega arith) loop.at;
                }
        ]
      ]

-- `getNumber`, `getHexNumber` and `simpleGetHexNumber`, on input bytes with no 0 among them, refuse
-- an input whose first byte is no numeral and leave it as it is. If the input gives out in the
-- middle of the number they set the flag, leave `*number` alone and put the number read so far
-- back, behind the prefix, in the reserved zone, if it is an `int` that is not negative. Else they
-- return the value of all the numerals that stand next. The first two pass on what they read,
-- except the bytes that were reserved. The reserved zone holds the prefix and ten digits, and the
-- output has the room.
pub get_number-ReadNumber :
    (number : ℕ) (prefix : Bytes) {io : Io} {zone room : ℕ} (r : ℕ) (xs ws : Bytes)
    → NonZero xs
    → length prefix + 10 ≤ zone
    → (runs_out decimal xs ≡ true → value_from decimal 0 xs < 2 ^ 31)
    → (runs_out hexadecimal xs ≡ true → value_from hexadecimal 0 xs < 2 ^ 31)
    → At io zone r xs (length xs + room) ws
    → ReadNumber writable_decimal passing_on number prefix io zone r xs room ws
        (refused decimal xs)
        (runs_out decimal xs)
        (get_number number prefix io)
      × ReadNumber writable_hexadecimal passing_on number prefix io zone r xs room ws
          (refused hexadecimal xs)
          (runs_out hexadecimal xs)
          (get_hex_number number prefix io)
      × ReadNumber writable_simple_hexadecimal passing_over number prefix io zone r xs room ws
          (refused hexadecimal xs)
          (runs_out hexadecimal xs)
          (simple_get_hex_number number prefix io)
unfolding get_number get_hex_number simple_get_hex_number
get_number-ReadNumber number prefix r xs ws nz fits dec hex a = (
  read_number-ReadNumber writable_decimal passing_on number prefix r xs ws nz fits dec a,
  read_number-ReadNumber writable_hexadecimal passing_on number prefix r xs ws nz (omega arith) hex
      a,
  read_number-ReadNumber writable_simple_hexadecimal passing_over number prefix r xs ws nz
      (omega arith) hex a,
)
