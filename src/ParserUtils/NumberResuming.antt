-- ===== src/ParserUtils/NumberResuming.antt =====
-- A number that was cut short by the end of the input goes on when more bytes have arrived as if
-- all had been there from the start.
use http_proxy.Base.{
  ℕ, ◌+◌, ◌-◌, ◌^◌, ◌≤◌, ◌<◌, ◌≡◌, ◌≢◌, ◌∙◌, refl, sym, ap, ap₂, Bool, true, false, not, ◌||◌, some,
  [], ◌∷◌, ◌++◌, Bytes, if-congr, length, length-append, append_assoc, take, drop, take-all,
  drop-append_length, drop-length_append, take-append_length, drop-append_le, arith, subst,
}
use http_proxy.Buffer.{Buffer}
use http_proxy.Buffer.Receive.{receive, Fits}
use http_proxy.Buffer.Refine.{contents}
use http_proxy.ParserUtils.{Io}
use http_proxy.ParserUtils.Digits.{span, span-append, value_from, value_from-append}
use http_proxy.ParserUtils.Matching.{NonZero}
use http_proxy.ParserUtils.Numbers.{
  Notation, decimal, hexadecimal, read_number, get_number, get_hex_number,
}
use http_proxy.ParserUtils.Renumbering.{refused, runs_out, ReadNumber, read_number-ReadNumber}
use http_proxy.ParserUtils.Resuming.{receive-Unread, NonZero-append}
use http_proxy.ParserUtils.Streams.{At, Sent, Sent-le, Passing, passing_on, length-contents}
use http_proxy.ParserUtils.Writable.{Writable, writable_decimal, writable_hexadecimal}

-- What two calls leave that no caller can tell apart.
pub record SameNumber (a b : Bool × ℕ × Io) : Type 0 where
  pub ok : a.0 ≡ b.0
  pub number : a.1 ≡ b.1
  pub empty : a.2.empty ≡ b.2.empty
  pub unread : contents a.2.inp ≡ contents b.2.inp
  pub reserved : a.2.inp.inf_limit - a.2.inp.read ≡ b.2.inp.inf_limit - b.2.inp.read
  pub sent : contents a.2.out ≡ contents b.2.out

refused-append :
    (nt : Notation) (xs ys : Bytes)
    → xs ≢ []
    → runs_out nt xs ≡ true
    → refused nt (xs ++ ys) ≡ false
refused-append nt [] ys ne h = absurd (ne refl)
refused-append nt (x ∷ xs) ys ne h = ground arith

NonZero-span :
    (nt : Notation) → nt.is_numeral 0 ≡ false → (xs : Bytes) → span nt xs ≡ length xs → NonZero xs
NonZero-span nt sane [] h = tt
NonZero-span nt sane (x ∷ xs) h =
    ((λ z. ground (arith, ap nt.is_numeral z)), NonZero-span nt sane xs (ground arith))

-- An input that begins with as many numerals as it has bytes, and goes on by `ys`.
module _ (nt : Notation) (xs ys : Bytes) (h : runs_out nt xs ≡ true) where
  span_of : span nt (xs ++ ys) ≡ length xs + span nt ys
  span_of = span-append nt xs ys (ground arith)

  rest_of : drop (span nt (xs ++ ys)) (xs ++ ys) ≡ drop (span nt ys) ys
  rest_of = ap (λ m. drop m (xs ++ ys)) span_of ∙ drop-append_length xs ys _

  read_of : take (span nt (xs ++ ys)) (xs ++ ys) ≡ xs ++ take (span nt ys) ys
  read_of = ap (λ m. take m (xs ++ ys)) span_of ∙ take-append_length xs ys _

  runs_out_of : runs_out nt (xs ++ ys) ≡ runs_out nt ys
  runs_out_of = ground (arith, span_of, length-append {0} xs ys)

  value_of :
      value_from nt 0 (take (span nt (xs ++ ys)) (xs ++ ys))
      ≡ value_from nt (value_from nt 0 xs) (take (span nt ys) ys)
  value_of = ap (value_from nt 0) read_of ∙ value_from-append nt 0 xs _

  refused_of : xs ≢ [] → refused nt (xs ++ ys) ≡ false
  refused_of ne = refused-append nt xs ys ne h

  NonZero-of : nt.is_numeral 0 ≡ false → NonZero xs
  NonZero-of sane = NonZero-span nt sane xs (ground arith)

module _ {nt : Notation} (w : Writable nt) (p : Passing nt.next drop) where
  -- The state after the cut, with the number put back, against the state with all the bytes.
  module _ (number r : ℕ) (xs ys ws : Bytes) (ne : xs ≢ []) (out : runs_out nt xs ≡ true)
      (small : value_from nt 0 xs < 2 ^ 31)
      (small_all : runs_out nt ys ≡ true → value_from nt 0 (xs ++ ys) < 2 ^ 31) (ny : NonZero ys)
      (le : r ≤ length xs) where
    out' : runs_out nt (w.numeral (value_from nt 0 xs)) ≡ true
    out' = ground (arith, w.all_numerals (value_from nt 0 xs))

    ne' : w.numeral (value_from nt 0 xs) ≢ []
    ne' = w.some_numeral (value_from nt 0 xs)

    value_is : value_from nt 0 (w.numeral (value_from nt 0 xs) ++ ys) ≡ value_from nt 0 (xs ++ ys)
    value_is =
        value_from-append nt 0 (w.numeral (value_from nt 0 xs)) ys
        ∙ ap (λ m. value_from nt m ys) (w.value_of (value_from nt 0 xs) small)
        ∙ sym (value_from-append nt 0 xs ys)

    pub read_number_same :
        {i1 i2 : Io} {zone : ℕ}
        → w.width ≤ zone
        → i1.empty ≡ i2.empty
        → At i1 zone
            (length (w.numeral (value_from nt 0 xs)))
            (w.numeral (value_from nt 0 xs) ++ ys)
            (length (w.numeral (value_from nt 0 xs) ++ ys) + 0)
            (ws ++ drop r xs)
        → At i2 zone r (xs ++ ys) (length (xs ++ ys) + 0) ws
        → SameNumber (read_number nt number [] i1) (read_number nt number [] i2)
    read_number_same fits same_empty a1 a2 =
        let b = w.numeral (value_from nt 0 xs) in
        let r1 =
          read_number-ReadNumber w p number [] (length b) (b ++ ys) (ws ++ drop r xs)
            (NonZero-append b ys (NonZero-of nt b ys out' w.sane) ny) (omega arith)
            (λ g. rw value_is (small_all (sym (runs_out_of nt b ys out') ∙ g))) a1 in
        let r2 =
          read_number-ReadNumber w p number [] r (xs ++ ys) ws
            (NonZero-append xs ys (NonZero-of nt xs ys out w.sane) ny) (omega arith)
            (λ g. small_all (sym (runs_out_of nt xs ys out) ∙ g)) a2 in
        let same_bad : refused nt (b ++ ys) ≡ refused nt (xs ++ ys) =
          refused_of nt b ys out' ne' ∙ sym (refused_of nt xs ys out ne) in
        let same_gone : runs_out nt (b ++ ys) ≡ runs_out nt (xs ++ ys) =
          runs_out_of nt b ys out' ∙ sym (runs_out_of nt xs ys out) in
        record {
          ok = r1.ok ∙ ap₂ (λ m n. not (m || n)) same_bad same_gone ∙ sym r2.ok;
          number =
              r1.number_is
              ∙ if-congr (ap₂ (λ m n. m || n) same_bad same_gone) refl (
                  value_of nt b ys out'
                  ∙ ap (λ m. value_from nt m (take (span nt ys) ys))
                      (w.value_of (value_from nt 0 xs) small)
                  ∙ sym (value_of nt xs ys out))
              ∙ sym r2.number_is;
          empty = r1.empty ∙ ap₂ (λ m n. m || n) same_empty same_gone ∙ sym r2.empty;
          unread =
              r1.at.unread.has
              ∙ if-congr same_gone (ap w.numeral value_is)
                  (rest_of nt b ys out' ∙ sym (rest_of nt xs ys out))
              ∙ sym r2.at.unread.has;
          reserved =
              r1.at.unread.reserved
              ∙ if-congr same_gone (ap (λ m. length (w.numeral m)) value_is)
                  (omega (arith, span_of nt b ys out', span_of nt xs ys out, le))
              ∙ sym r2.at.unread.reserved;
          sent =
              r1.at.sent.has
              ∙ append_assoc ws (drop r xs) _
              ∙ ap (λ l. ws ++ l)
                  (ap (λ l. drop r xs ++ l)
                      (ap (drop (length b)) (read_of nt b ys out') ∙ drop-length_append b _)
                    ∙ sym (ap (drop r) (read_of nt xs ys out) ∙ drop-append_le r xs _ le))
              ∙ sym r2.at.sent.has;
        }

  module _ (number : ℕ) (ys : Bytes) {io : Io} {zone r : ℕ} {xs ws : Bytes} {b1 b2 : Buffer}
      (ne : xs ≢ []) (ny : NonZero ys) (out : runs_out nt xs ≡ true)
      (small : value_from nt 0 xs < 2 ^ 31)
      (small_all : runs_out nt ys ≡ true → value_from nt 0 (xs ++ ys) < 2 ^ 31)
      (fits : w.width ≤ zone) (a : At io zone r xs (length xs + (w.width + length ys)) ws)
      (fits1 : Fits ys (read_number nt number [] io).2.inp) (fits2 : Fits ys io.inp)
      (e1 : receive (read_number nt number [] io).2.inp ys ≡ some b1)
      (e2 : receive io.inp ys ≡ some b2) where
    reserved_le : r ≤ length xs
    reserved_le = omega (
      arith,
      a.unread.reserved,
      a.unread.valid.inf_le_write,
      length-contents io.inp,
      ap length a.unread.has,
    )

    cut_off :
        ReadNumber w p number [] io zone r xs
          (w.width + length ys)
          ws
          (refused nt xs)
          true
          (read_number nt number [] io)
    cut_off = rw out at (
        read_number-ReadNumber w p number [] r xs ws (NonZero-of nt xs ys out w.sane) (omega arith)
          (λ _. small) a)

    state1 :
        At
          (record ((read_number nt number [] io).2) { inp = b1; empty = false })
          zone
          (length (w.numeral (value_from nt 0 xs)))
          (w.numeral (value_from nt 0 xs) ++ ys)
          (length (w.numeral (value_from nt 0 xs) ++ ys) + 0)
          (ws ++ drop r xs)
    state1 =
        let first = cut_off in
        let b = w.numeral (value_from nt 0 xs) in
        record {
          unread = receive-Unread ys first.at.unread fits1 e1;
          sent = Sent-le (omega (arith, length-append {0} b ys, w.fits (value_from nt 0 xs))) (
              subst
                (λ l.
                  Sent (read_number nt number [] io).2.out (w.width + length ys) (ws ++ drop r l))
                (take-all (span nt xs) xs (ground arith)) first.at.sent);
        }

    state2 : At (record io { inp = b2; empty = false }) zone r (xs ++ ys) (length (xs ++ ys) + 0) ws
    state2 = record {
      unread = receive-Unread ys a.unread fits2 e2;
      sent = Sent-le (omega (arith, length-append {0} xs ys)) a.sent;
    }

    pub read_number_resumes :
        SameNumber
          (read_number nt number []
            (record ((read_number nt number [] io).2) { inp = b1; empty = false }))
          (read_number nt number [] (record io { inp = b2; empty = false }))
    read_number_resumes =
        read_number_same number r xs ys ws ne out small small_all ny reserved_le fits refl state1
          state2

-- `getNumber` with an empty prefix, on at least one digit and no other byte, where the input gives out, called again
-- when more bytes have been received, does what one call on all the bytes does: the same result,
-- number and flag, the same bytes left to read, as many of them reserved, and the same bytes
-- passed on. The number read before the cut, and the whole number if the input gives out again,
-- are taken to be below 2^31; the reserved zone holds ten digits, and the output has the room.
pub get_number_resumes :
    (number : ℕ) (ys : Bytes) {io : Io} {zone r : ℕ} {xs ws : Bytes} {b1 b2 : Buffer}
    → xs ≢ []
    → NonZero ys
    → runs_out decimal xs ≡ true
    → value_from decimal 0 xs < 2 ^ 31
    → (runs_out decimal ys ≡ true → value_from decimal 0 (xs ++ ys) < 2 ^ 31)
    → 10 ≤ zone
    → At io zone r xs (length xs + (10 + length ys)) ws
    → Fits ys (get_number number [] io).2.inp
    → Fits ys io.inp
    → receive (get_number number [] io).2.inp ys ≡ some b1
    → receive io.inp ys ≡ some b2
    → SameNumber
        (get_number number [] (record ((get_number number [] io).2) { inp = b1; empty = false }))
        (get_number number [] (record io { inp = b2; empty = false }))
unfolding get_number
get_number_resumes = read_number_resumes writable_decimal passing_on

-- `getHexNumber` on at least one hexadecimal digit and no other byte, called again when more bytes
-- have been received, does what one call on all the bytes does, under the same conditions as
-- `getNumber`, for a reserved zone of eight digits.
pub get_hex_number_resumes :
    (number : ℕ) (ys : Bytes) {io : Io} {zone r : ℕ} {xs ws : Bytes} {b1 b2 : Buffer}
    → xs ≢ []
    → NonZero ys
    → runs_out hexadecimal xs ≡ true
    → value_from hexadecimal 0 xs < 2 ^ 31
    → (runs_out hexadecimal ys ≡ true → value_from hexadecimal 0 (xs ++ ys) < 2 ^ 31)
    → 8 ≤ zone
    → At io zone r xs (length xs + (8 + length ys)) ws
    → Fits ys (get_hex_number number [] io).2.inp
    → Fits ys io.inp
    → receive (get_hex_number number [] io).2.inp ys ≡ some b1
    → receive io.inp ys ≡ some b2
    → SameNumber
        (get_hex_number number []
          (record ((get_hex_number number [] io).2) { inp = b1; empty = false }))
        (get_hex_number number [] (record io { inp = b2; empty = false }))
unfolding get_hex_number
get_hex_number_resumes = read_number_resumes writable_hexadecimal passing_on
