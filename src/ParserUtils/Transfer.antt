-- ===== src/ParserUtils/Transfer.antt =====
-- `writeToTransfBufWithZero`: moving a given number of bytes of a body, of any value, to the output.
use http_proxy.Base.{
  ℕ, zero, suc, ◌+◌, ◌-◌, ◌≤◌, ◌<◌, ◌^◌, ◌≡◌, ◌∙◌, refl, sym, ap, true, false, some, [], ◌∷◌, ◌++◌,
  Bytes, ltb, leb, int_is_pos, length, length-append, take, drop, drop-nil, drop-all, take-all,
  drop-append_length, take-append_length, drop-append_le, append-nil, append_assoc, arith, subst,
}
use http_proxy.Buffer.{Buffer, is_reserved, can_read, read}
use http_proxy.Buffer.Receive.{receive, Fits}
use http_proxy.ParserUtils.NumberResuming.{SameNumber}
use http_proxy.ParserUtils.Resuming.{receive-Unread}
use http_proxy.ParserUtils.{
  Io, read_and_write_with_zero, transf_loop_with_zero, write_to_transf_buf_with_zero,
}
use http_proxy.ParserUtils.Streams.{
  Unread, Sent, Sent-le, At, At-le, At-cast, passing_on, read_cons, reserved_nil, Unread-count,
  send,
}

module _ {io : Io} {zone room : ℕ} {x : ℕ} {xs ws : Bytes} where
  fresh_with_zero :
      At io zone 0 (x ∷ xs) (suc room) ws
      → (((read_and_write_with_zero io).1).empty ≡ io.empty)
        × At (read_and_write_with_zero io).1 zone 0 xs room (ws ++ (x ∷ []))
  unfolding read_and_write_with_zero
  fresh_with_zero a =
      let e : is_reserved io.inp ≡ false =
        unfold is_reserved in ground (arith, a.unread.reserved) in
      let can : can_read io.inp ≡ true = unfold can_read in ground (arith, Unread-count a.unread) in
      let (c, u) = read_cons a.unread in
      rw (can, e) (refl, record { unread = u; sent = rw c (send x a.sent) })

  reserved_with_zero :
      {r : ℕ}
      → At io zone (suc r) (x ∷ xs) room ws
      → (((read_and_write_with_zero io).1).empty ≡ io.empty)
        × At (read_and_write_with_zero io).1 zone r xs room ws
  unfolding read_and_write_with_zero
  reserved_with_zero {r} a =
      let e : is_reserved io.inp ≡ true = unfold is_reserved in ground (arith, a.unread.reserved) in
      let can : can_read io.inp ≡ true = unfold can_read in ground (arith, Unread-count a.unread) in
      let (c, u) = read_cons a.unread in
      rw (can, e)
        (
          refl,
          record {
            unread = subst (λ k. Unread (read io.inp).1 zone k xs) (omega arith) u;
            sent = a.sent;
          },
        )

one_with_zero :
    {io : Io} {zone room x : ℕ} {xs ws : Bytes} (r : ℕ)
    → At io zone r (x ∷ xs) (suc room) ws
    → (((read_and_write_with_zero io).1).empty ≡ io.empty)
      × At (read_and_write_with_zero io).1 zone (r - 1) xs room (ws ++ drop r (x ∷ []))
one_with_zero zero a = fresh_with_zero a
one_with_zero {io} {zone} {room} {x} {xs} {ws} (suc r) a =
    let (e, b) = reserved_with_zero a in
    (
      e,
      rw (drop-nil r, append-nil)
          record {
            unread =
                subst (λ k. Unread (read_and_write_with_zero io).1.inp zone k xs) (omega arith)
                  b.unread;
            sent = Sent-le (omega arith) b.sent;
          },
    )

none_with_zero :
    {io : Io} {zone r room : ℕ} {ws : Bytes}
    → At io zone r [] room ws
    → read_and_write_with_zero io ≡ (0, record io { empty = true })
unfolding read_and_write_with_zero
none_with_zero {io} a =
    let can : can_read io.inp ≡ false = unfold can_read in ground (arith, Unread-count a.unread) in
    rw can refl

-- What moving `n` bytes leaves, of the input `xs` with `r` reserved bytes in front.
pub record Transferred (n : ℕ) (zone r : ℕ) (xs : Bytes) (room : ℕ) (ws : Bytes) (result : ℕ × Io)
    : Type 0 where
  pub left : result.0 ≡ n - length xs
  pub empty : result.1.empty ≡ ltb (length xs) n
  pub at : At result.1 zone (r - n) (drop n xs) room (ws ++ drop r (take n xs))

transf_loop_with_zero-Transferred :
    (n r : ℕ) (xs ws : Bytes) {io : Io} {zone room : ℕ}
    → io.empty ≡ false
    → At io zone r xs (n + room) ws
    → Transferred n zone r xs room ws (transf_loop_with_zero n io)
unfolding transf_loop_with_zero
transf_loop_with_zero-Transferred zero r xs ws e a = record {
  left = omega arith;
  empty = e ∙ ground arith;
  at =
      At-cast (At-le (omega arith) a) (omega arith)
        (sym (ap (λ l. ws ++ l) (drop-nil r) ∙ append-nil ws));
}
transf_loop_with_zero-Transferred (suc n) r [] ws {io} {zone} e a = rw (none_with_zero a) record {
  left = omega arith;
  empty = ground arith;
  at = record {
    unread = subst (λ k. Unread io.inp zone k []) (omega (arith, reserved_nil a.unread)) a.unread;
    sent = rw (drop-nil r, append-nil) (Sent-le (omega arith) a.sent);
  };
}
transf_loop_with_zero-Transferred (suc n) r (x ∷ xs) ws {io} {zone} {room} e a =
    let (same, b) = one_with_zero {room = n + room} r (At-le (omega arith) a) in
    let rest =
      transf_loop_with_zero-Transferred n (r - 1) xs (ws ++ drop r (x ∷ [])) (same ∙ e) b in
    rw (same ∙ e) record {
      left = rest.left ∙ omega arith;
      empty = rest.empty ∙ ground arith;
      at = At-cast rest.at (omega arith) (
          append_assoc ws (drop r (x ∷ [])) _
          ∙ ap (λ l. ws ++ l) (passing_on.emit-cons r x (take n xs)));
    }

-- `writeToTransfBufWithZero`, for a count that is an `int` and not negative, with room for as many
-- bytes at the output, and with the flag unset: it moves that many bytes, or all there are; it
-- returns whether the bytes were enough, leaves how many are still to move, and sets the flag if
-- any are. The bytes that were reserved are not passed on.
pub write_to_transf_buf_with_zero-Transferred :
    (n r : ℕ) (xs ws : Bytes) {io : Io} {zone room : ℕ}
    → n < 2 ^ 31
    → io.empty ≡ false
    → At io zone r xs (n + room) ws
    → ((write_to_transf_buf_with_zero n io).0 ≡ leb n (length xs))
      × Transferred n zone r xs room ws
          ((write_to_transf_buf_with_zero n io).1, (write_to_transf_buf_with_zero n io).2)
unfolding write_to_transf_buf_with_zero
write_to_transf_buf_with_zero-Transferred zero r xs ws small e a = (
  ground arith,
  record {
    left = omega arith;
    empty = e ∙ ground arith;
    at =
        At-cast (At-le (omega arith) a) (omega arith)
          (sym (ap (λ l. ws ++ l) (drop-nil r) ∙ append-nil ws));
  },
)
write_to_transf_buf_with_zero-Transferred (suc n) r xs ws small e a =
    let moved = transf_loop_with_zero-Transferred (suc n) r xs ws e a in
    let positive : int_is_pos (suc n) ≡ true = ground arith in
    rw positive (ground (arith, moved.left), moved)

module _ (n r : ℕ) (xs ys ws : Bytes) (cut : length xs < n) (le : r ≤ length xs) where
  abbrev k : ℕ
  k = n - length xs

  whole : n ≡ length xs + k
  whole = omega arith

  dropped : drop (n - length xs) ys ≡ drop n (xs ++ ys)
  dropped = sym (ap (λ m. drop m (xs ++ ys)) whole ∙ drop-append_length xs ys k)

  passed : (ws ++ drop r xs) ++ drop 0 (take (n - length xs) ys) ≡ ws ++ drop r (take n (xs ++ ys))
  passed =
      append_assoc ws (drop r xs) (take k ys)
      ∙ ap (λ l. ws ++ l)
          (sym (
            ap (λ m. drop r (take m (xs ++ ys))) whole
            ∙ ap (drop r) (take-append_length xs ys k)
            ∙ drop-append_le r xs (take k ys) le))

-- A body of a given length that arrives in two parts is moved as if it had arrived at once: the
-- second call, with the count that the first left, gives the result, count and flag that one call
-- on all the bytes gives, and leaves the same bytes to read, as many reserved, and the same passed
-- on. The first part is shorter than the count, which is an `int`, the flag is unset, and the
-- output has room for the count twice.
pub write_to_transf_buf_with_zero_resumes :
    (n r : ℕ) (xs ys ws : Bytes) {io : Io} {zone : ℕ} {b1 b2 : Buffer}
    → n < 2 ^ 31
    → length xs < n
    → io.empty ≡ false
    → At io zone r xs (n + n) ws
    → Fits ys (write_to_transf_buf_with_zero n io).2.inp
    → Fits ys io.inp
    → receive (write_to_transf_buf_with_zero n io).2.inp ys ≡ some b1
    → receive io.inp ys ≡ some b2
    → SameNumber
        (write_to_transf_buf_with_zero
          (write_to_transf_buf_with_zero n io).1
          (record ((write_to_transf_buf_with_zero n io).2) { inp = b1; empty = false }))
        (write_to_transf_buf_with_zero n (record io { inp = b2; empty = false }))
write_to_transf_buf_with_zero_resumes n r xs ys ws {io} {zone} {b1} {b2} small cut e a fits1 fits2
      e1 e2 =
    let le : r ≤ length xs =
      omega (arith, a.unread.reserved, a.unread.valid.inf_le_write, Unread-count a.unread) in
    let (_, first) = write_to_transf_buf_with_zero-Transferred n r xs ws small e a in
    let got = receive-Unread ys first.at.unread fits1 e1 in
    let arrived : Unread b1 zone 0 ys =
      subst (λ m. Unread b1 zone m ys) (omega arith)
        (subst (λ l. Unread b1 zone (r - n) (l ++ ys)) (drop-all n xs (omega arith)) got) in
    let passed_on : Sent (write_to_transf_buf_with_zero n io).2.out n (ws ++ drop r xs) =
      subst (λ l. Sent (write_to_transf_buf_with_zero n io).2.out n (ws ++ drop r l))
        (take-all n xs (omega arith)) first.at.sent in
    let (ok1, r1) =
      write_to_transf_buf_with_zero-Transferred (write_to_transf_buf_with_zero n io).1 0 ys
        (ws ++ drop r xs) {room = 0} (omega (arith, first.left)) refl
        (record { unread = arrived; sent = Sent-le (omega (arith, first.left)) passed_on }) in
    let (ok2, r2) =
      write_to_transf_buf_with_zero-Transferred n r (xs ++ ys) ws {room = 0} small refl (record {
        unread = receive-Unread ys a.unread fits2 e2;
        sent = Sent-le (omega arith) a.sent;
      }) in
    record {
      ok = ok1 ∙ ground (arith, first.left, length-append {0} xs ys) ∙ sym ok2;
      number = r1.left ∙ omega (arith, first.left, length-append {0} xs ys) ∙ sym r2.left;
      empty = r1.empty ∙ ground (arith, first.left, length-append {0} xs ys) ∙ sym r2.empty;
      unread =
          r1.at.unread.has
          ∙ ap (λ m. drop m ys) first.left
          ∙ dropped n r xs ys ws cut le
          ∙ sym r2.at.unread.has;
      reserved = r1.at.unread.reserved ∙ omega arith ∙ sym r2.at.unread.reserved;
      sent =
          r1.at.sent.has
          ∙ ap (λ m. (ws ++ drop r xs) ++ drop 0 (take m ys)) first.left
          ∙ passed n r xs ys ws cut le
          ∙ sym r2.at.sent.has;
    }
