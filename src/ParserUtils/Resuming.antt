-- ===== src/ParserUtils/Resuming.antt =====
-- A match that was cut short by the end of the input goes on when more bytes have arrived as if
-- all had been there from the start.
use http_proxy.Base.{
  ℕ, zero, suc, ◌+◌, ◌-◌, ◌≤◌, ◌<◌, ◌≡◌, ◌∙◌, sym, ap, Bool, true, false, some, [], ◌∷◌, ◌++◌,
  Bytes, ◌==◌, if-congr, length, length-append, append_assoc, take, drop, length-take, take-all,
  drop-append_length, take-append_length, drop-append_le, arith, subst,
}
use native.Mathlib.Nat.{add-zero}
use http_proxy.Buffer.{Buffer}
use http_proxy.Buffer.Receive.{receive, receive_lem, Fits}
use http_proxy.Buffer.Refine.{contents}
use http_proxy.ParserUtils.{Io}
use http_proxy.ParserUtils.Formats.{match_format}
use http_proxy.ParserUtils.Matching.{NonZero, matched, gives_out, match_format-Read}
use http_proxy.ParserUtils.Streams.{Unread, At, Sent, Sent-le, length-contents}

-- What two calls leave that no caller can tell apart.
pub record Same (a b : Bool × Io) : Type 0 where
  pub ok : a.0 ≡ b.0
  pub empty : a.1.empty ≡ b.1.empty
  pub unread : contents a.1.inp ≡ contents b.1.inp
  pub reserved : a.1.inp.inf_limit - a.1.inp.read ≡ b.1.inp.inf_limit - b.1.inp.read
  pub sent : contents a.1.out ≡ contents b.1.out

pub NonZero-append : (xs ys : Bytes) → NonZero xs → NonZero ys → NonZero (xs ++ ys)
NonZero-append [] ys h k = k
NonZero-append (x ∷ xs) ys h k = (h.0, NonZero-append xs ys h.1 k)

NonZero-take : (n : ℕ) (xs : Bytes) → NonZero xs → NonZero (take n xs)
NonZero-take zero xs h = tt
NonZero-take (suc n) [] h = tt
NonZero-take (suc n) (x ∷ xs) h = (h.0, NonZero-take n xs h.1)

-- What was put back agrees with the format, and the comparison goes on behind it.
matched-put_back :
    (format ys : Bytes) (n : ℕ)
    → n ≤ length format
    → matched format (take n format ++ ys) ≡ n + matched (drop n format) ys
matched-put_back format ys zero h = omega arith
matched-put_back [] ys (suc n) h = absurd (omega arith)
matched-put_back (f ∷ fs) ys (suc n) h = ground (arith, matched-put_back fs ys n)

matched-append :
    (format xs ys : Bytes)
    → matched format xs ≡ length xs
    → matched format (xs ++ ys) ≡ length xs + matched (drop (length xs) format) ys
matched-append format [] ys h = omega arith
matched-append [] (x ∷ xs) ys h = absurd (omega arith)
matched-append (f ∷ fs) (x ∷ xs) ys h = ground (arith, matched-append fs xs ys)

-- Bytes received behind the unread ones.
pub receive-Unread :
    {b b' : Buffer} {zone r : ℕ} {xs : Bytes} (ys : Bytes)
    → Unread b zone r xs
    → Fits ys b
    → receive b ys ≡ some b'
    → Unread b' zone r (xs ++ ys)
receive-Unread {b} {b'} {zone} {r} {xs} ys u fits e =
    let (c, got, v, has, same_read, same_inf) = receive_lem u.valid ys fits in
    let same : b' ≡ c = ground (arith, got) in
    rw same record {
      valid = v;
      has = has ∙ ap (λ l. l ++ ys) u.has;
      reserved = omega (arith, u.reserved, same_read, same_inf);
      zone_is = omega (arith, u.zone_is, same_inf);
    }

module _ (format xs ys : Bytes) (r : ℕ) (h : gives_out format xs ≡ true) where
  n : ℕ
  n = length xs

  k : ℕ
  k = matched (drop (length xs) format) ys

  n-facts : (matched format xs ≡ length xs) × (length xs < length format)
  n-facts = ground arith

  resumed :
      matched format (take (length xs) format ++ ys)
      ≡ length xs + matched (drop (length xs) format) ys
  resumed = matched-put_back format ys (length xs) (omega (arith, n-facts))

  at_once : matched format (xs ++ ys) ≡ length xs + matched (drop (length xs) format) ys
  at_once = matched-append format xs ys n-facts.0

  same_length : length (take (length xs) format ++ ys) ≡ length (xs ++ ys)
  same_length = omega (
    arith,
    length-append {0} (take (length xs) format) ys,
    length-append {0} xs ys,
    length-take (length xs) format,
    n-facts,
  )

  same_gives_out : gives_out format (take (length xs) format ++ ys) ≡ gives_out format (xs ++ ys)
  same_gives_out = rw (resumed, at_once, same_length)

  back : Bytes
  back = take (length xs) format

  length-back : length (take (length xs) format) ≡ length xs
  length-back = length-take (length xs) format (omega (arith, n-facts))

  rest_put_back :
      drop (matched format (take (length xs) format ++ ys)) (take (length xs) format ++ ys)
      ≡ drop (matched (drop (length xs) format) ys) ys
  rest_put_back =
      ap (λ m. drop m (take (length xs) format ++ ys))
        (resumed ∙ ap (λ l. l + matched (drop (length xs) format) ys) (sym length-back))
      ∙ drop-append_length (take (length xs) format) ys _

  rest_at_once :
      drop (matched format (xs ++ ys)) (xs ++ ys) ≡ drop (matched (drop (length xs) format) ys) ys
  rest_at_once = ap (λ m. drop m (xs ++ ys)) at_once ∙ drop-append_length xs ys _

  sent_put_back :
      drop
        (length xs)
        (take (matched format (take (length xs) format ++ ys)) (take (length xs) format ++ ys))
      ≡ take (matched (drop (length xs) format) ys) ys
  sent_put_back =
      ap (λ m. drop (length xs) (take m (take (length xs) format ++ ys)))
        (resumed ∙ ap (λ l. l + matched (drop (length xs) format) ys) (sym length-back))
      ∙ ap (drop (length xs)) (take-append_length (take (length xs) format) ys _)
      ∙ ap (λ m. drop m (take (length xs) format ++ take (matched (drop (length xs) format) ys) ys))
          (sym length-back ∙ sym (add-zero _))
      ∙ drop-append_length (take (length xs) format) _ 0

  sent_at_once :
      r ≤ length xs
      → drop r (take (matched format (xs ++ ys)) (xs ++ ys))
        ≡ drop r xs ++ take (matched (drop (length xs) format) ys) ys
  sent_at_once le =
      ap (λ m. drop r (take m (xs ++ ys))) at_once
      ∙ ap (drop r) (take-append_length xs ys _)
      ∙ drop-append_le r xs _ le

module _ (format ys : Bytes) {io : Io} {zone r : ℕ} {xs ws : Bytes} {b1 b2 : Buffer}
    (nf : NonZero format) (nx : NonZero xs) (ny : NonZero ys) (fits : length format ≤ zone)
    (a : At io zone r xs (length format + length format) ws) (cut : gives_out format xs ≡ true)
    (fits1 : Fits ys (match_format format [] io).1.inp) (fits2 : Fits ys io.inp)
    (e1 : receive (match_format format [] io).1.inp ys ≡ some b1)
    (e2 : receive io.inp ys ≡ some b2) where
  reserved_le : r ≤ length xs
  reserved_le = omega (
    arith,
    a.unread.reserved,
    a.unread.valid.inf_le_write,
    length-contents io.inp,
    ap length a.unread.has,
  )

  state1 :
      At
        (record (match_format format [] io).1 { inp = b1; empty = false })
        zone
        (length xs)
        (take (length xs) format ++ ys)
        (length format + 0)
        (ws ++ drop r xs)
  state1 =
      let first = rw cut at ((match_format-Read format [] r xs ws nf nx (omega arith) a).0) in
      let n-is : matched format xs ≡ length xs = (n-facts format xs ys r cut).0 in
      record {
        unread =
            receive-Unread ys
              (subst (λ m. Unread (match_format format [] io).1.inp zone m (take m format)) n-is
                (subst
                  (λ m.
                    Unread (match_format format [] io).1.inp zone m
                      (take (matched format xs) format))
                  (omega arith) first.at.unread))
              fits1 e1;
        sent = Sent-le (omega arith) (
            subst (λ l. Sent (match_format format [] io).1.out (length format) (ws ++ drop r l))
              (take-all (matched format xs) xs (omega arith)) first.at.sent);
      }

  state2 : At (record io { inp = b2; empty = false }) zone r (xs ++ ys) (length format + 0) ws
  state2 = record {
    unread = receive-Unread ys a.unread fits2 e2;
    sent = Sent-le (omega arith) a.sent;
  }

  -- `matchFormat` with an empty prefix, on an input that gives out, called again when more bytes have
  -- been received, does what one call on all the bytes does: the same result and flag, the same bytes left to read, as
  -- many of them reserved, and the same bytes passed on. No byte of the format and of the input is
  -- 0, the reserved zone holds the format, and the output has room for it twice.
  pub match_format_resumes :
      Same
        (match_format format [] (record (match_format format [] io).1 { inp = b1; empty = false }))
        (match_format format [] (record io { inp = b2; empty = false }))
  match_format_resumes =
      let same_n = resumed format xs ys r cut ∙ sym (at_once format xs ys r cut) in
      let r1 =
        (match_format-Read format [] (length xs) _ _ nf
          (NonZero-append _ ys (NonZero-take (length xs) format nf) ny) (omega arith) state1).0 in
      let r2 =
        (match_format-Read format [] r (xs ++ ys) ws nf (NonZero-append xs ys nx ny) (omega arith)
          state2).0 in
      record {
        ok = r1.ok ∙ ap (λ m. m == length format) same_n ∙ sym r2.ok;
        empty = r1.empty ∙ same_gives_out format xs ys r cut ∙ sym r2.empty;
        unread =
            r1.at.unread.has
            ∙ if-congr (same_gives_out format xs ys r cut) (ap (λ m. take m format) same_n)
                (rest_put_back format xs ys r cut ∙ sym (rest_at_once format xs ys r cut))
            ∙ sym r2.at.unread.has;
        reserved =
            r1.at.unread.reserved
            ∙ if-congr (same_gives_out format xs ys r cut) (ap (λ m. 0 + m) same_n)
                (omega (arith, reserved_le, resumed format xs ys r cut, at_once format xs ys r cut))
            ∙ sym r2.at.unread.reserved;
        sent =
            r1.at.sent.has
            ∙ append_assoc ws (drop r xs) _
            ∙ ap (λ l. ws ++ l)
                (ap (λ l. drop r xs ++ l) (sent_put_back format xs ys r cut)
                  ∙ sym (sent_at_once format xs ys r cut reserved_le))
            ∙ sym r2.at.sent.has;
      }
