-- ===== src/ParserUtils/Matching.antt =====
-- What `matchFormat` and `simpleMatchFormat` return, and leave in the buffers, on every outcome.
use http_proxy.Base.{
  ℕ, zero, suc, ◌+◌, ◌-◌, ◌≤◌, ◌≡◌, ◌≢◌, ◌∙◌, refl, ap, Bool, true, false, not, ◌&&◌, ◌||◌, leb,
  subst, drop-all, [], ◌∷◌, ◌++◌, Bytes, ltb, ◌==◌, if◌then◌else◌, length, append_assoc, append-nil,
  take, drop, Bool-cases, inl, inr, ◌⊎◌, arith, to_upper, is_lower,
}
use http_proxy.Buffer.Deque.{first}
use http_proxy.ParserUtils.{Io, write_prefix, write_to_buf_reverse}
use http_proxy.ParserUtils.Formats.{
  Matched, is_nil, match_loop, finish_match, match_format, simple_match_format,
}
use http_proxy.ParserUtils.Streams.{
  put_back_prefixed, Unread, At, At-cast, At-le, peek_cons, peek_nil, Passing, passing_on,
  passing_over,
}

-- How many bytes of a text agree with a format, regardless of case.
abbrev pub matched : Bytes → Bytes → ℕ
matched [] xs = 0
matched (f ∷ fs) [] = 0
matched (f ∷ fs) (x ∷ xs) = if to_upper x == to_upper f then suc (matched fs xs) else 0

-- A C string: none of its bytes is 0.
abbrev pub NonZero : Bytes → Type 0
NonZero [] = Unit
NonZero (c ∷ cs) = (c ≢ 0) × NonZero cs

pub matched-le :
    (format xs : Bytes) → (matched format xs ≤ length format) × (matched format xs ≤ length xs)
matched-le [] xs = omega arith
matched-le (f ∷ fs) [] = omega arith
matched-le (f ∷ fs) (x ∷ xs) = ground (arith, matched-le fs xs)

to_upper-ne_zero : (x f : ℕ) → f ≢ 0 → to_upper x ≡ to_upper f → x ≢ 0
unfolding to_upper is_lower
to_upper-ne_zero x f h e z = ground arith

to_upper-ne_self : (f : ℕ) → f ≢ 0 → (to_upper 0 == to_upper f) ≡ false
unfolding to_upper is_lower
to_upper-ne_self f h = ground arith

module _ {next : Io → Io} {emit : ℕ → Bytes → Bytes} (p : Passing next emit) where
  -- What the loop leaves, started at `io` with `i` bytes compared, if `n` bytes agree.
  pub record Ran (format : Bytes) (i : ℕ) (io : Io) (zone r : ℕ) (xs : Bytes) (room : ℕ)
      (ws : Bytes) (n : ℕ) (m : Matched) : Type 0 where
    pub left : m.left ≡ drop n format
    pub counted : m.i ≡ i + n
    pub seen : (m.left ≡ []) ⊎ (m.c ≡ to_upper (first (drop n xs)))
    pub at : At m.io zone (r - n) (drop n xs) room (ws ++ emit r (take n xs))
    pub same_empty : m.io.empty ≡ io.empty

  pub match_loop-Ran :
      (format : Bytes) {io : Io} {zone room : ℕ} (c i r : ℕ) (xs ws : Bytes)
      → NonZero format
      → At io zone r xs (length format + room) ws
      → Ran format i io zone r xs room ws (matched format xs) (match_loop next format c i io)
  unfolding match_loop
  match_loop-Ran [] c i r xs ws h a = record {
    left = refl;
    counted = omega arith;
    seen = inl refl;
    at = At-le (omega arith) (At-cast a (omega arith) (rw (p.emit-nil r, append-nil)));
    same_empty = refl;
  }
  match_loop-Ran (f ∷ fs) {io} c i r [] ws h a =
      rw (peek_nil a.unread, to_upper-ne_self f h.0)
        record {
          left = refl;
          counted = omega arith;
          seen = inr refl;
          at = At-le (omega arith) (At-cast a (omega arith) (rw (p.emit-nil r, append-nil)));
          same_empty = refl;
        }
  match_loop-Ran (f ∷ fs) {io} {zone} {room} c i r (x ∷ xs) ws h a =
      rw (peek_cons a.unread) (elim (Bool-cases (to_upper x == to_upper f)) [
        | inl e ↦
            let a' : At (next io) zone (r - 1) xs (length fs + room) (ws ++ emit r (x ∷ [])) =
              p.one r (At-le (omega arith) a) (to_upper-ne_zero x f h.0 (ground arith)) in
            let ran =
              match_loop-Ran fs (to_upper x) (i + 1) (r - 1) xs (ws ++ emit r (x ∷ [])) h.1 a' in
            rw e record {
              left = ran.left;
              counted = omega (arith, ran.counted);
              seen = ran.seen;
              at =
                  At-cast ran.at (omega arith)
                    (append_assoc ws _ _ ∙ ap (λ l. ws ++ l) (p.emit-cons r x _));
              same_empty = ran.same_empty ∙ p.keeps_empty io;
            }
        | inr e ↦ rw e record {
          left = refl;
          counted = omega arith;
          seen = inr refl;
          at = At-le (omega arith) (At-cast a (omega arith) (rw (p.emit-nil r, append-nil)));
          same_empty = refl;
        }
      ])

-- The input gave out before the format was seen whole.
abbrev pub gives_out : Bytes → Bytes → Bool
gives_out format xs = ltb (matched format xs) (length format) && (matched format xs == length xs)

is_nil-drop : (n : ℕ) (xs : Bytes) → is_nil (drop n xs) ≡ leb (length xs) n
is_nil-drop zero [] = refl
is_nil-drop zero (x ∷ xs) = ground arith
is_nil-drop (suc n) [] = ground arith
is_nil-drop (suc n) (x ∷ xs) = ground (arith, is_nil-drop n xs)

to_upper_zero : (x : ℕ) → (to_upper x == 0) ≡ (x == 0)
unfolding to_upper is_lower
to_upper_zero x = ground arith

pub first-drop : (n : ℕ) (xs : Bytes) → NonZero xs → (first (drop n xs) == 0) ≡ leb (length xs) n
first-drop zero [] h = refl
first-drop zero (x ∷ xs) h = ground arith
first-drop (suc n) [] h = ground arith
first-drop (suc n) (x ∷ xs) h = ground (arith, first-drop n xs h.1)

module _ {next : Io → Io} {emit : ℕ → Bytes → Bytes} (p : Passing next emit) where
  -- What a reader of a format leaves: the outcome `ok` and the flag, the unread bytes with the
  -- count of those reserved, and what has been passed on.
  pub record Read (format prefix : Bytes) (io : Io) (zone r : ℕ) (xs : Bytes) (room : ℕ)
      (ws : Bytes) (gone : Bool) (result : Bool × Io) : Type 0 where
    pub ok : result.0 ≡ (matched format xs == length format)
    pub empty : result.1.empty ≡ io.empty || gone
    pub at :
        At result.1 zone
          (if gone then length prefix + matched format xs else r - matched format xs)
          (if gone then prefix ++ take (matched format xs) format else drop (matched format xs) xs)
          room
          (ws ++ emit r (take (matched format xs) xs))

  left_of :
      {format : Bytes} {io : Io} {zone room r : ℕ} {xs ws : Bytes} {m : Matched}
      → Ran p format 0 io zone r xs room ws (matched format xs) m
      → NonZero xs
      → (not (is_nil m.left) && m.c == 0) ≡ gives_out format xs
  left_of {format} {xs = xs} ran nz =
      let n = matched format xs in
      ground (
        arith,
        ran.left,
        ran.seen,
        is_nil-drop n format,
        to_upper_zero (first (drop n xs)),
        first-drop n xs nz,
        matched-le format xs,
      )

  put_back_read :
      {format : Bytes} (prefix : Bytes) {io : Io} {zone room r : ℕ} {xs ws : Bytes} {m : Matched}
      → Ran p format 0 io zone r xs room ws (matched format xs) m
      → gives_out format xs ≡ true
      → length prefix + length format ≤ zone
      → Unread
          (write_prefix (write_to_buf_reverse format m.io.inp m.i) prefix)
          zone
          (length prefix + matched format xs)
          (prefix ++ take (matched format xs) format)
  put_back_read {format} prefix {zone = zone} {r = r} {xs = xs} {m = m} ran g fits =
      let n = matched format xs in
      let none_left : drop n xs ≡ [] = drop-all n xs (ground arith) in
      let counted : m.i ≡ n = omega (arith, ran.counted) in
      rw counted (
        put_back_prefixed format prefix n
          (subst (λ l. Unread m.io.inp zone (r - n) l) none_left ran.at.unread)
          (matched-le format xs).0 (omega (arith, matched-le format xs)))

  pub finish_match-Read :
      (format prefix : Bytes) {io : Io} {zone room : ℕ} (r : ℕ) (xs ws : Bytes) {m : Matched}
      → NonZero xs
      → length prefix + length format ≤ zone
      → Ran p format 0 io zone r xs room ws (matched format xs) m
      → Read format prefix io zone r xs room ws (gives_out format xs) (finish_match format prefix m)
  unfolding finish_match
  finish_match-Read format prefix {io} {zone} {room} r xs ws {m} nz fits ran =
      elim (Bool-cases (gives_out format xs)) [
        | inl g ↦
            rw (left_of ran nz ∙ g, g)
              record {
                ok = ground arith;
                empty = ground arith;
                at = record { unread = put_back_read prefix ran g fits; sent = ran.at.sent };
              }
        | inr g ↦
            rw (left_of ran nz ∙ g, g)
              record {
                ok =
                    rw ran.left (
                      is_nil-drop (matched format xs) format
                      ∙ ground (arith, matched-le format xs));
                empty = ground (arith, ran.same_empty);
                at = ran.at;
              }
      ]

-- `matchFormat` and `simpleMatchFormat`, on a format and input bytes with no 0 among them, return
-- true exactly when the whole format stands next in the input, in any case. If the input gives out
-- before that is known they set the flag and put what was compared back, behind the prefix, in the
-- reserved zone; else they leave the flag alone and the input behind the bytes that agreed.
-- `matchFormat` passes on what it compared, except the bytes that were reserved. The reserved zone
-- holds the prefix and the format, and the output has room for the format.
pub match_format-Read :
    (format prefix : Bytes) {io : Io} {zone room : ℕ} (r : ℕ) (xs ws : Bytes)
    → NonZero format
    → NonZero xs
    → length prefix + length format ≤ zone
    → At io zone r xs (length format + room) ws
    → Read passing_on format prefix io zone r xs room ws
        (gives_out format xs)
        (match_format format prefix io)
      × Read passing_over format prefix io zone r xs room ws
          (gives_out format xs)
          (simple_match_format format prefix io)
unfolding match_format simple_match_format
match_format-Read format prefix r xs ws nf nz fits a = (
  finish_match-Read passing_on format prefix r xs ws nz fits
      (match_loop-Ran passing_on format 0 0 r xs ws nf a),
  finish_match-Read passing_over format prefix r xs ws nz fits
      (match_loop-Ran passing_over format 0 0 r xs ws nf a),
)
