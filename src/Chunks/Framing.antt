-- ===== src/Chunks/Framing.antt =====
-- What the functions of chunks.c put into the buffer.
use http_proxy.Base.{
  ℕ, ◌+◌, ◌-◌, ◌^◌, ◌≤◌, ◌<◌, ◌≡◌, ◌⊎◌, ◌∙◌, refl, sym, ap, Bool, true, false, Option, some, List,
  [], ◌∷◌, ◌++◌, Bytes, ltb, leb, ℤ, pos, negsuc, length, length-append, set, stretch,
  stretch-set_after, subst, Bool-cases, inl, inr, arith,
}
use http_proxy.Buffer.{Buffer, write_ptr, write_adv, store_all}
use http_proxy.Buffer.Invariant.{IsValid, length-store_all}
use http_proxy.Buffer.Refine.{contents}
use http_proxy.Buffer.Receive.{receive, Fits, receive_lem, contents-received}
use http_proxy.Chunks.{
  crlf, empty_chunk, returning, write_empty_chunk, ReadResult, read_error, got, chunk_text,
  put_chunk, dump_read, dump_chunk_from_fd,
}

store_all-end :
    (mem : List ℕ) (i z : ℕ) (t : Bytes)
    → store_all mem i (t ++ (z ∷ [])) ≡ set (store_all mem i t) (i + length t) z
unfolding store_all
store_all-end mem i z [] = ap (λ k. set mem k z) (omega arith)
store_all-end mem i z (c ∷ t) =
    store_all-end (set mem i c) (i + 1) z t
    ∙ ap (λ k. set (store_all (set mem i c) (i + 1) t) k z) (omega arith)

-- The buffer with `text` behind the unread bytes, and a 0 in the free space behind that.
abbrev with_zero : Buffer → Bytes → Buffer
with_zero b text = record b {
  mem = store_all b.mem b.write (text ++ (0 ∷ []));
  write = b.write + length text;
}

-- `o` is the answer `n` with a valid buffer, in which `text` stands behind the unread bytes.
abbrev pub Appended : Option (ℤ × Buffer) → ℤ → Buffer → Bytes → Type 0
Appended o n b text =
    (b' : Buffer) × (o ≡ some (n, b')) × IsValid b' × (contents b' ≡ contents b ++ text)

-- The answer by what `read` gave.
abbrev pub AfterRead : Buffer → (ℕ → Bytes) → ReadResult → Option (ℤ × Buffer) → Type 0
AfterRead b print_hex r o =
    ((r ≡ read_error) × (o ≡ some (negsuc 0, b)))
    ⊎ ((r ≡ got []) × (o ≡ some (pos 0, b)))
    ⊎ ((y : ℕ) × (ys : Bytes) × (r ≡ got (y ∷ ys))
        × Appended o (pos (length (chunk_text print_hex (y ∷ ys)))) b
            (chunk_text print_hex (y ∷ ys)))

module _ {b : Buffer} (v : IsValid b) where
  put_chunk-Appended :
      (text : Bytes)
      → length text + 1 ≤ b.limit - b.write
      → Appended (put_chunk text b.write (b.limit - b.write) b) (pos (length text)) b text
  unfolding write_adv
  put_chunk-Appended text h =
      let fits : Fits text b = omega arith in
      let room : leb (length text + 1) (b.limit - b.write) ≡ true = ground arith in
      let advance : leb (b.write + length text) b.limit ≡ true = ground arith in
      let stored = store_all-end b.mem b.write 0 text in
      (
        with_zero b text,
        rw (room, advance) refl,
        ground (arith, length-store_all b.mem b.write (text ++ (0 ∷ []))),
        ap (λ m. stretch m b.read (b.write + length text - b.read)) stored
            ∙ stretch-set_after (store_all b.mem b.write text) (b.write + length text) 0 b.read
                (b.write + length text - b.read) (omega arith)
            ∙ contents-received v text fits,
      )

  -- For a valid buffer, `write_empty_chunk` puts the last chunk behind the unread bytes and returns its
  -- 5 bytes, when there is room for them; otherwise it returns 0 and changes nothing.
  pub write_empty_chunk-Appended :
      ((5 ≤ b.limit - b.write) × Appended (write_empty_chunk b) (pos 5) b empty_chunk)
      ⊎ ((b.limit - b.write < 5) × (write_empty_chunk b ≡ some (pos 0, b)))
  unfolding write_empty_chunk write_ptr
  write_empty_chunk-Appended =
      let inside : leb b.write b.limit ≡ true = ground (arith, v.write_le_limit) in
      elim (Bool-cases (leb 5 (b.limit - b.write))) [
        | inl room ↦
            let (b', e, v', c, same, same') = receive_lem v empty_chunk (ground arith) in
            let written : write_empty_chunk b ≡ returning (pos 5) (receive b empty_chunk) =
              rw (inside, write_empty_chunk, room) refl in
            inl (ground arith, (b', written ∙ ap (returning (pos 5)) e, v', c))
        | inr full ↦ inr (ground arith, rw (inside, write_empty_chunk, full) refl)
      ]

  module _ (print_hex : ℕ → Bytes) (short : (n : ℕ) → n < 16 ^ 6 → length (print_hex n) ≤ 6)
      (allocated : Bool) (read : ℕ → ReadResult)
      (at_most : (n : ℕ) (ys : Bytes) → read n ≡ got ys → length ys ≤ n)
      (moderate : b.limit - b.write ≤ 16 ^ 6) where
    -- What `read` is asked for.
    abbrev asked : ℕ
    asked = b.limit - b.write - 7 - 4

    length-chunk_text :
        (ys : Bytes)
        → length (chunk_text print_hex ys) ≡ length (print_hex (length ys)) + length ys + 4
    length-chunk_text ys = omega (
      arith,
      length-append {0} (print_hex (length ys)) (crlf ++ (ys ++ crlf)),
      length-append {0} ys crlf,
    )

    chunk_fits :
        (ys : Bytes)
        → 11 < b.limit - b.write
        → read asked ≡ got ys
        → length (chunk_text print_hex ys) + 1 ≤ b.limit - b.write
    chunk_fits ys h e =
        let few : length ys ≤ asked = at_most asked ys e in
        omega (arith, length-chunk_text ys, short (length ys) (omega arith))

    dump_read-AfterRead :
        (r : ReadResult)
        → 11 < b.limit - b.write
        → read asked ≡ r
        → AfterRead b print_hex r (dump_read print_hex b.write (b.limit - b.write) b r)
    dump_read-AfterRead read_error h e = inl (refl, refl)
    dump_read-AfterRead (got []) h e = inr (inl (refl, refl))
    dump_read-AfterRead (got (y ∷ ys)) h e = inr (
        inr (
          y,
          ys,
          refl,
          put_chunk-Appended (chunk_text print_hex (y ∷ ys)) (chunk_fits (y ∷ ys) h e),
        ))

    -- For a valid buffer with at most 16^6 bytes of free space, a `read` that gives no more than it is
    -- asked for, and a `sprintf` that writes a number below 16^6 in six digits at most,
    -- `dump_chunk_from_fd` fails no assert and writes nothing behind the buffer. With 11 bytes of
    -- space or fewer it returns 0; without memory, or when `read` fails, -1; at the end of the
    -- file 0; and in these cases it changes nothing. Otherwise it puts the chunk of the bytes that
    -- were read behind the unread bytes, and returns its length.
    pub dump_chunk_from_fd-Appended :
        let o = dump_chunk_from_fd print_hex allocated read b in
        ((b.limit - b.write ≤ 11) × (o ≡ some (pos 0, b)))
        ⊎ ((11 < b.limit - b.write) × (allocated ≡ false) × (o ≡ some (negsuc 0, b)))
        ⊎ ((11 < b.limit - b.write) × (allocated ≡ true) × AfterRead b print_hex (read asked) o)
    unfolding dump_chunk_from_fd write_ptr
    dump_chunk_from_fd-Appended =
        let inside : leb b.write b.limit ≡ true = ground (arith, v.write_le_limit) in
        elim (Bool-cases (ltb 11 (b.limit - b.write))) [
          | inr little ↦ inl (ground arith, rw (inside, dump_chunk_from_fd, little) refl)
          | inl room ↦ elim (Bool-cases allocated) [
            | inr none_left ↦ inr (
                inl
                  (ground arith, none_left, rw (inside, dump_chunk_from_fd, room, none_left) refl))
            | inl memory ↦
                let h : 11 < b.limit - b.write = ground arith in
                let dumped : dump_chunk_from_fd print_hex allocated read b
                    ≡ dump_read print_hex b.write (b.limit - b.write) b (read asked) =
                  rw (inside, dump_chunk_from_fd, room, memory) refl in
                let done = dump_read-AfterRead (read asked) h refl in
                inr (inr (h, memory, subst (AfterRead b print_hex (read asked)) (sym dumped) done))
          ]
        ]
