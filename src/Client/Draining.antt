-- ===== src/Client/Draining.antt =====
-- `while (readAndWrite(in, out));`: which bytes it passes on, and which it loses.
use http_proxy.Base.{
  ℕ, zero, suc, ◌-◌, ◌<◌, ◌≡◌, ◌≢◌, ◌∙◌, refl, sym, ap, true, false, [], ◌∷◌, ◌++◌, append-nil,
  append_assoc, Bytes, ◌==◌, if◌then◌else◌, length, take, drop, drop-nil, Bool-cases, inl, inr,
  arith,
}
use http_proxy.Buffer.{is_reserved, read, write}
use http_proxy.Buffer.Asserts.{write-written, write_full}
use http_proxy.Buffer.Invariant.{IsValid}
use http_proxy.Buffer.Refine.{contents}
use http_proxy.ParserUtils.{Io, read_and_write}
use http_proxy.ParserUtils.Streams.{Unread, Sent, read_cons, read_nil, send}
use http_proxy.Client.Readers.{drain_loop}

-- The bytes in front of the first 0.
abbrev pub until_zero : Bytes → Bytes
until_zero [] = []
until_zero (x ∷ xs) = let rest = until_zero xs in if x == 0 then [] else x ∷ rest

-- The input has the unread bytes `xs`, of which `r` are reserved, the output `ws`, and room for `room` more.
pub record Waits (io : Io) (zone r : ℕ) (xs : Bytes) (room : ℕ) (ws : Bytes) : Type 0 where
  pub unread : Unread io.inp zone r xs
  pub valid : IsValid io.out
  pub has : contents io.out ≡ ws
  pub room_is : io.out.limit - io.out.write ≡ room

-- All bytes up to the first 0 are read, and the 0. Those that are not reserved are passed on, as long as
-- there is room.
pub record Drained (io : Io) (r : ℕ) (xs : Bytes) (room : ℕ) (ws : Bytes) : Type 0 where
  pub inp_valid : IsValid io.inp
  pub out_valid : IsValid io.out
  pub left : contents io.inp ≡ drop (suc (length (until_zero xs))) xs
  pub passed : contents io.out ≡ ws ++ take room (drop r (until_zero xs))

module _ {io : Io} {zone x room : ℕ} {xs ws : Bytes} where
  -- One byte that is passed over.
  over :
      {r : ℕ}
      → Waits io zone r (x ∷ xs) room ws
      → (read_and_write io).1.out ≡ io.out
      → Waits (read_and_write io).1 zone (r - 1) xs room ws
  unfolding read_and_write
  over w e = record {
    unread = (read_cons w.unread).1;
    valid = rw e w.valid;
    has = rw e w.has;
    room_is = rw e w.room_is;
  }

  first_is : {r : ℕ} → Waits io zone r (x ∷ xs) room ws → (read_and_write io).0 ≡ x
  unfolding read_and_write
  first_is w = (read_cons w.unread).0

  reserved_over :
      {r : ℕ} → Waits io zone (suc r) (x ∷ xs) room ws → (read_and_write io).1.out ≡ io.out
  unfolding read_and_write
  reserved_over w =
      let e : is_reserved io.inp ≡ true = unfold is_reserved in ground (arith, w.unread.reserved) in
      rw e refl

  zero_over :
      {r : ℕ} → Waits io zone r (x ∷ xs) room ws → x ≡ 0 → (read_and_write io).1.out ≡ io.out
  unfolding read_and_write
  zero_over w h = ground (arith, (read_cons w.unread).0)

  on :
      Waits io zone 0 (x ∷ xs) (suc room) ws
      → x ≢ 0
      → Waits (read_and_write io).1 zone 0 xs room (ws ++ (x ∷ []))
  unfolding read_and_write
  on w h =
      let (c, u) = read_cons w.unread in
      let e : is_reserved io.inp ≡ false =
        unfold is_reserved in ground (arith, w.unread.reserved) in
      let z : ((read io.inp).0 == 0) ≡ false = ground arith in
      let s : Sent io.out (suc room) ws = record {
        valid = w.valid;
        has = w.has;
        room_for = omega (arith, w.room_is);
      } in
      let s' : Sent (write io.out x) room (ws ++ (x ∷ [])) = send x s in
      let lt : io.out.write < io.out.limit = omega (arith, w.room_is) in
      rw (e, z, c)
        record {
          unread = u;
          valid = s'.valid;
          has = s'.has;
          room_is = rw (write-written io.out x lt) (omega (arith, w.room_is));
        }

full_over :
    {io : Io} {zone x : ℕ} {xs ws : Bytes}
    → Waits io zone 0 (x ∷ xs) 0 ws
    → (read_and_write io).1.out ≡ io.out
unfolding read_and_write
full_over {io} w =
    ground (arith, write_full io.out (read io.inp).0, w.valid.write_le_limit, w.room_is)

nothing_read :
    {io : Io} {zone r room : ℕ} {ws : Bytes}
    → Waits io zone r [] room ws
    → ((read_and_write io).1.inp ≡ io.inp) × ((read_and_write io).1.out ≡ io.out)
unfolding read_and_write
nothing_read {io} w = ground (arith, read_nil w.unread)

take-nil : (n : ℕ) → take {A = ℕ} n [] ≡ []
take-nil zero = refl
take-nil (suc n) = refl

nothing_more : (room r : ℕ) (ws : Bytes) → ws ++ take room (drop r []) ≡ ws
nothing_more room r ws = rw (drop-nil r, take-nil room) (append-nil ws)

-- What is left to do behind one byte.
abbrev NextOf : ℕ → ℕ → ℕ → Bytes → Io → Bytes → Type 0
NextOf x r room ws io xs =
    (zone : ℕ) × (r' : ℕ) × (room' : ℕ) × (ws' : Bytes) × Waits io zone r' xs room' ws'
    × (ws' ++ take room' (drop r' (until_zero xs)) ≡ ws ++ take room (drop r (x ∷ until_zero xs)))

one_byte :
    {x : ℕ} {xs : Bytes} {io : Io} {zone : ℕ} (r room : ℕ) {ws : Bytes}
    → Waits io zone r (x ∷ xs) room ws
    → x ≢ 0
    → NextOf x r room ws (read_and_write io).1 xs
one_byte {x} {xs} {io} {zone} (suc r) room {ws} w h = (
  zone,
  suc r - 1,
  room,
  ws,
  over w (reserved_over w),
  ap (λ k. ws ++ take room (drop k (until_zero xs))) (omega arith),
)
one_byte {x} {xs} {io} {zone} zero zero {ws} w h = (zone, 0 - 1, 0, ws, over w (full_over w), refl)
one_byte {x} {xs} {io} {zone} zero (suc room) {ws} w h =
    (zone, 0, room, ws ++ (x ∷ []), on w h, append_assoc ws (x ∷ []) (take room (until_zero xs)))

pub drain_loop-Drained :
    (xs : Bytes) {io : Io} {zone r room : ℕ} {ws : Bytes}
    → Waits io zone r xs room ws
    → Drained (drain_loop (length xs) io) r xs room ws
unfolding drain_loop
drain_loop-Drained [] {io} {zone} {r} {room} {ws} w =
    let (i, o) = nothing_read w in
    record {
      inp_valid = rw i w.unread.valid;
      out_valid = rw o w.valid;
      left = rw i w.unread.has;
      passed = rw o (w.has ∙ sym (nothing_more room r ws));
    }
drain_loop-Drained (x ∷ xs) {io} {zone} {r} {room} {ws} w = elim (Bool-cases (x == 0)) [
  | inl nul ↦
      let w' = over w (zero_over w (ground arith)) in
      rw (first_is w, nul)
        record {
          inp_valid = w'.unread.valid;
          out_valid = w'.valid;
          left = rw nul w'.unread.has;
          passed = rw nul (w'.has ∙ sym (nothing_more room r ws));
        }
  | inr more ↦
      let (zone', r', room', ws', w', same) = one_byte r room w (ground arith) in
      let d = drain_loop-Drained xs w' in
      rw (first_is w, more)
        record {
          inp_valid = d.inp_valid;
          out_valid = d.out_valid;
          left = rw more d.left;
          passed = rw more (d.passed ∙ same);
        }
]
