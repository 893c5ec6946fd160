-- ===== src/ParserUtils/Streams.antt =====
-- The pair of buffers of a reader as byte streams: what is unread, how many of those bytes stand
-- in the reserved zone, what has been passed on, and the room left.
use http_proxy.Base.{
  ℕ, zero, suc, ◌+◌, ◌-◌, ◌≤◌, ◌<◌, ◌≡◌, ◌≢◌, ◌∙◌, refl, sym, ap, true, false, [], ◌∷◌, ◌++◌, Bytes,
  ◌==◌, length, ap₂, take-suc, length-take, take-all, length-append, append_assoc, append-nil,
  subst, drop-nil, length-stretch, get_or, take, drop, arith,
}
use http_proxy.Buffer.{Buffer, is_reserved, peek, read, write, write_reverse}
use http_proxy.Buffer.Asserts.{read-advanced, read_empty, write-written, write_reverse-unread}
use http_proxy.Buffer.Invariant.{IsValid, read-IsValid, write-IsValid, write_reverse-IsValid}
use http_proxy.Buffer.Refine.{
  contents, contents-written, contents-unread, peek-first, view, view-read,
}
use http_proxy.Buffer.Deque
use http_proxy.Buffer.Deque.{Deque}
use http_proxy.ParserUtils.{write_prefix, write_to_buf_reverse, Io, read_and_write, unread_count}
use http_proxy.ParserUtils.Formats.{pass_on, pass_over}

-- A valid buffer with `r` reserved bytes at the front of the unread bytes `xs`, and a reserved
-- zone of `zone` bytes.
pub record Unread (b : Buffer) (zone r : ℕ) (xs : Bytes) : Type 0 where
  pub valid : IsValid b
  pub has : contents b ≡ xs
  pub reserved : b.inf_limit - b.read ≡ r
  pub zone_is : b.inf_limit ≡ zone

-- A valid buffer that holds `ws` and has room for at least `room` bytes more.
pub record Sent (b : Buffer) (room : ℕ) (ws : Bytes) : Type 0 where
  pub valid : IsValid b
  pub has : contents b ≡ ws
  pub room_for : room ≤ b.limit - b.write

pub length-contents : (b : Buffer) → length (contents b) ≡ b.write - b.read
length-contents b = length-stretch b.mem b.read (b.write - b.read)

items-rest_of : (d : Deque) (x : ℕ) (xs : Bytes) → (Deque.rest_of d (x ∷ xs)).items ≡ xs
items-rest_of d x [] = refl
items-rest_of d x (y ∷ ys) = refl

module _ {b : Buffer} {zone r : ℕ} where
  pub Unread-count : {xs : Bytes} → Unread b zone r xs → unread_count b ≡ length xs
  Unread-count u = sym (length-contents b) ∙ ap length u.has

  pub peek_cons : {x : ℕ} {xs : Bytes} → Unread b zone r (x ∷ xs) → peek b ≡ x
  peek_cons u = peek-first u.valid ∙ ap Deque.first u.has

  pub peek_nil : Unread b zone r [] → peek b ≡ 0
  peek_nil u = peek-first u.valid ∙ ap Deque.first u.has

  pub read_nil : Unread b zone r [] → read b ≡ (0, b)
  read_nil u = read_empty b (omega (arith, Unread-count u))

  -- There are no reserved bytes in an empty buffer.
  pub reserved_nil : Unread b zone r [] → r ≡ 0
  reserved_nil u = ground (arith, u.valid.read_home, u.reserved, Unread-count u)

  pub read_cons :
      {x : ℕ} {xs : Bytes}
      → Unread b zone r (x ∷ xs)
      → ((read b).0 ≡ x) × Unread (read b).1 zone (r - 1) xs
  read_cons {x} {xs} u = (
    (view-read u.valid).0 ∙ ap Deque.first u.has,
    record {
      valid = read-IsValid u.valid;
      has =
          ap (λ d. d.items) (view-read u.valid).1
          ∙ ap (λ l. (Deque.rest_of (view b) l).items) u.has
          ∙ items-rest_of (view b) x xs;
      reserved =
          let lt : b.read < b.write = omega (arith, Unread-count u) in
          rw (read-advanced b lt) (ground (arith, u.reserved, u.valid.inf_le_write));
      zone_is =
          let lt : b.read < b.write = omega (arith, Unread-count u) in
          rw (read-advanced b lt) (ground (arith, u.zone_is));
    },
  )

  -- Putting a byte back in front of an empty buffer, or of reserved bytes.
  pub put_back :
      {xs : Bytes} (c : ℕ)
      → Unread b zone r xs
      → r < zone
      → r ≡ length xs
      → Unread (write_reverse b c) zone (r + 1) (c ∷ xs)
  put_back {xs} c u h k =
      let pos : 0 < b.read = omega (arith, u.reserved, u.zone_is) in
      rw (write_reverse-unread b c pos) record {
        valid = rw (write_reverse-unread b c pos) at (write_reverse-IsValid c u.valid);
        has = contents-unread c u.valid pos ∙ ap (◌∷◌ c) u.has;
        reserved =
            ground (arith, u.reserved, u.valid.inf_le_write, Unread-count u, u.valid.read_home);
        zone_is = u.zone_is;
      }

-- Only reserved bytes are unread.
abbrev pub Held : Buffer → ℕ → Bytes → Type 0
Held b zone xs = Unread b zone (length xs) xs

-- `writeToBufReverse` puts back the first `n` bytes in their order.
pub put_back_all :
    {zone : ℕ} (bs : Bytes) (n : ℕ) {b : Buffer} {xs : Bytes}
    → Held b zone xs
    → n ≤ length bs
    → n + length xs ≤ zone
    → Held (write_to_buf_reverse bs b n) zone (take n bs ++ xs)
unfolding write_to_buf_reverse
put_back_all bs zero u h k = u
put_back_all {zone} bs (suc n) {b} {xs} u h k =
    let c = get_or bs n 0 in
    let one : Held (write_reverse b c) zone (c ∷ xs) =
      subst (λ r. Unread (write_reverse b c) zone r (c ∷ xs)) (omega arith)
        (put_back c u (omega arith) refl) in
    rw (take-suc n bs 0 h, append_assoc) (put_back_all bs n one (omega arith) (omega arith))

-- What an emptied buffer holds once `bs` and then a prefix have been put back.
pub put_back_prefixed :
    {zone r : ℕ} (bs prefix : Bytes) (n : ℕ) {b : Buffer}
    → Unread b zone r []
    → n ≤ length bs
    → length prefix + n ≤ zone
    → Unread
        (write_prefix (write_to_buf_reverse bs b n) prefix)
        zone
        (length prefix + n)
        (prefix ++ take n bs)
unfolding write_prefix
put_back_prefixed {zone} bs prefix n {b} u h k =
    let held : Held b zone [] = subst (λ k. Unread b zone k []) (reserved_nil u) u in
    let some_back : Held (write_to_buf_reverse bs b n) zone (take n bs ++ []) =
      put_back_all bs n held h (omega arith) in
    let back =
      put_back_all prefix (length prefix) some_back (omega arith)
        (omega (arith, length-append {0} (take n bs) [], length-take n bs)) in
    let same : take (length prefix) prefix ++ (take n bs ++ []) ≡ prefix ++ take n bs =
      ap₂ ◌++◌ (take-all (length prefix) prefix (omega arith)) (append-nil (take n bs)) in
    subst
      (λ k. Unread (write_prefix (write_to_buf_reverse bs b n) prefix) zone k (prefix ++ take n bs))
      (length-append prefix (take n bs) ∙ ap (λ l. length prefix + l) (length-take n bs h))
      (subst (λ l. Held (write_prefix (write_to_buf_reverse bs b n) prefix) zone l) same back)

module _ {b : Buffer} {room : ℕ} {ws : Bytes} where
  pub send : (c : ℕ) → Sent b (suc room) ws → Sent (write b c) room (ws ++ (c ∷ []))
  send c s =
      let lt : b.write < b.limit = omega (arith, s.room_for) in
      rw (write-written b c lt) record {
        valid = rw (write-written b c lt) at (write-IsValid c s.valid);
        has = contents-written c s.valid lt ∙ ap (λ l. l ++ (c ∷ [])) s.has;
        room_for = omega (arith, s.room_for);
      }

pub Sent-le :
    {b : Buffer} {room room' : ℕ} {ws : Bytes} → room' ≤ room → Sent b room ws → Sent b room' ws
Sent-le h s = record { valid = s.valid; has = s.has; room_for = omega (arith, s.room_for) }

-- Both streams of a reader.
pub record At (io : Io) (zone r : ℕ) (xs : Bytes) (room : ℕ) (ws : Bytes) : Type 0 where
  pub unread : Unread io.inp zone r xs
  pub sent : Sent io.out room ws

module _ {io : Io} {zone room : ℕ} {x : ℕ} {xs ws : Bytes} where
  -- A reserved byte was passed on before, and is only read.
  pub pass_on_reserved :
      {r : ℕ}
      → At io zone (suc r) (x ∷ xs) room ws
      → ((read_and_write io).0 ≡ x) × At (pass_on io) zone r xs room ws
  unfolding read_and_write
  pass_on_reserved {r} a =
      let e : is_reserved io.inp ≡ true = unfold is_reserved in ground (arith, a.unread.reserved) in
      let (c, u) = read_cons a.unread in
      rw e (
        c,
        record {
          unread = subst (λ k. Unread (read io.inp).1 zone k xs) (omega arith) u;
          sent = a.sent;
        },
      )

  -- Any other byte but 0 is passed on.
  pub pass_on_fresh :
      At io zone 0 (x ∷ xs) (suc room) ws
      → x ≢ 0
      → ((read_and_write io).0 ≡ x) × At (pass_on io) zone 0 xs room (ws ++ (x ∷ []))
  unfolding read_and_write
  pass_on_fresh a h =
      let e : is_reserved io.inp ≡ false =
        unfold is_reserved in ground (arith, a.unread.reserved) in
      let (c, u) = read_cons a.unread in
      let z : ((read io.inp).0 == 0) ≡ false = ground arith in
      rw (e, z) (c, record { unread = u; sent = rw c (send x a.sent) })

-- Either way, for a byte that is not 0.
pub pass_on_one :
    {io : Io} {zone room x : ℕ} {xs ws : Bytes} (r : ℕ)
    → At io zone r (x ∷ xs) (suc room) ws
    → x ≢ 0
    → At (pass_on io) zone (r - 1) xs room (ws ++ drop r (x ∷ []))
pass_on_one zero a h = (pass_on_fresh a h).1
pass_on_one {io} {zone} {room} {x} {xs} {ws} (suc r) a h =
    let b = (pass_on_reserved a).1 in
    rw (drop-nil r, append-nil)
      record {
        unread = subst (λ k. Unread (pass_on io).inp zone k xs) (omega arith) b.unread;
        sent = Sent-le (omega arith) b.sent;
      }

pub At-cast :
    {io : Io} {zone r r' room : ℕ} {xs ws ws' : Bytes}
    → At io zone r xs room ws
    → r ≡ r'
    → ws ≡ ws'
    → At io zone r' xs room ws'
At-cast a p q = rw (← p, ← q) a

pub At-le :
    {io : Io} {zone r room room' : ℕ} {xs ws : Bytes}
    → room' ≤ room
    → At io zone r xs room ws
    → At io zone r xs room' ws
At-le h a = record { unread = a.unread; sent = Sent-le h a.sent }

-- A way to pass over one byte, and what `n` bytes passed that way add to the output when the first
-- `r` of them are reserved.
pub record Passing (next : Io → Io) (emit : ℕ → Bytes → Bytes) : Type 0 where
  pub one :
      {io : Io} {zone room x : ℕ} {xs ws : Bytes} (r : ℕ)
      → At io zone r (x ∷ xs) (suc room) ws
      → x ≢ 0
      → At (next io) zone (r - 1) xs room (ws ++ emit r (x ∷ []))
  pub keeps_empty : (io : Io) → (next io).empty ≡ io.empty
  pub emit-nil : (r : ℕ) → emit r [] ≡ []
  pub emit-cons : (r x : ℕ) (xs : Bytes) → emit r (x ∷ []) ++ emit (r - 1) xs ≡ emit r (x ∷ xs)

pass_on_empty : (io : Io) → (pass_on io).empty ≡ io.empty
unfolding read_and_write
pass_on_empty io = refl

drop-cons : (r x : ℕ) (xs : Bytes) → drop r (x ∷ []) ++ drop (r - 1) xs ≡ drop r (x ∷ xs)
drop-cons zero x xs = refl
drop-cons (suc r) x xs = rw drop-nil (ap (λ k. drop k xs) (omega arith))

pass_over_one :
    {io : Io} {zone room x : ℕ} {xs ws : Bytes} (r : ℕ)
    → At io zone r (x ∷ xs) (suc room) ws
    → x ≢ 0
    → At (pass_over io) zone (r - 1) xs room (ws ++ [])
pass_over_one r a h =
    rw append-nil record { unread = (read_cons a.unread).1; sent = Sent-le (omega arith) a.sent }

abbrev pub nothing : ℕ → Bytes → Bytes
nothing r xs = []

-- `readAndWrite` shows the bytes behind the reserved ones at the output, `buffer_read` none.
pub passing_on : Passing pass_on drop
passing_on = record {
  one = pass_on_one;
  keeps_empty = pass_on_empty;
  emit-nil = drop-nil;
  emit-cons = drop-cons;
}

pub passing_over : Passing pass_over nothing
passing_over = record {
  one = pass_over_one;
  keeps_empty = λ io. refl;
  emit-nil = λ r. refl;
  emit-cons = λ r x xs. refl;
}
