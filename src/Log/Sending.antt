-- ===== src/Log/Sending.antt =====
-- What `log_send` puts into the buffer.
use http_proxy.Base.{
  ℕ, zero, suc, ◌+◌, ◌-◌, ◌≤◌, ◌<◌, ◌≡◌, ◌∙◌, refl, sym, ap, true, false, Option, none, some, List,
  [], ◌∷◌, ◌++◌, Bytes, ◌==◌, ltb, leb, set, zeros, stretch, length, length-append, take, take-all,
  length-take, take-append_length, arith,
}
use http_proxy.Base.{length-stretch, length-set, get_or}
use http_proxy.Buffer.{Buffer, write_ptr, write_adv, store_all}
use http_proxy.Buffer.Invariant.{IsValid, length-store_all}
use http_proxy.Buffer.Receive.{contents-received}
use http_proxy.Buffer.Refine.{contents, stretch-congr}
use http_proxy.Client.Receiving.{chosen, not_chosen}
use http_proxy.CStrings.{strnlen}
use http_proxy.Log.{strncpy_text, put_text, close_text, buffer_message, max_log_message}
use http_proxy.ParserUtils.Matching.{NonZero}

-- A C string: `t`, its closing 0, and what stands behind it.
abbrev pub c_array : Bytes → Bytes → Bytes
c_array t rest = t ++ 0 ∷ rest

strnlen-c_array :
    (t rest : Bytes) (n : ℕ)
    → NonZero t
    → length t < n
    → strnlen (c_array t rest) n ≡ some (length t)
unfolding strnlen
strnlen-c_array [] rest zero h lt = absurd (omega arith)
strnlen-c_array [] rest (suc n) h lt = refl
strnlen-c_array (x ∷ t) rest zero h lt = absurd (omega arith)
strnlen-c_array (x ∷ t) rest (suc n) h lt =
    let more : (x == 0) ≡ false = ground arith in
    rw (strnlen-c_array t rest n h.1 (omega arith), more) refl

strncpy_text-zeros : (rest : Bytes) (n : ℕ) → strncpy_text (0 ∷ rest) n ≡ some (zeros n)
unfolding strncpy_text
strncpy_text-zeros rest zero = refl
strncpy_text-zeros rest (suc n) = refl

strncpy_text-short :
    (t rest : Bytes) (n : ℕ)
    → NonZero t
    → strncpy_text (c_array t rest) (length t + n) ≡ some (t ++ zeros n)
unfolding strncpy_text
strncpy_text-short [] rest n h =
    ap (strncpy_text (0 ∷ rest)) (omega arith) ∙ strncpy_text-zeros rest n
strncpy_text-short (x ∷ t) rest n h =
    let more : (x == 0) ≡ false = ground arith in
    let out : suc (length t) + n ≡ suc (length t + n) = omega arith in
    rw out (rw (strncpy_text-short t rest n h.1, more) refl)

strncpy_text-long :
    (t rest : Bytes) (n : ℕ)
    → NonZero t
    → n ≤ length t
    → strncpy_text (c_array t rest) n ≡ some (take n t)
unfolding strncpy_text
strncpy_text-long t rest zero h le = refl
strncpy_text-long [] rest (suc n) h le = absurd (omega arith)
strncpy_text-long (x ∷ t) rest (suc n) h le =
    let more : (x == 0) ≡ false = ground arith in
    rw (strncpy_text-long t rest n h.1 (omega arith), more) refl

take-stretch : (mem : List ℕ) (lo n k : ℕ) → take n (stretch mem lo (n + k)) ≡ stretch mem lo n
take-stretch mem lo zero k = refl
take-stretch mem lo (suc n) k =
    ap (take (suc n)) (stretch-congr mem {lo' = lo} {n' = suc (n + k)} refl (omega arith))
    ∙ ap (◌∷◌ (get_or mem lo 0)) (take-stretch mem (lo + 1) n k)

-- The bytes in front, of those stored behind the write pointer.
put_text-Put :
    {b : Buffer} (v : IsValid b) (text : Bytes) (n : ℕ)
    → n ≤ length text
    → length text ≤ b.limit - b.write
    → (b' : Buffer) × (put_text b text n ≡ some b')
      × IsValid b'
      × (contents b' ≡ contents b ++ take n text)
      × (b'.limit - b'.write ≡ b.limit - b.write - n)
unfolding write_adv
put_text-Put {b} v text n few fits =
    let b' : Buffer = record b { mem = store_all b.mem b.write text; write = b.write + n } in
    let m : List ℕ = store_all b.mem b.write text in
    let d : ℕ = b.write - b.read in
    let cut : contents b' ≡ contents b ++ take n text =
      stretch-congr m {lo' = b.read} {n' = d + n} refl (omega arith)
      ∙ sym (take-stretch m b.read (d + n) (length text - n))
      ∙ ap (take (d + n)) (
          stretch-congr m {lo' = b.read} {n' = b.write + length text - b.read} refl (omega arith)
          ∙ contents-received v text fits)
      ∙ ap (λ k. take (k + n) (contents b ++ text)) (sym (length-stretch b.mem b.read d))
      ∙ take-append_length (contents b) text n in
    (b', ground arith, ground (arith, length-store_all b.mem b.write text), cut, omega arith)

length-zeros : (n : ℕ) → length (zeros n) ≡ n
length-zeros zero = refl
length-zeros (suc n) = ap suc (length-zeros n)

set-closed :
    (t : Bytes) (n : ℕ) → take (length t + 1) (set (t ++ zeros (suc n)) (length t) 0) ≡ t ++ 0 ∷ []
set-closed [] n = refl
set-closed (x ∷ t) n =
    let out : suc (length t) + 1 ≡ suc (length t + 1) = omega arith in
    ap (λ k. take k (x ∷ set (t ++ zeros (suc n)) (length t) 0)) out ∙ ap (◌∷◌ x) (set-closed t n)

set-last : (xs : Bytes) (n : ℕ) → length xs ≡ suc n → set xs n 0 ≡ take n xs ++ 0 ∷ []
set-last [] n h = absurd (omega arith)
set-last (x ∷ []) zero h = refl
set-last (x ∷ y ∷ xs) zero h = absurd (omega arith)
set-last (x ∷ xs) (suc n) h = ap (◌∷◌ x) (set-last xs n (omega arith))

take-take : (xs : Bytes) (n k : ℕ) → n ≤ k → take n (take k xs) ≡ take n xs
take-take xs zero k h = refl
take-take xs (suc n) zero h = absurd (omega arith)
take-take [] (suc n) (suc k) h = refl
take-take (x ∷ xs) (suc n) (suc k) h = ap (◌∷◌ x) (take-take xs n k (omega arith))

-- What a message of `t` leaves in a buffer `b`.
abbrev pub Logged : Buffer → Bytes → Option Buffer → Type 0
Logged b t o =
    (b' : Buffer) × (o ≡ some b')
    × IsValid b'
    × (contents b' ≡ contents b ++ (t ++ 0 ∷ []))
    × (b'.limit - b'.write ≡ b.limit - b.write - (length t + 1))

module _ {b : Buffer} (v : IsValid b) (t rest : Bytes) (nz : NonZero t)
    (few : length t < max_log_message) where
  abbrev space : ℕ
  space = b.limit - b.write

  started :
      (text : Bytes)
      → strncpy_text (c_array t rest) space ≡ some text
      → buffer_message (c_array t rest) b ≡ close_text b space (length t) text
  unfolding buffer_message write_ptr
  started text e =
      let inside : leb b.write b.limit ≡ true = ground (arith, v.write_le_limit) in
      rw (inside, buffer_message, strnlen-c_array t rest max_log_message nz few, e) refl

  fits-Logged : length t + 1 ≤ space → Logged b t (buffer_message (c_array t rest) b)
  fits-Logged room =
      let n : ℕ = space - (length t + 1) in
      let text : Bytes = t ++ zeros (suc n) in
      let is : strncpy_text (c_array t rest) space ≡ some text =
        ap (strncpy_text (c_array t rest)) (omega arith) ∙ strncpy_text-short t rest (suc n) nz in
      let inside : ltb space (length t) ≡ false = ground arith in
      let (b', e, v', has, left) =
        put_text-Put v (set text (length t) 0) (length t + 1)
          (omega (
            arith,
            length-set text (length t) 0,
            length-append t (zeros (suc n)),
            length-zeros (suc n),
          ))
          (omega (
            arith,
            length-set text (length t) 0,
            length-append t (zeros (suc n)),
            length-zeros (suc n),
          )) in
      (
        b',
        started text is ∙ not_chosen _ _ inside ∙ e,
        v',
        has ∙ ap (λ l. contents b ++ l) (set-closed t n),
        left,
      )

  -- The message and its closing 0 need one byte more than there is: the closing 0 is written behind the end
  -- of the free space, and the assert fails.
  exact-none : length t ≡ space → buffer_message (c_array t rest) b ≡ none
  unfolding write_adv
  exact-none full =
      let text : Bytes = t ++ zeros 0 in
      let is : strncpy_text (c_array t rest) space ≡ some text =
        ap (strncpy_text (c_array t rest)) (omega arith) ∙ strncpy_text-short t rest 0 nz in
      let inside : ltb space (length t) ≡ false = ground arith in
      started text is ∙ not_chosen _ _ inside ∙ ground (arith, v.write_le_limit)

  long-Logged :
      0 < space
      → space < length t
      → Logged b (take (space - 1) t) (buffer_message (c_array t rest) b)
  long-Logged some_room long =
      let text : Bytes = take space t in
      let is : strncpy_text (c_array t rest) space ≡ some text =
        strncpy_text-long t rest space nz (omega arith) in
      let cut : ltb space (length t) ≡ true = ground arith in
      let more : (space == 0) ≡ false = ground arith in
      let size : length (set text (space - 1) 0) ≡ space =
        length-set text (space - 1) 0 ∙ length-take space t (omega arith) in
      let (b', e, v', has, left) =
        put_text-Put v (set text (space - 1) 0) space (omega arith) (omega arith) in
      let whole : take space (set text (space - 1) 0) ≡ take (space - 1) t ++ 0 ∷ [] =
        take-all space (set text (space - 1) 0) (omega arith)
        ∙ set-last text (space - 1) (length-take space t (omega arith) ∙ omega arith)
        ∙ ap (λ l. l ++ 0 ∷ []) (take-take t (space - 1) space (omega arith)) in
      (
        b',
        started text is ∙ chosen _ _ cut ∙ not_chosen _ _ more ∙ e,
        v',
        has ∙ ap (λ l. contents b ++ l) whole,
        left ∙ omega (arith, length-take (space - 1) t (omega arith)),
      )

  -- For a valid buffer of the log with some free space, and a message of less than 2048 bytes, none of
  -- them 0: if the message and its closing 0 fit, `log_send` puts them behind the unread bytes; if the
  -- message is longer than the free space, it puts as much of it there as leaves room for the closing 0;
  -- and if the message has as many bytes as there are free, an assert fails. Nothing else changes in the
  -- buffer's contents.
  pub buffer_message-Logged :
      0 < space
      → (length t + 1 ≤ space → Logged b t (buffer_message (c_array t rest) b))
        × (length t ≡ space → buffer_message (c_array t rest) b ≡ none)
        × (space < length t → Logged b (take (space - 1) t) (buffer_message (c_array t rest) b))
  buffer_message-Logged some_room = (fits-Logged, exact-none, long-Logged some_room)
