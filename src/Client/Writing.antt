-- ===== src/Client/Writing.antt =====
-- The bytes of a buffer that `write(2)` takes, and `buffer_read_adv` behind it.
use http_proxy.Base.{
  ℕ, zero, suc, ◌+◌, ◌-◌, ◌≤◌, ◌≡◌, ◌⊎◌, ◌∙◌, refl, sym, ap, true, Option, none, some, List, [],
  ◌∷◌, ◌++◌, append-nil, Bytes, ◌==◌, leb, pos, stretch, get_or, subst, Bool-cases, inl, inr, arith,
}
use http_proxy.Buffer.{Buffer, read_ptr, read_adv, compact}
use http_proxy.Buffer.Invariant.{IsValid, adv-IsValid}
use http_proxy.Buffer.Refine.{contents, contents-nil, stretch-congr}
use http_proxy.Client.{Written, write_error, wrote, Result}
use http_proxy.Client.Senders.{send_from}

-- The first `n` elements of a stretch, and the others.
stretch-split :
    (mem : List ℕ) (lo n m : ℕ)
    → stretch mem lo (n + m) ≡ stretch mem lo n ++ stretch mem (lo + n) m
stretch-split mem lo zero m = stretch-congr mem (omega arith) (omega arith)
stretch-split mem lo (suc n) m =
    stretch-congr mem {n' = suc (n + m)} refl (omega arith)
    ∙ ap (◌∷◌ (get_or mem lo 0)) (stretch-split mem (lo + 1) n m)
    ∙ ap (λ k. get_or mem lo 0 ∷ (stretch mem (lo + 1) n ++ stretch mem k m)) (omega arith)

compact-nil : (b : Buffer) → b.read ≡ b.write → contents (compact b) ≡ []
unfolding compact
compact-nil b e = elim (Bool-cases (b.inf_limit == b.read)) [
  | inl home ↦ ground (arith, contents-nil b)
  | inr away ↦ ground (arith, contents-nil (compact b))
]

-- `buffer_read_adv` by no more than there is: no assert fails, and what is left are the bytes behind
-- those read.
pub read_adv-split :
    {b : Buffer} (n : ℕ)
    → IsValid b
    → n ≤ b.write - b.read
    → (b' : Buffer) × (read_adv b (pos n) ≡ some b')
      × IsValid b'
      × (stretch b.mem b.read n ++ contents b' ≡ contents b)
unfolding read_adv compact
read_adv-split {b} n v h =
    let there : leb (b.read + n) b.write ≡ true = ground (arith, v.read_le_write) in
    elim (Bool-cases (b.read + n == b.write)) [
      | inr more ↦
          let b' : Buffer = record b { read = b.read + n } in
          let e : read_adv b (pos n) ≡ some b' = rw (there, more) refl in
          (
            b',
            e,
            (adv-IsValid (pos n) v).1 e,
            sym (stretch-split b.mem b.read n (b.write - (b.read + n)))
                ∙ stretch-congr b.mem refl (ground arith),
          )
      | inl all ↦
          let b₁ : Buffer = record b { read = b.read + n } in
          let e : read_adv b (pos n) ≡ some (compact b₁) = rw (there, all) refl in
          let empty : contents (compact b₁) ≡ [] = compact-nil b₁ (ground arith) in
          (
            compact b₁,
            e,
            (adv-IsValid (pos n) v).1 e,
            ap (λ l. stretch b.mem b.read n ++ l) empty
                ∙ append-nil (stretch b.mem b.read n)
                ∙ stretch-congr b.mem refl (ground arith),
          )
    ]

-- What `write` gives is no more than it was given.
abbrev pub AtMost : (ℕ → Written) → Type 0
AtMost write = (n k : ℕ) → write n ≡ wrote k → k ≤ n

-- `sent` are the first of the bytes of `b`, and `b'` has the others.
abbrev pub Divided : Buffer → Bytes → Buffer → Type 0
Divided b sent b' = IsValid b' × (sent ++ contents b' ≡ contents b)

abbrev pub SentFrom :
    Buffer → Option Result → (ℕ → Bytes → Buffer → Option Result) → Option Result → Type 0
SentFrom b on_error on_written o =
    (o ≡ on_error)
    ⊎ ((n : ℕ) × (sent : Bytes) × (b' : Buffer) × (o ≡ on_written n sent b') × Divided b sent b')

module _ {b : Buffer} (v : IsValid b) (on_error : Option Result)
    (on_written : ℕ → Bytes → Buffer → Option Result) where
  -- Behind `write`.
  abbrev finish : Written → Option Result
  finish write_error = on_error
  finish (wrote n) = elim (read_adv b (pos n)) [
    | none ↦ none
    | some b' ↦ on_written n (stretch b.mem b.read n) b'
  ]

  finish-SentFrom :
      (w : Written)
      → ((k : ℕ) → w ≡ wrote k → k ≤ b.write - b.read)
      → SentFrom b on_error on_written (finish w)
  finish-SentFrom write_error few = inl refl
  finish-SentFrom (wrote n) few =
      let (b', e, v', split) = read_adv-split n v (few n refl) in
      inr (n, stretch b.mem b.read n, b', rw (finish, e) refl, (v', split))

  pub send_from-SentFrom :
      (write : ℕ → Written)
      → AtMost write
      → SentFrom b on_error on_written (send_from b write on_error on_written)
  unfolding read_ptr
  send_from-SentFrom write few =
      let there : leb b.read b.write ≡ true = ground (arith, v.read_le_write) in
      let out : send_from b write on_error on_written ≡ finish (write (b.write - b.read)) =
        rw (send_from, there) refl in
      subst (SentFrom b on_error on_written) (sym out)
        (finish-SentFrom (write (b.write - b.read)) (few (b.write - b.read)))
