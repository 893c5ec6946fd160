-- ===== src/Buffer/Compact.antt =====
-- `buffer_compact`: moving the unread bytes down to the lower limit.
use http_proxy.Base.{
  ℕ, ◌+◌, ◌-◌, ◌≤◌, ◌<◌, ◌≡◌, ◌∙◌, refl, ap₂, List, [], ◌∷◌, ◌==◌, get_or, set, length, stretch,
  get_or-set_self, get_or-set_ne, length-stretch, length-set, Bool-cases, inl, inr, arith,
}
use http_proxy.Buffer.{Buffer, compact, store_all}
use http_proxy.Buffer.Invariant.{IsValid}
use http_proxy.Buffer.Refine.{contents, contents-nil, stretch-congr}

get_or-store_all :
    (mem : List ℕ) (dst : ℕ) (cs : List ℕ) (i : ℕ)
    → i < dst
    → get_or (store_all mem dst cs) i 0 ≡ get_or mem i 0
unfolding store_all
get_or-store_all mem dst [] i h = refl
get_or-store_all mem dst (c ∷ cs) i h =
    get_or-store_all (set mem dst c) (dst + 1) cs i (omega arith)
    ∙ get_or-set_ne mem dst i c 0 (omega arith)

-- Moving bytes down to `dst` through a copy leaves them there in order.
stretch-store_all :
    (mem : List ℕ) (dst : ℕ) (cs : List ℕ)
    → dst + length cs ≤ length mem
    → stretch (store_all mem dst cs) dst (length cs) ≡ cs
unfolding store_all
stretch-store_all mem dst [] h = refl
stretch-store_all mem dst (c ∷ cs) h =
    ap₂ ◌∷◌
      (get_or-store_all (set mem dst c) (dst + 1) cs dst (omega arith)
        ∙ get_or-set_self mem dst c 0 (omega arith))
      (stretch-store_all (set mem dst c) (dst + 1) cs (omega (arith, length-set mem dst c)))

-- `buffer_compact` on a valid buffer outside the reserved zone keeps the unread bytes, and leaves
-- the read pointer at the lower limit.
pub contents-compact :
    {b : Buffer}
    → IsValid b
    → b.inf_limit ≤ b.read
    → (contents (compact b) ≡ contents b) × ((compact b).read ≡ b.inf_limit)
unfolding compact
contents-compact {b} v h = elim (Bool-cases (b.inf_limit == b.read)) [
  | inl e ↦ ground arith
  | inr e ↦ elim (Bool-cases (b.read == b.write)) [
    | inl f ↦ ground (arith, contents-nil b, contents-nil (compact b))
    | inr f ↦ rw (e, f) (moved, refl)
  ]
]
  where
    n : ℕ
    n = b.write - b.read

    moved :
        stretch
          (store_all b.mem b.inf_limit (stretch b.mem b.read n))
          b.inf_limit
          (b.inf_limit + n - b.inf_limit)
        ≡ contents b
    moved =
        stretch-congr _ {n' = length (stretch b.mem b.read n)} refl
          (omega (arith, length-stretch b.mem b.read n))
        ∙ stretch-store_all b.mem b.inf_limit (stretch b.mem b.read n)
            (omega (arith, length-stretch b.mem b.read n))
