-- ===== src/Base/Lists.antt =====
-- C arrays as lists with native indices, and the bytes of a stretch of one.
use Prim.Native.Nat.{ℕ, zero, suc, ◌+◌, ◌≤◌, ◌<◌}
use mathlib.Core.Path.{◌≡◌, refl, ap, ap₂, ◌∙◌}
use mathlib.Core.Logic.{◌≢◌}
use mathlib.Core.List.{List, [], ◌∷◌, ◌++◌}
use native.Mathlib.Omega.{arith}

module _ {ℓ} {A : Type ℓ} where
  abbrev pub length : List A → ℕ
  length [] = 0
  length (_ ∷ xs) = suc (length xs)

  abbrev pub get_or : List A → ℕ → A → A
  get_or [] _ d = d
  get_or (x ∷ _) zero _ = x
  get_or (_ ∷ xs) (suc i) d = get_or xs i d

  -- A write out of bounds changes nothing.
  abbrev pub set : List A → ℕ → A → List A
  set [] _ _ = []
  set (_ ∷ xs) zero v = v ∷ xs
  set (x ∷ xs) (suc i) v = x ∷ set xs i v

  abbrev pub take : ℕ → List A → List A
  take zero _ = []
  take (suc n) [] = []
  take (suc n) (x ∷ xs) = x ∷ take n xs

  abbrev pub drop : ℕ → List A → List A
  drop zero xs = xs
  drop (suc n) [] = []
  drop (suc n) (x ∷ xs) = drop n xs

  pub length-take_le : (n : ℕ) (xs : List A) → length (take n xs) ≤ n
  length-take_le zero xs = omega arith
  length-take_le (suc n) [] = omega arith
  length-take_le (suc n) (x ∷ xs) = omega (arith, length-take_le n xs)

  pub drop-nil : (n : ℕ) → drop n [] ≡ []
  drop-nil zero = refl
  drop-nil (suc n) = refl

  pub length-append : (xs ys : List A) → length (xs ++ ys) ≡ length xs + length ys
  length-append [] ys = omega arith
  length-append (x ∷ xs) ys = omega (arith, length-append xs ys)

  pub length-set : (xs : List A) (i : ℕ) (v : A) → length (set xs i v) ≡ length xs
  length-set [] i v = refl
  length-set (x ∷ xs) zero v = refl
  length-set (x ∷ xs) (suc i) v = ap suc (length-set xs i v)

  pub get_or-set_self :
      (xs : List A) (i : ℕ) (v d : A) → i < length xs → get_or (set xs i v) i d ≡ v
  get_or-set_self [] i v d h = absurd (omega arith)
  get_or-set_self (x ∷ xs) zero v d h = refl
  get_or-set_self (x ∷ xs) (suc i) v d h = get_or-set_self xs i v d (omega arith)

  pub get_or-set_ne :
      (xs : List A) (i j : ℕ) (v d : A) → i ≢ j → get_or (set xs i v) j d ≡ get_or xs j d
  get_or-set_ne [] i j v d h = refl
  get_or-set_ne (x ∷ xs) zero zero v d h = absurd (h refl)
  get_or-set_ne (x ∷ xs) zero (suc j) v d h = refl
  get_or-set_ne (x ∷ xs) (suc i) zero v d h = refl
  get_or-set_ne (x ∷ xs) (suc i) (suc j) v d h = get_or-set_ne xs i j v d (λ e. h (ap suc e))

module _ {ℓ} {A : Type ℓ} where
  pub take-suc :
      (n : ℕ) (xs : List A) (d : A)
      → n < length xs
      → take (suc n) xs ≡ take n xs ++ (get_or xs n d ∷ [])
  take-suc n [] d h = absurd (omega arith)
  take-suc zero (x ∷ xs) d h = refl
  take-suc (suc n) (x ∷ xs) d h = ap (◌∷◌ x) (take-suc n xs d (omega arith))

  pub take-all : (n : ℕ) (xs : List A) → length xs ≤ n → take n xs ≡ xs
  take-all zero [] h = refl
  take-all zero (x ∷ xs) h = absurd (omega arith)
  take-all (suc n) [] h = refl
  take-all (suc n) (x ∷ xs) h = ap (◌∷◌ x) (take-all n xs (omega arith))

  pub drop-all : (n : ℕ) (xs : List A) → length xs ≤ n → drop n xs ≡ []
  drop-all zero [] h = refl
  drop-all zero (x ∷ xs) h = absurd (omega arith)
  drop-all (suc n) [] h = refl
  drop-all (suc n) (x ∷ xs) h = drop-all n xs (omega arith)

  pub length-take : (n : ℕ) (xs : List A) → n ≤ length xs → length (take n xs) ≡ n
  length-take zero xs h = refl
  length-take (suc n) [] h = absurd (omega arith)
  length-take (suc n) (x ∷ xs) h = ap suc (length-take n xs (omega arith))

  pub drop-append_length : (xs ys : List A) (k : ℕ) → drop (length xs + k) (xs ++ ys) ≡ drop k ys
  drop-append_length [] ys k = ap (λ n. drop n ys) (omega arith)
  drop-append_length (x ∷ xs) ys k =
      ap (λ n. drop n (x ∷ xs ++ ys)) suc_out ∙ drop-append_length xs ys k
    where
      suc_out : suc (length xs) + k ≡ suc (length xs + k)
      suc_out = omega arith

  pub drop-length_append : (xs ys : List A) → drop (length xs) (xs ++ ys) ≡ ys
  drop-length_append [] ys = refl
  drop-length_append (x ∷ xs) ys = drop-length_append xs ys

  pub take-append_length :
      (xs ys : List A) (k : ℕ) → take (length xs + k) (xs ++ ys) ≡ xs ++ take k ys
  take-append_length [] ys k = ap (λ n. take n ys) (omega arith)
  take-append_length (x ∷ xs) ys k =
      ap (λ n. take n (x ∷ xs ++ ys)) suc_out ∙ ap (◌∷◌ x) (take-append_length xs ys k)
    where
      suc_out : suc (length xs) + k ≡ suc (length xs + k)
      suc_out = omega arith

  pub drop-append_le :
      (r : ℕ) (xs ys : List A) → r ≤ length xs → drop r (xs ++ ys) ≡ drop r xs ++ ys
  drop-append_le zero xs ys h = refl
  drop-append_le (suc r) [] ys h = absurd (omega arith)
  drop-append_le (suc r) (x ∷ xs) ys h = drop-append_le r xs ys (omega arith)

-- The `n` elements of an array from index `lo` on; 0 out of range.
abbrev pub stretch : List ℕ → ℕ → ℕ → List ℕ
stretch mem lo zero = []
stretch mem lo (suc n) = get_or mem lo 0 ∷ stretch mem (lo + 1) n

pub length-stretch : (mem : List ℕ) (lo n : ℕ) → length (stretch mem lo n) ≡ n
length-stretch mem lo zero = refl
length-stretch mem lo (suc n) = ap suc (length-stretch mem (lo + 1) n)

-- A write outside a stretch leaves it alone.
pub stretch-set_before :
    (mem : List ℕ) (i v lo n : ℕ) → i < lo → stretch (set mem i v) lo n ≡ stretch mem lo n
stretch-set_before mem i v lo zero h = refl
stretch-set_before mem i v lo (suc n) h =
    ap₂ ◌∷◌ (get_or-set_ne mem i lo v 0 (omega arith))
      (stretch-set_before mem i v (lo + 1) n (omega arith))

pub stretch-set_after :
    (mem : List ℕ) (i v lo n : ℕ) → lo + n ≤ i → stretch (set mem i v) lo n ≡ stretch mem lo n
stretch-set_after mem i v lo zero h = refl
stretch-set_after mem i v lo (suc n) h =
    ap₂ ◌∷◌ (get_or-set_ne mem i lo v 0 (omega arith))
      (stretch-set_after mem i v (lo + 1) n (omega arith))

-- A write just behind a stretch makes it longer by that element.
pub stretch-set_end :
    (mem : List ℕ) (i v lo n : ℕ)
    → lo + n ≡ i
    → i < length mem
    → stretch (set mem i v) lo (suc n) ≡ stretch mem lo n ++ (v ∷ [])
stretch-set_end mem i v lo zero e h =
    let e' : lo ≡ i = omega arith in
    ap (λ k. k ∷ []) (ap (λ k. get_or (set mem i v) k 0) e' ∙ get_or-set_self mem i v 0 h)
stretch-set_end mem i v lo (suc n) e h =
    ap₂ ◌∷◌ (get_or-set_ne mem i lo v 0 (omega arith))
      (stretch-set_end mem i v (lo + 1) n (omega arith) h)

abbrev pub zeros : ℕ → List ℕ
zeros zero = []
zeros (suc n) = 0 ∷ zeros n
