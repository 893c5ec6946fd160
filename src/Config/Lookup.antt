-- ===== src/Config/Lookup.antt =====
-- What `config_get` finds behind `config_create`, and what stays true of the configurations.
use http_proxy.Base.{
  ℕ, zero, suc, ◌+◌, ◌≡◌, refl, ap, Bool, true, ◌&&◌, [], ◌∷◌, Bytes, ◌==◌, take, arith,
}
use http_proxy.Config.{max_name, strncmp_eq}

pub strncmp_eq_refl : (n : ℕ) (a : Bytes) → strncmp_eq n a a ≡ true
unfolding strncmp_eq
strncmp_eq_refl zero a = refl
strncmp_eq_refl (suc n) [] = refl
strncmp_eq_refl (suc n) (x ∷ xs) = ground (arith, strncmp_eq_refl n xs)

-- The comparison sees no more than the bytes that are stored.
pub strncmp_eq-take : (n : ℕ) (a b : Bytes) → strncmp_eq n a (take n b) ≡ strncmp_eq n a b
unfolding strncmp_eq
strncmp_eq-take zero a b = refl
strncmp_eq-take (suc n) a [] = refl
strncmp_eq-take (suc n) [] (y ∷ ys) = refl
strncmp_eq-take (suc n) (x ∷ xs) (y ∷ ys) = ap (λ t. x == y && t) (strncmp_eq-take n xs ys)

-- It is an equivalence.
pub strncmp_eq-sym : (n : ℕ) (a b : Bytes) → strncmp_eq n a b ≡ strncmp_eq n b a
unfolding strncmp_eq
strncmp_eq-sym zero a b = refl
strncmp_eq-sym (suc n) [] [] = refl
strncmp_eq-sym (suc n) [] (_ ∷ _) = refl
strncmp_eq-sym (suc n) (_ ∷ _) [] = refl
strncmp_eq-sym (suc n) (x ∷ xs) (y ∷ ys) = ground (arith, strncmp_eq-sym n xs ys)

pub strncmp_eq_trans :
    (n : ℕ) (a b c : Bytes) → strncmp_eq n a b ≡ true → strncmp_eq n a c ≡ strncmp_eq n b c
unfolding strncmp_eq
strncmp_eq_trans zero a b c h = refl
strncmp_eq_trans (suc n) [] [] c h = refl
strncmp_eq_trans (suc n) [] (_ ∷ _) c h = cc
strncmp_eq_trans (suc n) (_ ∷ _) [] c h = cc
strncmp_eq_trans (suc n) (x ∷ xs) (y ∷ ys) [] h = refl
strncmp_eq_trans (suc n) (x ∷ xs) (y ∷ ys) (z ∷ zs) h = ground (arith, strncmp_eq_trans n xs ys zs)

abbrev pub same : Bytes → Bytes → Bool
same a b = strncmp_eq (max_name + 1) a b
