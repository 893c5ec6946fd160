-- ===== src/Config/Invariant.antt =====
-- The invariant of the configurations: no two have the same name in its first 21 bytes, they fit in
-- the array, and the names in theirs.
use http_proxy.Base.{
  ℕ, zero, suc, ◌+◌, ◌≤◌, ◌≡◌, ◌∙◌, refl, sym, ap, false, none, some, List, [], ◌∷◌, ◌++◌, Bytes,
  ltb, leb, length, length-append, length-take_le, take, subst, Bool-cases, Option-cases, inl, inr,
  arith,
}
use http_proxy.Config.{
  Entry, Configs, max_name, max_config, named, closed, replace, config_create,
  config_set_from_index, set_value,
}
use http_proxy.Config.Lookup.{strncmp_eq-sym, strncmp_eq-take, same}

abbrev pub names : Configs → List Bytes
names [] = []
names (c ∷ cs) = c.name ∷ names cs

abbrev pub Absent : Bytes → List Bytes → Type 0
Absent n [] = Unit
Absent n (m ∷ ms) = (same n m ≡ false) × Absent n ms

-- Each name differs from those behind it, and is stored in 21 bytes.
abbrev pub Distinct : List Bytes → Type 0
Distinct [] = Unit
Distinct (n ∷ ns) = Absent n ns × (length n ≤ max_name + 1) × Distinct ns

pub record IsValid (cs : Configs) : Type 0 where
  pub distinct : Distinct (names cs)
  pub fits : length cs ≤ max_config

names-replace :
    (name value : Bytes) (cs cs' : Configs)
    → replace name value cs ≡ some cs'
    → (names cs' ≡ names cs) × (length cs' ≡ length cs)
unfolding replace
names-replace name value [] cs' e = cc
names-replace name value (d ∷ ds) cs' e = elim (Bool-cases (named name d)) [
  | inl found ↦ ground arith
  | inr other ↦ elim (Option-cases (replace name value ds)) [
    | inl nowhere ↦ absurd (ground (arith, nowhere))
    | inr (es, somewhere) ↦ ground (arith, somewhere, names-replace name value ds es somewhere)
  ]
]

Absent-replace :
    (name value : Bytes) (cs : Configs) → replace name value cs ≡ none → Absent name (names cs)
unfolding replace
Absent-replace name value [] e = tt
Absent-replace name value (d ∷ ds) e = elim (Option-cases (replace name value ds)) [
  | inl nowhere ↦ ground (arith, Absent-replace name value ds nowhere)
  | inr (es, somewhere) ↦ absurd (ground (arith, somewhere))
]

names-append : (cs : Configs) (d : Entry) → names (cs ++ (d ∷ [])) ≡ names cs ++ (d.name ∷ [])
names-append [] d = refl
names-append (c ∷ cs) d = ap (◌∷◌ c.name) (names-append cs d)

Absent-append :
    (n m : Bytes) (ns : List Bytes) → Absent n ns → same n m ≡ false → Absent n (ns ++ (m ∷ []))
Absent-append n m [] a h = (h, tt)
Absent-append n m (k ∷ ks) a h = (a.0, Absent-append n m ks a.1 h)

Distinct-append :
    (name : Bytes) (ns : List Bytes)
    → Absent name ns
    → Distinct ns
    → Distinct (ns ++ (take (max_name + 1) name ∷ []))
Distinct-append name [] a d = (tt, length-take_le (max_name + 1) name, tt)
Distinct-append name (n ∷ ns) a (absent, short, d) =
    let apart : same n (take (max_name + 1) name) ≡ false =
      strncmp_eq-take (max_name + 1) n name ∙ strncmp_eq-sym (max_name + 1) n name ∙ a.0 in
    (
      Absent-append n (take (max_name + 1) name) ns absent apart,
      short,
      Distinct-append name ns a.1 d,
    )

pub config_create-IsValid :
    (name value : Bytes) {cs : Configs} → IsValid cs → IsValid (config_create name value cs).1
unfolding config_create
config_create-IsValid name value {cs} v = elim (Option-cases (replace name value cs)) [
  | inr (cs', e) ↦
      let (same_names, same_length) = names-replace name value cs cs' e in
      rw (e, config_create)
        record {
          distinct = subst Distinct (sym same_names) v.distinct;
          fits = omega (arith, v.fits);
        }
  | inl e ↦ elim (Bool-cases (ltb max_config (length cs + 1))) [
    | inl full ↦ rw (e, config_create, full) v
    | inr room ↦
        let new : Entry = record { name = take (max_name + 1) name; value = closed value } in
        rw (e, config_create, room)
          record {
            distinct =
                subst Distinct (sym (names-append cs new))
                  (Distinct-append name (names cs) (Absent-replace name value cs e) v.distinct);
            fits = ground (arith, length-append {0} cs (new ∷ []));
          }
  ]
]

names-set_value :
    (cs : Configs) (i : ℕ) (value : Bytes)
    → (names (set_value cs i value) ≡ names cs) × (length (set_value cs i value) ≡ length cs)
unfolding set_value
names-set_value [] i value = (refl, refl)
names-set_value (c ∷ cs) zero value = (refl, refl)
names-set_value (c ∷ cs) (suc i) value = ground (arith, names-set_value cs i value)

pub config_set_from_index-IsValid :
    (i : ℕ) (value : Bytes) {cs : Configs}
    → IsValid cs
    → IsValid (config_set_from_index i value cs).1
unfolding config_set_from_index
config_set_from_index-IsValid i value {cs} v = elim (Bool-cases (leb (length cs) i)) [
  | inl out ↦ rw out v
  | inr there ↦
      let (same_names, same_length) = names-set_value cs i value in
      rw there record {
        distinct = subst Distinct (sym same_names) v.distinct;
        fits = omega (arith, v.fits);
      }
]
