-- ===== src/Config/Reach.antt =====
-- The configurations that the calls of config.c lead to, in any order, and their invariant.
use http_proxy.Base.{
  ℕ, ◌%◌, ◌≡◌, refl, sym, ap, some, [], ◌∷◌, Bytes, ◌==◌, ltb, ℤ, length, subst, Bool-cases, inl,
  inr, arith,
}
use mathlib.Core.Option.{some-injective}
use http_proxy.Config.{Configs, config_create, config_set_from_index}
use http_proxy.Config.File.{
  FileState, start, name, equal, value, Reader, Outcome, going, refused, out_of_bounds, is_word,
  put_name, close_name, grow, put_value, close_value, take_byte_in, take_byte, read_loop,
  configs_of, end_of_file, first_reader, config_initialize_from_file,
}
use http_proxy.Config.Invariant.{IsValid, config_create-IsValid, config_set_from_index-IsValid}

pub data Configured : Configs → Type 0 where
  none_yet : Configured []
  created :
      (key text : Bytes) {cs : Configs} → Configured cs → Configured (config_create key text cs).1
  set_by_index :
      (i : ℕ) (text : Bytes) {cs : Configs}
      → Configured cs
      → Configured (config_set_from_index i text cs).1
  read_from_file :
      (file : Bytes) (result : ℤ) {cs cs' : Configs}
      → Configured cs
      → config_initialize_from_file file cs ≡ some (result, cs')
      → Configured cs'

-- What a byte leads to has valid configurations.
abbrev Kept : Outcome → Type 0
Kept (going r) = IsValid r.configs
Kept (refused r) = IsValid r.configs
Kept out_of_bounds = Unit

grow-configs : (r : Reader) → (grow r).configs ≡ r.configs
unfolding grow
grow-configs r = elim (Bool-cases (length r.value_buf % 10 == 0)) [
  | inl full ↦ rw full refl
  | inr free ↦ rw free refl
]

put_name-Kept : (s : FileState) (c : ℕ) (r : Reader) → IsValid r.configs → Kept (put_name s c r)
unfolding put_name
put_name-Kept s c r v = elim (Bool-cases (ltb (length r.name_buf) 21)) [
  | inl room ↦ rw room v
  | inr full ↦ rw full tt
]

put_value-Kept : (c : ℕ) (r : Reader) → IsValid r.configs → Kept (put_value c r)
unfolding put_value
put_value-Kept c r v =
    let r' : Reader = grow r in
    elim (Bool-cases (ltb (length r'.value_buf) r'.size)) [
      | inl room ↦ rw room (subst IsValid (sym (grow-configs r)) v)
      | inr full ↦ rw full tt
    ]

close_name-Kept : (r : Reader) → IsValid r.configs → Kept (close_name r)
unfolding close_name
close_name-Kept r v = elim (Bool-cases (ltb (length r.name_buf) 21)) [
  | inl room ↦ rw room v
  | inr full ↦ rw full tt
]

close_value-Kept : (r : Reader) → IsValid r.configs → Kept (close_value r)
unfolding close_value
close_value-Kept r v =
    let r' : Reader = grow r in
    elim (Bool-cases (ltb (length r'.value_buf) r'.size)) [
      | inl room ↦
          rw room (
            config_create-IsValid r'.name_buf r'.value_buf (subst IsValid (sym (grow-configs r)) v))
      | inr full ↦ rw full tt
    ]

take_byte-Kept :
    (s : FileState) (c : ℕ) (r : Reader) → IsValid r.configs → Kept (take_byte_in s c r)
unfolding take_byte_in
take_byte-Kept start c r v = elim (Bool-cases (is_word c)) [
  | inl word ↦ rw word v
  | inr other ↦ rw other v
]
take_byte-Kept name c r v = elim (Bool-cases (is_word c)) [
  | inl word ↦ rw word (put_name-Kept name c r v)
  | inr other ↦ elim (Bool-cases (c == b'=')) [
    | inl is ↦ rw (other, is) (close_name-Kept r v)
    | inr differs ↦ rw (other, differs) v
  ]
]
take_byte-Kept equal c r v = elim (Bool-cases (is_word c)) [
  | inl word ↦ rw word v
  | inr other ↦ rw other v
]
take_byte-Kept value c r v = elim (Bool-cases (is_word c)) [
  | inl word ↦ rw word (put_value-Kept c r v)
  | inr other ↦ elim (Bool-cases (c == b'\n')) [
    | inl eol ↦ rw (other, eol) (close_value-Kept r v)
    | inr differs ↦ rw (other, differs) v
  ]
]

read_loop-Kept : (file : Bytes) (o : Outcome) → Kept o → Kept (read_loop file o)
unfolding read_loop
read_loop-Kept [] o k = k
read_loop-Kept (c ∷ cs) (going r) k =
    read_loop-Kept cs (take_byte c r) (take_byte-Kept r.state c r k)
read_loop-Kept (c ∷ cs) (refused r) k = k
read_loop-Kept (c ∷ cs) out_of_bounds k = tt

configs_of-Kept :
    (o : Outcome) (result : ℤ) (cs : Configs)
    → Kept o
    → configs_of o ≡ some (result, cs)
    → IsValid cs
configs_of-Kept (going r) result cs k e = subst IsValid (ap (λ p. p.1) (some-injective _ _ e)) k
configs_of-Kept (refused r) result cs k e = subst IsValid (ap (λ p. p.1) (some-injective _ _ e)) k
configs_of-Kept out_of_bounds result cs k e = absurd (cc)

end_of_file-Kept :
    (o : Outcome) (result : ℤ) (cs : Configs)
    → Kept o
    → end_of_file o ≡ some (result, cs)
    → IsValid cs
unfolding end_of_file
end_of_file-Kept (going r) result cs k e = elim (Bool-cases (ltb 0 r.size)) [
  | inl left ↦ configs_of-Kept (close_value r) result cs (close_value-Kept r k) (rw left at e)
  | inr done ↦ configs_of-Kept (going r) result cs k (rw done at e)
]
end_of_file-Kept (refused r) result cs k e = configs_of-Kept (refused r) result cs k e
end_of_file-Kept out_of_bounds result cs k e = absurd (cc)

no_configs-IsValid : IsValid []
no_configs-IsValid = record { distinct = tt; fits = omega arith }

-- Whatever calls of `config_create`, `config_set_from_index` and `config_initialize_from_file` are
-- made from no configuration on, and whatever they return, there are at most 100 configurations, no
-- name is stored in more than 21 bytes, and no two names agree in their first 21 bytes.
pub Configured-IsValid : {cs : Configs} → Configured cs → IsValid cs
unfolding config_initialize_from_file
Configured-IsValid none_yet = no_configs-IsValid
Configured-IsValid (created key text r) = config_create-IsValid key text (Configured-IsValid r)
Configured-IsValid (set_by_index i text r) =
    config_set_from_index-IsValid i text (Configured-IsValid r)
Configured-IsValid (read_from_file file result {cs} {cs'} r e) =
    end_of_file-Kept (read_loop file (going (first_reader cs))) result cs'
      (read_loop-Kept file (going (first_reader cs)) (Configured-IsValid r)) e
