-- ===== src/Config/Bounds.antt =====
-- `config_initialize_from_file` writes inside `value_buf`, however long the values are, and inside
-- `name_buf` as long as no name is longer than 20 bytes.
use http_proxy.Base.{
  ℕ, ◌+◌, ◌*◌, ◌/◌, ◌%◌, ◌≤◌, ◌<◌, ◌≡◌, ◌≢◌, refl, Bool, true, false, ◌&&◌, none, [], ◌∷◌, Bytes,
  ◌==◌, ltb, if◌then◌else◌, length, length-append, subst, is_alpha, is_digit, is_lower, is_upper,
  Bool-cases, inl, inr, arith,
}
use http_proxy.Config.{Configs, max_name}
use http_proxy.Config.File.{
  FileState, start, name, equal, value, Reader, Outcome, going, refused, out_of_bounds, is_word,
  put_name, close_name, put_value, close_value, take_byte, take_byte_in, read_loop, end_of_file,
  configs_of, first_reader, config_initialize_from_file,
}

-- No name in the file is longer than 20 bytes: what stands at the start of a line, up to its `=` or
-- to a byte that no name has. The first argument is true behind the `=` of a line, and the second
-- counts the bytes of the name so far.
abbrev pub names_fit : Bool → ℕ → Bytes → Bool
names_fit in_value k [] = true
names_fit true k (c ∷ cs) = if c == b'\n' then names_fit false 0 cs else names_fit true k cs
names_fit false k (c ∷ cs) =
    let rest = names_fit false (k + 1) cs in
    let behind = names_fit true 0 cs in
    if is_word c then ltb k max_name && rest else if c == b'=' then behind else true

-- The memory at `value_buf` is what the bytes written need, in steps of ten.
abbrev Allocated : Reader → Type 0
Allocated r = r.size ≡ (length r.value_buf + 9) / 10 * 10

-- What the loop keeps in each state, with the rest of the file.
abbrev Within : FileState → Reader → Bytes → Type 0
Within start r cs = (r.value_buf ≡ []) × (r.size ≡ 0) × (names_fit false 0 cs ≡ true)
Within name r cs =
    (r.value_buf ≡ [])
    × (r.size ≡ 0)
    × (length r.name_buf ≤ max_name)
    × (names_fit false (length r.name_buf) cs ≡ true)
Within equal r cs = (r.value_buf ≡ []) × (r.size ≡ 0) × (names_fit true 0 cs ≡ true)
Within value r cs = Allocated r × (0 < length r.value_buf) × (names_fit true 0 cs ≡ true)

abbrev Safe : Bytes → Outcome → Type 0
Safe cs (going r) = Within r.state r cs
Safe cs (refused r) = Unit
Safe cs out_of_bounds = ⊥

-- The memory is enough for the byte that comes next.
room_behind : (n size : ℕ) → size ≡ (n + 9) / 10 * 10 → n % 10 ≢ 0 → n < size
room_behind n size a h = omega arith

allocated_next : (n : ℕ) → n % 10 ≡ 0 → n + 10 ≡ (n + 1 + 9) / 10 * 10
allocated_next n h = omega arith

allocated_same : (n size : ℕ) → size ≡ (n + 9) / 10 * 10 → n % 10 ≢ 0 → size ≡ (n + 1 + 9) / 10 * 10
allocated_same n size a h = omega arith

close_value-Safe :
    (cs : Bytes) (r : Reader) → Allocated r → names_fit false 0 cs ≡ true → Safe cs (close_value r)
unfolding close_value
close_value-Safe cs r a h = elim (Bool-cases (length r.value_buf % 10 == 0)) [
  | inl full ↦
      let room : ltb (length r.value_buf) (length r.value_buf + 10) ≡ true = ground arith in
      rw (full, room) (refl, refl, h)
  | inr free ↦
      let room : ltb (length r.value_buf) r.size ≡ true =
        ground (arith, room_behind (length r.value_buf) r.size a) in
      rw (free, room) (refl, refl, h)
]

put_value-Safe :
    (c : ℕ) (cs : Bytes) (r : Reader)
    → Allocated r
    → names_fit true 0 cs ≡ true
    → Safe cs (put_value c r)
unfolding put_value
put_value-Safe c cs r a h = elim (Bool-cases (length r.value_buf % 10 == 0)) [
  | inl full ↦
      let room : ltb (length r.value_buf) (length r.value_buf + 10) ≡ true = ground arith in
      rw (full, room)
        (
          ground
              (arith, length-append {0} r.value_buf (c ∷ []), allocated_next (length r.value_buf)),
          ground (arith, length-append {0} r.value_buf (c ∷ [])),
          h,
        )
  | inr free ↦
      let room : ltb (length r.value_buf) r.size ≡ true =
        ground (arith, room_behind (length r.value_buf) r.size a) in
      rw (free, room)
        (
          ground (
            arith,
            length-append {0} r.value_buf (c ∷ []),
            allocated_same (length r.value_buf) r.size a,
          ),
          ground (arith, length-append {0} r.value_buf (c ∷ [])),
          h,
        )
]

word_apart : (c d : ℕ) → is_word c ≡ true → is_word d ≡ false → c == d ≡ false
word_apart c d h n = elim (Bool-cases (c == d)) [
  | inl equals ↦
      let e : c ≡ d = ground arith in
      let both : is_word d ≡ true = subst (λ t. is_word t ≡ true) e h in absurd (cc)
  | inr other ↦ other
]

not_newline : (c : ℕ) → is_word c ≡ true → c == b'\n' ≡ false
unfolding is_word is_alpha is_digit is_lower is_upper
not_newline c h = word_apart c b'\n' h refl

take_byte-Safe :
    (s : FileState) (c : ℕ) (cs : Bytes) (r : Reader)
    → Within s r (c ∷ cs)
    → Safe cs (take_byte_in s c r)
unfolding take_byte_in
take_byte-Safe start c cs r w = elim (Bool-cases (is_word c)) [
  | inl word ↦ rw word (w.0, w.1, omega arith, ground (arith, w.2))
  | inr other ↦ rw other tt
]
take_byte-Safe name c cs r w = elim (Bool-cases (is_word c)) [
  | inl word ↦
      let short : ltb (length r.name_buf) (max_name + 1) ≡ true = ground (arith, w.2) in
      rw (word, put_name, short)
        (
          w.0,
          w.1,
          ground (arith, length-append {0} r.name_buf (c ∷ [])),
          ground (arith, length-append {0} r.name_buf (c ∷ [])),
        )
  | inr other ↦ elim (Bool-cases (c == b'=')) [
    | inl is ↦
        let short : ltb (length r.name_buf) (max_name + 1) ≡ true = ground (arith, w.2) in
        rw (other, is, close_name, short) (w.0, w.1, ground arith)
    | inr differs ↦ rw (other, differs) tt
  ]
]
take_byte-Safe equal c cs r w = elim (Bool-cases (is_word c)) [
  | inl word ↦ rw word (refl, omega arith, ground (arith, not_newline c word))
  | inr other ↦ rw other tt
]
take_byte-Safe value c cs r w = elim (Bool-cases (is_word c)) [
  | inl word ↦ rw word (put_value-Safe c cs r w.0 (ground (arith, not_newline c word)))
  | inr other ↦ elim (Bool-cases (c == b'\n')) [
    | inl eol ↦ rw (other, eol) (close_value-Safe cs r w.0 (ground arith))
    | inr differs ↦ rw (other, differs) tt
  ]
]

read_loop-Safe : (cs : Bytes) (o : Outcome) → Safe cs o → Safe [] (read_loop cs o)
unfolding read_loop
read_loop-Safe [] o w = w
read_loop-Safe (c ∷ cs) (going r) w =
    read_loop-Safe cs (take_byte c r) (take_byte-Safe r.state c cs r w)
read_loop-Safe (c ∷ cs) (refused r) w = tt
read_loop-Safe (c ∷ cs) out_of_bounds w = elim w [ ]

configs_of-Safe : (o : Outcome) → Safe [] o → configs_of o ≢ none
configs_of-Safe (going r) w = λ e. cc
configs_of-Safe (refused r) w = λ e. cc
configs_of-Safe out_of_bounds w = elim w [ ]

value_end : (s : FileState) (r : Reader) → Within s r [] → 0 < r.size → Safe [] (close_value r)
value_end start r w h = absurd (omega (arith, w.1))
value_end name r w h = absurd (omega (arith, w.1))
value_end equal r w h = absurd (omega (arith, w.1))
value_end value r w h = close_value-Safe [] r w.0 refl

end_of_file-Safe : (o : Outcome) → Safe [] o → end_of_file o ≢ none
unfolding end_of_file
end_of_file-Safe (going r) w = elim (Bool-cases (ltb 0 r.size)) [
  | inl some_value ↦
      rw some_value (configs_of-Safe (close_value r) (value_end r.state r w (ground arith)))
  | inr no_value ↦ rw no_value (λ e. cc)
]
end_of_file-Safe (refused r) w = λ e. cc
end_of_file-Safe out_of_bounds w = elim w [ ]

-- When each name in the file has at most 20 bytes, `config_initialize_from_file` writes no byte
-- outside `name_buf` and none outside the memory at `value_buf`, whatever else the file holds and
-- however long its values are: it returns a result and configurations.
pub config_initialize_from_file_within :
    (file : Bytes) (cs : Configs)
    → names_fit false 0 file ≡ true
    → config_initialize_from_file file cs ≢ none
unfolding config_initialize_from_file
config_initialize_from_file_within file cs h =
    end_of_file-Safe (read_loop file (going (first_reader cs)))
      (read_loop-Safe file (going (first_reader cs)) (refl, refl, h))
