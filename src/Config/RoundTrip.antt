-- ===== src/Config/RoundTrip.antt =====
-- `config_initialize_from_file` on a file of `name=value` lines.
use http_proxy.Base.{
  ℕ, ◌+◌, ◌/◌, ◌*◌, ◌%◌, ◌≤◌, ◌<◌, ◌≡◌, ◌∙◌, refl, sym, ap, Bool, true, ◌&&◌, some, List, [], ◌∷◌,
  ◌++◌, append-nil, append_assoc, Bytes, ◌==◌, ltb, leb, pos, length, length-append, Bool-cases,
  is_alpha, is_digit, is_lower, is_upper, inl, inr, arith,
}
use http_proxy.Config.{Configs, max_name, config_create}
use http_proxy.Config.File.{
  FileState, start, name, equal, value, Reader, going, is_word, put_name, close_name, grow,
  put_value, close_value, take_byte_in, read_loop, end_of_file, config_initialize_from_file,
}

pub record Line : Type 0 where
  pub key : Bytes
  pub text : Bytes

abbrev pub all_words : Bytes → Bool
all_words [] = true
all_words (c ∷ cs) = is_word c && all_words cs

abbrev pub is_writable : Line → Bool
is_writable l =
    all_words l.key
    && all_words l.text
    && ltb 0 (length l.key)
    && leb (length l.key) max_name
    && ltb 0 (length l.text)

abbrev pub all_writable : List Line → Bool
all_writable [] = true
all_writable (l ∷ ls) = is_writable l && all_writable ls

-- The lines, each with its newline.
abbrev pub render : List Line → Bytes
render [] = []
render (l ∷ ls) = l.key ++ (b'=' ∷ (l.text ++ (b'\n' ∷ render ls)))

-- `config_create` for each line in order.
abbrev pub create_all : List Line → Configs → Configs
create_all [] cs = cs
create_all (l ∷ ls) cs = create_all ls (config_create l.key l.text cs).1

abbrev reader : FileState → Bytes → Bytes → ℕ → Configs → Reader
reader s n v size cs = record { state = s; name_buf = n; value_buf = v; size = size; configs = cs }

-- The memory that `n` bytes have.
abbrev rounded : ℕ → ℕ
rounded n = (n + 9) / 10 * 10

snoc : (xs ys : Bytes) (c : ℕ) → (xs ++ (c ∷ [])) ++ ys ≡ xs ++ (c ∷ ys)
snoc xs ys c = append_assoc xs (c ∷ []) ys

put_name_next :
    (c : ℕ) (n : Bytes) (cs : Configs)
    → is_word c ≡ true
    → length n < 21
    → take_byte_in name c (reader name n [] 0 cs) ≡ going (reader name (n ++ (c ∷ [])) [] 0 cs)
unfolding take_byte_in put_name
put_name_next c n cs w h = let short : ltb (length n) 21 ≡ true = ground arith in rw (w, short) refl

close_name_next :
    (n : Bytes) (cs : Configs)
    → length n < 21
    → take_byte_in name b'=' (reader name n [] 0 cs) ≡ going (reader equal n [] 0 cs)
unfolding take_byte_in close_name is_word is_alpha is_digit is_lower is_upper
close_name_next n cs h = let short : ltb (length n) 21 ≡ true = ground arith in rw short refl

put_value_next :
    (c : ℕ) (n v : Bytes) (cs : Configs)
    → is_word c ≡ true
    → take_byte_in value c (reader value n v (rounded (length v)) cs)
      ≡ going (reader value n (v ++ (c ∷ [])) (rounded (length (v ++ (c ∷ [])))) cs)
unfolding take_byte_in put_value grow
put_value_next c n v cs w = elim (Bool-cases (length v % 10 == 0)) [
  | inl full ↦
      let room : ltb (length v) (length v + 10) ≡ true = ground arith in
      let next : length v + 10 ≡ rounded (length (v ++ (c ∷ []))) =
        ground (arith, length-append {0} v (c ∷ [])) in
      rw (w, full, room) (ap (λ t. going (reader value n (v ++ (c ∷ [])) t cs)) next)
  | inr free ↦
      let room : ltb (length v) (rounded (length v)) ≡ true = ground arith in
      let next : rounded (length v) ≡ rounded (length (v ++ (c ∷ []))) =
        ground (arith, length-append {0} v (c ∷ [])) in
      rw (w, free, room) (ap (λ t. going (reader value n (v ++ (c ∷ [])) t cs)) next)
]

close_value_next :
    (n v : Bytes) (cs : Configs)
    → take_byte_in value b'\n' (reader value n v (rounded (length v)) cs)
      ≡ going (reader start n [] 0 (config_create n v cs).1)
unfolding take_byte_in close_value grow is_word is_alpha is_digit is_lower is_upper
close_value_next n v cs = elim (Bool-cases (length v % 10 == 0)) [
  | inl full ↦
      let room : ltb (length v) (length v + 10) ≡ true = ground arith in rw (full, room) refl
  | inr free ↦
      let room : ltb (length v) (rounded (length v)) ≡ true = ground arith in rw (free, room) refl
]

read_name :
    (ns n rest : Bytes) (cs : Configs)
    → all_words ns ≡ true
    → length n + length ns ≤ max_name
    → read_loop (ns ++ (b'=' ∷ rest)) (going (reader name n [] 0 cs))
      ≡ read_loop rest (going (reader equal (n ++ ns) [] 0 cs))
unfolding read_loop
read_name [] n rest cs w h =
    ap (read_loop rest) (close_name_next n cs (omega arith))
    ∙ ap (λ t. read_loop rest (going (reader equal t [] 0 cs))) (sym (append-nil n))
read_name (c ∷ ns) n rest cs w h =
    ap (read_loop (ns ++ (b'=' ∷ rest))) (put_name_next c n cs (ground arith) (ground arith))
    ∙ read_name ns (n ++ (c ∷ [])) rest cs (ground arith)
        (ground (arith, length-append {0} n (c ∷ [])))
    ∙ ap (λ t. read_loop rest (going (reader equal t [] 0 cs))) (snoc n ns c)

read_value :
    (vs v n rest : Bytes) (cs : Configs)
    → all_words vs ≡ true
    → read_loop (vs ++ (b'\n' ∷ rest)) (going (reader value n v (rounded (length v)) cs))
      ≡ read_loop rest (going (reader start n [] 0 (config_create n (v ++ vs) cs).1))
unfolding read_loop
read_value [] v n rest cs w =
    ap (read_loop rest) (close_value_next n v cs)
    ∙ ap (λ t. read_loop rest (going (reader start n [] 0 (config_create n t cs).1)))
        (sym (append-nil v))
read_value (c ∷ vs) v n rest cs w =
    ap (read_loop (vs ++ (b'\n' ∷ rest))) (put_value_next c n v cs (ground arith))
    ∙ read_value vs (v ++ (c ∷ [])) n rest cs (ground arith)
    ∙ ap (λ t. read_loop rest (going (reader start n [] 0 (config_create n t cs).1))) (snoc v vs c)

first_of_name :
    (c : ℕ) (n : Bytes) (cs : Configs)
    → is_word c ≡ true
    → take_byte_in start c (reader start n [] 0 cs) ≡ going (reader name (c ∷ []) [] 0 cs)
unfolding take_byte_in put_name
first_of_name c n cs w = rw w refl

first_of_value :
    (c : ℕ) (n : Bytes) (cs : Configs)
    → is_word c ≡ true
    → take_byte_in equal c (reader equal n [] 0 cs) ≡ going (reader value n (c ∷ []) 10 cs)
unfolding take_byte_in put_value grow
first_of_value c n cs w = rw w refl

read_text :
    (vs n rest : Bytes) (cs : Configs)
    → all_words vs ≡ true
    → 0 < length vs
    → read_loop (vs ++ (b'\n' ∷ rest)) (going (reader equal n [] 0 cs))
      ≡ read_loop rest (going (reader start n [] 0 (config_create n vs cs).1))
unfolding read_loop
read_text [] n rest cs w h = absurd (omega arith)
read_text (c ∷ vs) n rest cs w h =
    ap (read_loop (vs ++ (b'\n' ∷ rest))) (first_of_value c n cs (ground arith))
    ∙ read_value vs (c ∷ []) n rest cs (ground arith)

read_line :
    (key text n rest : Bytes) (cs : Configs)
    → all_words key ≡ true
    → all_words text ≡ true
    → 0 < length key
    → length key ≤ max_name
    → 0 < length text
    → read_loop (key ++ (b'=' ∷ (text ++ (b'\n' ∷ rest)))) (going (reader start n [] 0 cs))
      ≡ read_loop rest (going (reader start key [] 0 (config_create key text cs).1))
unfolding read_loop
read_line [] text n rest cs wk wt hk h ht = absurd (omega arith)
read_line (c ∷ key) text n rest cs wk wt hk h ht =
    ap (read_loop (key ++ (b'=' ∷ (text ++ (b'\n' ∷ rest))))) (first_of_name c n cs (ground arith))
    ∙ read_name key (c ∷ []) (text ++ (b'\n' ∷ rest)) cs (ground arith) (ground arith)
    ∙ read_text text (c ∷ key) rest cs wt ht

read_lines :
    (ls : List Line) (n : Bytes) (cs : Configs)
    → all_writable ls ≡ true
    → end_of_file (read_loop (render ls) (going (reader start n [] 0 cs)))
      ≡ some (pos 0, create_all ls cs)
unfolding read_loop end_of_file
read_lines [] n cs h = refl
read_lines (l ∷ ls) n cs h =
    ap end_of_file (
      read_line l.key l.text n (render ls) cs (ground arith) (ground arith) (ground arith)
        (ground arith) (ground arith))
    ∙ read_lines ls l.key (config_create l.key l.text cs).1 (ground arith)

-- For lines whose names have 1 to 20 bytes and whose values are not empty, both of letters, digits,
-- `-` and `_`, `config_initialize_from_file` on the file with a line `name=value` for each returns 0
-- and leaves what `config_create` of each name and value in turn leaves.
pub config_initialize_from_file-render :
    (ls : List Line) (cs : Configs)
    → all_writable ls ≡ true
    → config_initialize_from_file (render ls) cs ≡ some (pos 0, create_all ls cs)
unfolding config_initialize_from_file
config_initialize_from_file-render ls cs h = read_lines ls [] cs h
