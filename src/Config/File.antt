-- ===== src/Config/File.antt =====
-- config.c: `config_initialize_from_file`. The bytes of the file are an argument, in place of the
-- file that `fgetc` reads.
use http_proxy.Base.{
  ℕ, ◌+◌, ◌%◌, Bool, ◌||◌, Option, none, some, [], ◌∷◌, ◌++◌, Bytes, ◌==◌, ltb, if◌then◌else◌, ℤ,
  pos, negsuc, length, is_alpha, is_digit,
}
use http_proxy.Config.{Configs, max_name, config_create}

abbrev pub prealloc_quantity : ℕ
prealloc_quantity = 10

pub data FileState : Type 0 where
  start name equal value : FileState

-- The locals of the function. `name_buf` and `value_buf` are the bytes written to the two buffers
-- so far, so `current` is the length of the one that is being written; `size` is the number of
-- bytes allocated at `value_buf`, 0 for a null pointer.
pub record Reader : Type 0 where
  pub state : FileState
  pub name_buf : Bytes
  pub value_buf : Bytes
  pub size : ℕ
  pub configs : Configs

-- What a byte leads to: the next round, `return -1`, or a write out of bounds.
pub data Outcome : Type 0 where
  going : Reader → Outcome
  refused : Reader → Outcome
  out_of_bounds : Outcome

unfoldable pub is_word : ℕ → Bool
is_word c = is_alpha c || is_digit c || c == b'-' || c == b'_'

-- `name_buf[current] = c; current++`, in front of the state `s`.
unfoldable pub put_name : FileState → ℕ → Reader → Outcome
put_name s c r =
    if ltb (length r.name_buf) (max_name + 1)
    then going (record r { name_buf = r.name_buf ++ (c ∷ []); state = s })
    else out_of_bounds

-- `name_buf[current] = '\0'`
unfoldable pub close_name : Reader → Outcome
close_name r =
    if ltb (length r.name_buf) (max_name + 1)
    then going (record r { state = equal })
    else out_of_bounds

-- `if (current % PREALLOC_QUANTITY == 0) value_buf = realloc(value_buf, ...)`
unfoldable pub grow : Reader → Reader
grow r =
    if length r.value_buf % prealloc_quantity == 0
    then record r { size = length r.value_buf + prealloc_quantity }
    else r

unfoldable pub put_value : ℕ → Reader → Outcome
unfolding grow
put_value c r =
    let r' = grow r in
    if ltb (length r'.value_buf) r'.size
    then going (record r' { value_buf = r'.value_buf ++ (c ∷ []); state = value })
    else out_of_bounds

-- `value_buf[current] = '\0'; config_create(name_buf, value_buf); free(value_buf)`
unfoldable pub close_value : Reader → Outcome
unfolding grow
close_value r =
    let r' = grow r in
    if ltb (length r'.value_buf) r'.size
    then going (record r' {
      configs = (config_create r'.name_buf r'.value_buf r'.configs).1;
      value_buf = [];
      size = 0;
      state = start;
    })
    else out_of_bounds

-- The switch on the state.
unfoldable pub take_byte_in : FileState → ℕ → Reader → Outcome
unfolding is_word put_name close_name put_value close_value
take_byte_in start c r =
    if is_word c then put_name name c (record r { name_buf = [] }) else refused r
take_byte_in name c r =
    if is_word c then put_name name c r else if c == b'=' then close_name r else refused r
take_byte_in equal c r = if is_word c then put_value c (record r { value_buf = [] }) else refused r
take_byte_in value c r =
    if is_word c then put_value c r else if c == b'\n' then close_value r else refused r

abbrev pub take_byte : ℕ → Reader → Outcome
take_byte c r = take_byte_in r.state c r

-- `while ((c = fgetc(config_file)) != EOF)`
unfoldable pub read_loop : Bytes → Outcome → Outcome
unfolding take_byte_in
read_loop [] o = o
read_loop (c ∷ cs) (going r) = read_loop cs (take_byte c r)
read_loop (c ∷ cs) (refused r) = refused r
read_loop (c ∷ cs) out_of_bounds = out_of_bounds

abbrev pub configs_of : Outcome → Option (ℤ × Configs)
configs_of (going r) = some (pos 0, r.configs)
configs_of (refused r) = some (negsuc 0, r.configs)
configs_of out_of_bounds = none

-- Behind the loop: the value of a last line that no newline ends.
unfoldable pub end_of_file : Outcome → Option (ℤ × Configs)
unfolding close_value
end_of_file (going r) = if ltb 0 r.size then configs_of (close_value r) else configs_of (going r)
end_of_file (refused r) = configs_of (refused r)
end_of_file out_of_bounds = none

abbrev pub first_reader : Configs → Reader
first_reader cs = record { state = start; name_buf = []; value_buf = []; size = 0; configs = cs }

-- `none` is a write out of bounds.
unfoldable pub config_initialize_from_file : Bytes → Configs → Option (ℤ × Configs)
unfolding read_loop end_of_file
config_initialize_from_file file cs = end_of_file (read_loop file (going (first_reader cs)))
