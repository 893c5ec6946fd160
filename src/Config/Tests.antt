-- ===== src/Config/Tests.antt =====
-- Runs of config.c on small inputs.
use http_proxy.Base.{
  ◌≡◌, ◌≢◌, refl, true, false, none, some, List, [], ◌∷◌, Bytes, codes, is_alpha, is_digit, pos,
  negsuc,
}
use http_proxy.Config.{
  Configs, strncmp_eq, closed, config_create, config_set_from_index, config_get_name,
}
use http_proxy.Config.File.{is_word, config_initialize_from_file}
use http_proxy.Config.Invariant.{IsValid}
use http_proxy.Config.Reach.{Configured, none_yet, set_by_index, read_from_file, Configured-IsValid}
use http_proxy.Config.Bounds.{names_fit, config_initialize_from_file_within}
use http_proxy.Config.RoundTrip.{
  Line, all_writable, render, create_all, config_initialize_from_file-render,
}

abbrev cmd : Bytes
cmd = codes "cmd"

abbrev cat : Bytes
cat = codes "cat"

abbrev port : Bytes
port = codes "port"

abbrev one : Configs
one = record { name = cmd; value = closed cat } ∷ []

-- The second line has no value, so the file is refused, with the first line's configuration kept.
abbrev file : Bytes
file = codes "cmd=cat\nport=\n"

read_file : config_initialize_from_file file [] ≡ some (negsuc 0, one)
unfolding config_initialize_from_file is_word is_alpha is_digit config_create
read_file = refl

abbrev configured_one : Configured (config_set_from_index 0 port one).1
configured_one = set_by_index 0 port (read_from_file file (negsuc 0) none_yet read_file)

Configured-IsValid_example : IsValid (config_set_from_index 0 port one).1
Configured-IsValid_example = Configured-IsValid configured_one

names_fit-file : names_fit false 0 file ≡ true
unfolding is_word is_alpha is_digit
names_fit-file = refl

config_initialize_from_file_within_example : config_initialize_from_file file one ≢ none
config_initialize_from_file_within_example =
    config_initialize_from_file_within file one names_fit-file

-- A name of 22 bytes is written behind the end of `name_buf`.
long_name : config_initialize_from_file (codes "abcdefghijklmnopqrstuv=1\n") [] ≡ none
unfolding config_initialize_from_file is_word is_alpha is_digit config_create
long_name = refl

abbrev two_lines : List Line
two_lines =
    record { key = cmd; text = codes "0123456789" } ∷ record { key = port; text = codes "80" } ∷ []

two_lines_writable : all_writable two_lines ≡ true
unfolding is_word is_alpha is_digit
two_lines_writable = refl

config_initialize_from_file-render_example :
    config_initialize_from_file (render two_lines) one ≡ some (pos 0, create_all two_lines one)
config_initialize_from_file-render_example =
    config_initialize_from_file-render two_lines one two_lines_writable

second_name : config_get_name 1 (create_all two_lines one) ≡ some port
unfolding config_get_name config_create strncmp_eq
second_name = refl
