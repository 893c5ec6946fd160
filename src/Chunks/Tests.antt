-- ===== src/Chunks/Tests.antt =====
-- The chunks in an empty buffer of 20 bytes.
use http_proxy.Base.{
  ℕ, ◌+◌, ◌^◌, ◌≤◌, ◌<◌, ◌≡◌, ◌⊎◌, refl, true, false, some, [], ◌∷◌, Bytes, codes, pos, negsuc,
  length, zeros, take, length-take_le, subst, ap, inr, arith,
}
use http_proxy.Buffer.{Buffer}
use http_proxy.Buffer.Invariant.{IsValid}
use http_proxy.Chunks.{ReadResult, read_error, got, dump_chunk_from_fd}
use http_proxy.Chunks.Framing.{AfterRead, dump_chunk_from_fd-Appended}

abbrev empty : Buffer
empty = record { mem = zeros 20; inf_limit = 0; limit = 20; read = 0; write = 0 }

empty-IsValid : IsValid empty
empty-IsValid = record {
  inf_le_write = omega arith;
  read_le_write = omega arith;
  read_home = inr refl;
  write_le_limit = omega arith;
  in_storage = omega arith;
}

-- The numbers below 10 are enough here.
abbrev print_hex : ℕ → Bytes
print_hex n = (b'0' + n) ∷ []

print_hex_short : (n : ℕ) → n < 16 ^ 6 → length (print_hex n) ≤ 6
print_hex_short n h = omega arith

-- A descriptor with two bytes, when as many are asked for.
abbrev reading : ℕ → ReadResult
reading n = got (take n (codes "hi"))

abbrev bytes_of : ReadResult → Bytes
bytes_of read_error = []
bytes_of (got ys) = ys

reading_at_most : (n : ℕ) (ys : Bytes) → reading n ≡ got ys → length ys ≤ n
reading_at_most n ys e = subst (λ t. length t ≤ n) (ap bytes_of e) (length-take_le n (codes "hi"))

dump_chunk_from_fd-Appended_example :
    let o = dump_chunk_from_fd print_hex true reading empty in
    ((20 ≤ 11) × (o ≡ some (pos 0, empty)))
    ⊎ ((11 < 20) × (true ≡ false) × (o ≡ some (negsuc 0, empty)))
    ⊎ ((11 < 20) × (true ≡ true) × AfterRead empty print_hex (reading 9) o)
dump_chunk_from_fd-Appended_example =
    dump_chunk_from_fd-Appended empty-IsValid print_hex print_hex_short true reading reading_at_most
      (omega arith)
