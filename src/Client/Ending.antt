-- ===== src/Client/Ending.antt =====
-- How the body of a transformed response ends.
use http_proxy.Base.{
  ℕ, ◌-◌, ◌≤◌, ◌≡◌, ◌∙◌, refl, ap, Bool, true, false, none, some, ◌>>=◌, ◌∷◌, ◌++◌, Bytes, ltb, leb,
  pos, inl, inr, arith,
}
use http_proxy.Buffer.{Buffer, can_write, write_ptr}
use http_proxy.Buffer.Invariant.{IsValid}
use http_proxy.Buffer.Refine.{contents}
use http_proxy.Chunks.{ReadResult, empty_chunk, write_empty_chunk, dump_chunk_from_fd}
use http_proxy.Chunks.Framing.{write_empty_chunk-Appended}
use http_proxy.Client.{Client, unregister, closing, Result}
use http_proxy.Client.Senders.{emptied, dumped, transf_read}

-- With too little room for a chunk, nothing is read.
little_room :
    (print_hex : ℕ → Bytes) (allocated : Bool) (read : ℕ → ReadResult) {b : Buffer}
    → IsValid b
    → b.limit - b.write ≤ 11
    → dump_chunk_from_fd print_hex allocated read b ≡ some (pos 0, b)
unfolding dump_chunk_from_fd write_ptr
little_room print_hex allocated read {b} v h =
    let inside : leb b.write b.limit ≡ true = ground (arith, v.write_le_limit) in
    let little : ltb 11 (b.limit - b.write) ≡ false = ground arith in
    rw (inside, dump_chunk_from_fd, little) refl

-- For a valid buffer of the response with 5 to 11 bytes of free space, `transf_read` puts the chunk that
-- ends the body behind the unread bytes and takes the transformation out of the selector, closes and
-- forgets its descriptor, whatever the transformation still had to say and whether there is memory.
pub transf_read_ends_early :
    (print_hex : ℕ → Bytes) (allocated : Bool) (read : ℕ → ReadResult) (c : Client)
    → IsValid c.post_res_parse_buf
    → 5 ≤ c.post_res_parse_buf.limit - c.post_res_parse_buf.write
    → c.post_res_parse_buf.limit - c.post_res_parse_buf.write ≤ 11
    → (r : Result) × (transf_read print_hex allocated read c ≡ some r)
      × (contents r.client.post_res_parse_buf ≡ contents c.post_res_parse_buf ++ empty_chunk)
      × (r.calls ≡ unregister c.transf_out_fd ∷ closing c.transf_out_fd)
      × (r.client.transf_out_fd ≡ none)
unfolding transf_read can_write
transf_read_ends_early print_hex allocated read c v lo hi =
    let b : Buffer = c.post_res_parse_buf in
    let room : can_write b ≡ true = ground (arith, v.write_le_limit) in
    let begun : transf_read print_hex allocated read c
        ≡ (dump_chunk_from_fd print_hex allocated read b >>= dumped c) =
      rw (room, transf_read) refl in
    let nothing : (dump_chunk_from_fd print_hex allocated read b >>= dumped c)
        ≡ (write_empty_chunk b >>= emptied c) =
      ap (λ o. o >>= dumped c) (little_room print_hex allocated read v hi) in
    elim (write_empty_chunk-Appended v) [
      | inl (fits, (b', e, v', ended)) ↦
          (_, begun ∙ nothing ∙ ap (λ o. o >>= emptied c) e, ended, refl, refl)
      | inr w ↦ absurd (omega (arith, w.0))
    ]
