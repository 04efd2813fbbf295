-- ===== src/Flatrecs/Chunks.antt =====
-- How large a block flatrecs_make_offset_to_recno asks for.
use recnodb.Base.{
  ℕ, ◌+◌, ◌-◌, ◌*◌, ◌/◌, ◌%◌, ◌^◌, ◌≤◌, ◌<◌, ◌≡◌, ◌≢◌, ap, ◌∙◌, inl, inr, arith, Bool-cases, ◌==◌,
}
use native.Mathlib.Nat.{div-add-mod', mod-lt, add-mul-mod_self_left}
use recnodb.Flatrecs.{chunk_bytes, new_data_block}

mul-mod : (n c : ℕ) → n * c % c ≡ 0
mul-mod n c = ap (λ x. x % c) (omega arith) ∙ (add-mul-mod_self_left 0 c n ∙ omega arith)

-- a number of chunks that fits
whole_chunks :
    (n chunk : ℕ)
    → n * chunk < 2 ^ 32
    → (n * chunk % 2 ^ 32 ≡ n * chunk) × (n * chunk % 2 ^ 32 % chunk ≡ 0)
whole_chunks n chunk h =
    let e : n * chunk % 2 ^ 32 ≡ n * chunk = omega arith in
    (e, ap (λ x. x % chunk) e ∙ mul-mod n chunk)

-- Rounded up to chunks of a size that is not zero, the size of a new block holds what is needed
-- with less than a chunk to spare and is a multiple of the chunk size, as long as it fits
-- `uint32_t`.
pub chunk_bytes_bounds :
    (needed chunk : ℕ)
    → chunk ≢ 0
    → needed + chunk ≤ 2 ^ 32
    → (needed ≤ chunk_bytes needed chunk)
      × (chunk_bytes needed chunk < needed + chunk)
      × (chunk_bytes needed chunk % chunk ≡ 0)
unfolding chunk_bytes
chunk_bytes_bounds needed chunk ne fits = elim (Bool-cases (needed % chunk == 0)) [
  | inl z ↦ rw z (
      let all = div-add-mod' needed chunk in
      let none_over : needed % chunk ≡ 0 = ground arith in
      let (e, m) = whole_chunks (needed / chunk + 0) chunk (omega (arith, all)) in
      (omega (arith, all), omega (arith, all), m))
  | inr nz ↦ rw nz (
      let all = div-add-mod' needed chunk in
      let some_left : 0 < needed % chunk = ground arith in
      let less : needed % chunk < chunk = mod-lt needed (omega arith) in
      let (e, m) = whole_chunks (needed / chunk + 1) chunk (omega (arith, all)) in
      (omega (arith, all), omega (arith, all), m))
]

chunk_bytes-zero : (chunk : ℕ) → chunk_bytes 0 chunk ≡ 0
unfolding chunk_bytes
chunk_bytes-zero chunk = ground (arith, div-add-mod' 0 chunk)

-- For the record just behind the last block, whatever its size and the chunk size, which is not
-- zero, a block of no bytes is asked for.
new_data_block-next :
    (recsize recno chunk : ℕ)
    → chunk ≢ 0
    → recno < 2 ^ 32
    → (new_data_block recsize recno recno chunk).block_size ≡ 0
unfolding new_data_block
new_data_block-next recsize recno chunk ne small =
    let none_left : (recno + 2 ^ 32 - recno) % 2 ^ 32 ≡ 0 = omega arith in
    let nothing : recsize * ((recno + 2 ^ 32 - recno) % 2 ^ 32) % 2 ^ 32 ≡ 0 =
      ap (λ x. recsize * x % 2 ^ 32) none_left ∙ omega arith in
    ap (λ n. chunk_bytes n chunk) nothing ∙ chunk_bytes-zero chunk
