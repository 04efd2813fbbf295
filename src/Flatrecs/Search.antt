-- ===== src/Flatrecs/Search.antt =====
-- `flatrecs_make_offset_to_recno` where the record lies in a block of the chain, without faults.
use recnodb.Base.{ℕ, zero, suc, ◌+◌, ◌-◌, ◌%◌, ◌^◌, ◌≤◌, ◌<◌, ◌≡◌, refl, ◌≢◌, arith, lt→ltb, le→ltb}
use recnodb.Bytes.{Bytes, zeros, read, write}
use recnodb.Types.{success, live}
use recnodb.Stdio.{World, off_limit, Returns, returns}
use recnodb.Stdio.Calm.{calm}
use recnodb.Blocks.Layout.{BlockLoc, next_offset, member}
use recnodb.Blocks.Head.Transfer.{get_next_block_head-calm}
use recnodb.Flatrecs.{
  full_recsize, get_record_capacity, record_offset, find_block, make_offset_to_recno,
}

-- the head of the block at `q`, as it is read
abbrev pub newblock : Bytes → ℕ → Bytes
newblock f q = write (zeros 32) 0 (read f q 32)

-- Record `recno` is looked for from the block with head `b` at `o` on, whose first record is `start`;
-- `rounds` blocks further on it is record number `local` of the block with head `b'` at `o'`.
pub data Lies (f : Bytes) (htable : Bytes) (recno : ℕ)
    : ℕ → Bytes → ℕ → ℕ → Bytes → ℕ → ℕ → Type 0 where
  here :
      {start : ℕ} {b : Bytes} {o l : ℕ}
      → start + l ≡ recno
      → l < get_record_capacity htable b
      → Lies f htable recno start b o zero b o l
  further :
      {start : ℕ} {b : Bytes} {o q rounds : ℕ} {b' : Bytes} {o' l : ℕ}
      → start + get_record_capacity htable b ≤ recno
      → member b 0 next_offset ≡ q
      → q ≢ 0
      → q < off_limit
      → q + 32 ≤ f.size
      → Lies f htable recno (start + get_record_capacity htable b) (newblock f q) q rounds b' o' l
      → Lies f htable recno start b o (suc rounds) b' o' l

module _ (bloc : BlockLoc) (htable : Bytes) (recno : ℕ) (small : recno < 2 ^ 32) where
  pub find_block-Lies :
      (fuel : ℕ) (w : World) {start rounds : ℕ} {b b' : Bytes} {o o' l : ℕ}
      → w.handle.stream ≡ live
      → Lies w.file htable recno start b o rounds b' o' l
      → rounds < fuel
      → Returns
          (λ r w'.
            (r ≡ (success, record_offset bloc b' l (full_recsize htable)))
            × (w'.file ≡ w.file)
            × (w'.handle ≡ w.handle))
          (find_block bloc htable recno fuel start b o (calm w))
  unfolding find_block
  find_block-Lies zero w opened lies enough = absurd (omega arith)
  find_block-Lies (suc fuel) w opened (here {start} {b} {o} {l} e h) enough =
      let i : (recno + 2 ^ 32 - start) % 2 ^ 32 ≡ l = omega arith in
      rw (i, lt→ltb l (get_record_capacity htable b) h) (returns (refl, refl, refl))
  find_block-Lies (suc fuel) w opened (further {start} {b} {o} {q} h e ne positive inside lies)
        enough =
      let i : (recno + 2 ^ 32 - start) % 2 ^ 32 ≡ recno - start = omega arith in
      let n : (start + get_record_capacity htable b) % 2 ^ 32
          ≡ start + get_record_capacity htable b =
        omega arith in
      rw
        (
          i,
          le→ltb (recno - start) (get_record_capacity htable b) (omega arith),
          get_next_block_head-calm w q positive b (zeros 32) o opened e ne inside,
          n,
        )
        (find_block-Lies fuel (record w { pos = q + 32; tick = w.tick + 1 + 1 }) opened lies
          (omega arith))

  -- A record that lies in a block of the chain is found in as many rounds as there are blocks up to
  -- that one, and the file stays. The offset is that of the table's head, with the distance of the
  -- record from the head of its own block.
  pub make_offset_to_recno-Lies :
      (fuel : ℕ) (w : World) {rounds : ℕ} {b : Bytes} {o l : ℕ}
      → w.handle.stream ≡ live
      → Lies w.file htable recno 1 htable bloc.offset rounds b o l
      → rounds < fuel
      → Returns
          (λ r w'.
            (r ≡ (success, record_offset bloc b l (full_recsize htable)))
            × (w'.file ≡ w.file)
            × (w'.handle ≡ w.handle))
          (make_offset_to_recno bloc htable recno fuel (calm w))
  unfolding make_offset_to_recno
  make_offset_to_recno-Lies fuel w opened lies enough = find_block-Lies fuel w opened lies enough
