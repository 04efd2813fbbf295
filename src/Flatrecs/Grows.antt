-- ===== src/Flatrecs/Grows.antt =====
-- `flatrecs_make_offset_to_recno` where the chain of a table ends with a data block and has to grow.
use recnodb.Base.{ℕ, zero, suc, ◌+◌, ◌-◌, ◌*◌, ◌%◌, ◌^◌, ◌≤◌, ◌<◌, ◌≡◌, ◌≢◌, arith, le→ltb, ne→==}
use recnodb.Bytes.{Bytes, zeros}
use recnodb.Types.{success, live}
use recnodb.Stdio.{World, off_limit, Returns}
use recnodb.Stdio.Calm.{calm}
use recnodb.Blocks.Layout.{BlockLoc, block_type, next_offset, chunk_size, member}
use recnodb.Blocks.Validate.{head_size}
use recnodb.Blocks.Head.{get_next_block_head}
use recnodb.Blocks.Head.Transfer.{get_next_block_head-calm}
use recnodb.Blocks.Append.Block.{Ready}
use recnodb.Flatrecs.{
  full_recsize, get_record_capacity, find_block, extend_table, leave_block, make_offset_to_recno,
}
use recnodb.Flatrecs.Search.{newblock}
use recnodb.Flatrecs.Growth.{grown_by, Grew, Placed, run, enter-found}

-- Record `recno` is looked for from the block with head `b` at `o` on, whose first record is `start`;
-- `rounds` blocks further on the chain ends with the block at `z`, and its records end before `next`.
pub data Ends (f : Bytes) (htable : Bytes) (recno : ℕ) : ℕ → Bytes → ℕ → ℕ → ℕ → ℕ → Type 0 where
  last :
      {start : ℕ} {b : Bytes} {z : ℕ}
      → start + get_record_capacity htable b ≤ recno
      → member b 0 next_offset ≡ 0
      → Ends f htable recno start b z zero z (start + get_record_capacity htable b)
  onward :
      {start : ℕ} {b : Bytes} {o q rounds z next : ℕ}
      → start + get_record_capacity htable b ≤ recno
      → member b 0 next_offset ≡ q
      → q ≢ 0
      → q < off_limit
      → q + 32 ≤ f.size
      → Ends f htable recno (start + get_record_capacity htable b) (newblock f q) q rounds z next
      → Ends f htable recno start b o (suc rounds) z next

Ends-before :
    {f htable : Bytes} {recno start : ℕ} {b : Bytes} {o rounds z next : ℕ}
    → Ends f htable recno start b o rounds z next
    → next ≤ recno
Ends-before (last h e) = h
Ends-before (onward h e ne p i ends) = Ends-before ends

-- what is needed for the chain to grow at the block at `z`
pub record CanGrow (w : World) (htable : Bytes) (recno z next : ℕ) : Type 0 where
  pub ready : Ready w (grown_by w htable recno next)
  pub inside : z + 32 ≤ w.file.size
  pub free : member w.file z next_offset ≡ 0
  pub plain_head : head_size (member w.file z block_type) ≡ 32
  pub chunked : member w.handle.head_file 0 chunk_size ≢ 0
  pub room :
      (recno - next) * full_recsize htable + full_recsize htable + 32
      ≤ (grown_by w htable recno next).block_size

moved :
    (w : World) (htable : Bytes) (recno z next p t : ℕ)
    → p < off_limit
    → CanGrow w htable recno z next
    → CanGrow (record w { pos = p; tick = t }) htable recno z next
moved w htable recno z next p t h can = record {
  ready = record {
    valid = can.ready.valid;
    position = h;
    room = can.ready.room;
    aligned = can.ready.aligned;
    nonempty = can.ready.nonempty;
    narrow = can.ready.narrow;
  };
  inside = can.inside;
  free = can.free;
  plain_head = can.plain_head;
  chunked = can.chunked;
  room = can.room;
}

module _ (bloc : BlockLoc) (htable : Bytes) (recno : ℕ) (small : recno < 2 ^ 32)
    (pos : 0 < full_recsize htable) where
  find_block-Ends :
      (fuel : ℕ) (w : World) {start : ℕ} {b : Bytes} {o rounds z next : ℕ}
      → w.handle.stream ≡ live
      → Ends w.file htable recno start b o rounds z next
      → CanGrow w htable recno z next
      → rounds + 2 ≤ fuel
      → Returns
          (Placed bloc htable recno w z next)
          (find_block bloc htable recno fuel start b o (calm w))
  unfolding find_block leave_block extend_table get_next_block_head
  find_block-Ends zero w opened ends can enough = absurd (omega arith)
  find_block-Ends (suc zero) w opened ends can enough = absurd (omega arith)
  find_block-Ends (suc (suc fuel)) w opened (last {start} {b} {z} h e) can enough =
      let next = start + get_record_capacity htable b in
      let i : (recno + 2 ^ 32 - start) % 2 ^ 32 ≡ recno - start = omega arith in
      let n : next % 2 ^ 32 ≡ next = omega arith in
      rw
        (
          i,
          le→ltb (recno - start) (get_record_capacity htable b) (omega arith),
          e,
          n,
          ne→== (member w.handle.head_file 0 chunk_size) 0 can.chunked,
          run bloc htable recno small pos w z next can.ready can.inside can.free can.plain_head h
              can.room,
        )
        (enter-found bloc htable recno small pos w z next can.ready can.inside can.free
          can.plain_head h can.room fuel b)
  find_block-Ends (suc (suc fuel)) w opened
        (onward {start} {b} {o} {q} {rounds} {z} {next} h e ne positive inside ends) can enough =
      let i : (recno + 2 ^ 32 - start) % 2 ^ 32 ≡ recno - start = omega arith in
      let n : (start + get_record_capacity htable b) % 2 ^ 32
          ≡ start + get_record_capacity htable b =
        omega arith in
      rw
        (
          i,
          le→ltb (recno - start) (get_record_capacity htable b) (omega arith),
          get_next_block_head-calm w q positive b (zeros 32) o opened e ne inside,
          n,
        )
        (find_block-Ends (suc fuel) (record w { pos = q + 32; tick = w.tick + 1 + 1 }) opened ends
          (moved w htable recno z next (q + 32) (w.tick + 1 + 1) (omega (arith, can.ready.room))
            can)
          (omega arith))

  -- In a run without faults, with a valid handle, for a record behind the last block of a table's
  -- chain, which has a head of 32 bytes and no successor, a record's size and the chunk size not
  -- being zero, the file's end at a multiple of the chunk size, positions in the range of
  -- `off_t`, and the block that is asked for having room for the record: in two rounds more than
  -- there are blocks before the last one flatrecs_make_offset_to_recno succeeds. The chain has
  -- got that block at the old end of the file, with a fresh head, and no other byte of the file
  -- but those of the last link has changed. The offset is the record's distance from the head of
  -- the new block, counted from the table's head.
  pub make_offset_to_recno-grows :
      (fuel : ℕ) (w : World) {rounds z next : ℕ}
      → Ends w.file htable recno 1 htable bloc.offset rounds z next
      → CanGrow w htable recno z next
      → rounds + 2 ≤ fuel
      → Returns
          (λ (e, offset) w'.
            (e ≡ success)
            × (offset ≡ (bloc.offset + 32 + (recno - next) * full_recsize htable % 2 ^ 32) % 2 ^ 64)
            × Grew w z (grown_by w htable recno next) w'.file)
          (make_offset_to_recno bloc htable recno fuel (calm w))
  unfolding make_offset_to_recno
  make_offset_to_recno-grows fuel w ends can enough =
      find_block-Ends fuel w can.ready.valid.0 ends can enough
