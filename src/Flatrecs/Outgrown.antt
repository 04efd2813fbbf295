-- ===== src/Flatrecs/Outgrown.antt =====
-- `flatrecs_make_offset_to_recno` where a table without further blocks has to grow.
use recnodb.Base.{ℕ, suc, ◌+◌, ◌-◌, ◌%◌, ◌^◌, ◌≤◌, ◌<◌, ◌≡◌, ◌≢◌, arith, le→ltb, ne→==}
use recnodb.Bytes.{Bytes}
use recnodb.Stdio.{World, undefined}
use recnodb.Stdio.Calm.{calm}
use recnodb.Blocks.Layout.{BlockLoc, BlockDef, block_type, next_offset, chunk_size, member}
use recnodb.Blocks.Validate.{head_size}
use recnodb.Blocks.Head.{get_next_block_head}
use recnodb.Blocks.Append.Block.{Ready}
use recnodb.Blocks.Append.NewHead.{IsPlain}
use recnodb.Blocks.Append.Chain.{extend_chain-table}
use recnodb.Flatrecs.{
  full_recsize, get_record_capacity, new_data_block, find_block, extend_table, leave_block,
  make_offset_to_recno,
}

-- the block that is asked for when record `recno` does not fit the table's own block
abbrev pub second_block : World → Bytes → ℕ → BlockDef
second_block w htable recno =
    new_data_block (full_recsize htable) recno ((1 + get_record_capacity htable htable) % 2 ^ 32)
      (member w.handle.head_file 0 chunk_size)

second_block-IsPlain :
    (w : World) (htable : Bytes) (recno : ℕ) → IsPlain (second_block w htable recno)
unfolding new_data_block
second_block-IsPlain w htable recno = record {
  narrow_type = omega arith;
  not_table = omega arith;
  not_file = omega arith;
}

-- In a run without faults, with a valid handle, positions in the range of `off_t` and the file's
-- end at a multiple of the chunk size, a table whose head is of type RBT_TABLE or RBT_FILE and
-- has no successor cannot grow: for a record that its own block has no room for, the run of
-- flatrecs_make_offset_to_recno is undefined, since blocks_extend_chain writes more bytes than
-- its buffer has.
pub make_offset_to_recno-outgrown :
    (bloc : BlockLoc) (htable : Bytes) (recno rounds : ℕ) (w : World)
    → recno < 2 ^ 32
    → 1 + get_record_capacity htable htable ≤ recno
    → member htable 0 next_offset ≡ 0
    → member w.file bloc.offset next_offset ≡ 0
    → 32 < head_size (member w.file bloc.offset block_type)
    → bloc.offset + 64 ≤ w.file.size
    → member w.handle.head_file 0 chunk_size ≢ 0
    → Ready w (second_block w htable recno)
    → make_offset_to_recno bloc htable recno (suc rounds) (calm w) ≡ undefined
unfolding make_offset_to_recno find_block leave_block extend_table get_next_block_head
make_offset_to_recno-outgrown bloc htable recno rounds w small outside last free big inside chunk
      ready =
    let i : (recno + 2 ^ 32 - 1) % 2 ^ 32 ≡ recno - 1 = omega arith in
    rw (
      i,
      le→ltb (recno - 1) (get_record_capacity htable htable) (omega arith),
      last,
      ne→== _ 0 chunk,
      extend_chain-table w (second_block w htable recno) ready (second_block-IsPlain w htable recno)
          bloc.offset (omega arith) (omega arith) free big,
    )
