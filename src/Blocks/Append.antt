-- ===== src/Blocks/Append.antt =====
-- Adding blocks at the end of the file (src/blocks.c), and `prime_handle` of src/extra.c.
pub mod Extend
pub mod Safe
pub mod NewHead
pub mod Block
pub mod FileBlock
pub mod Keeps
pub mod Link
pub mod ChainStart
pub mod Chain
pub mod ChainKeeps
use recnodb.Base.{ℕ, ◌+◌, ◌-◌, ◌%◌, ◌^◌, Bool, true, false, not, some, [], ◌∷◌, ◌==◌, if◌then◌else◌}
use recnodb.Bytes.{Bytes, zeros}
use recnodb.Types.{
  Error, success, system_error, attempt_to_orphan_block, invalid_block_location, is_success,
}
use recnodb.Stdio.{
  Cmd, ok, pure, ◌>>=◌, ◌>>◌, or_else, assert, minus_one, fseek_set, fseek_end, ftell, fwrite, get,
  save_errno, use_file,
}
use recnodb.Blocks.Layout.{BlockLoc, BlockDef, next_offset, next_size, member, with_member}
use recnodb.Blocks.Validate.{validate_handle, validate_new_block_location, head_size}
use recnodb.Blocks.Head.{read_block_head, write_block_head, set_info_block_struct}

-- prime_handle
unfoldable pub prime_handle : Cmd (Unit {0})
prime_handle w = ok tt (record w { handle = record w.handle { sys_errno = 0 } })

-- `assert(blocks_validate_handle(handle) == RND_SUCCESS)`
abbrev pub assert_valid : Cmd (Unit {0})
assert_valid w = assert (is_success (validate_handle (some w.handle))) w

-- `handle->sys_errno = errno; rval = RND_SYSTEM_ERROR`
abbrev pub system_failure : Cmd Error
system_failure = save_errno >> pure system_error

-- the end of blocks_extend_file, from the file's end at `location` on
write_end : ℕ → ℕ → Cmd Error
write_end bytes_to_add location = do
  failed ←
      or_else (fseek_end ((bytes_to_add + 2 ^ 64 - 1) % 2 ^ 64))
        (or_else (do done ← fwrite (0 ∷ []); pure (not done)) (fseek_set location))
  if failed then system_failure else pure success

extend_from : ℕ → ℕ → Cmd Error
unfolding write_end
extend_from bytes_to_add location = do
  w ← get
  if validate_new_block_location (some w.handle) location
      then write_end bytes_to_add location
      else pure invalid_block_location

-- blocks_extend_file
unfoldable pub extend_file : ℕ → Cmd Error
unfolding extend_from prime_handle
extend_file bytes_to_add = do
  assert_valid
  prime_handle
  use_file
  bad ← fseek_end 0
  if bad then system_failure else ftell >>= extend_from bytes_to_add

-- Where the stream stood, where the file ends, and whether the three calls for these failed.
save_positions : Cmd (Bool × ℕ × ℕ)
save_positions = do
  original ← ftell
  if original == minus_one then pure (true, original, 0) else do
    bad ← fseek_end 0
    if bad then pure (true, original, 0) else do end ← ftell; pure (end == minus_one, original, end)

-- `restore_file_position`
pub restore : ℕ → Error × BlockDef → Cmd (Error × BlockDef)
restore original r = fseek_set original >> pure r

-- the block head of `d` goes to the file at `location`
pub write_new_head : ℕ → BlockDef → Cmd (Error × BlockDef)
write_new_head location d = do
  let head = head_size (d.block_type % 2 ^ 16)
  blockbuff ← set_info_block_struct (zeros head) head d
  e ← write_block_head location blockbuff head
  pure (
    e,
    if is_success e
        then record d { new_block = record { offset = location; size = d.block_size } }
        else d,
  )

append_at : ℕ → BlockDef → Cmd (Error × BlockDef)
unfolding write_new_head
append_at location d = do
  e ← extend_file d.block_size
  if is_success e then write_new_head location d else pure (e, d)

append_from : Bool × ℕ × ℕ → BlockDef → Cmd (Error × BlockDef)
unfolding append_at restore
append_from (true, original, _) d = do
  e ← system_failure
  if original == 0 then pure (e, d) else restore original (e, d)
append_from (false, original, location) d = append_at location d >>= restore original

-- blocks_append_block, with the new contents of `*bdef`
unfoldable pub append_block : BlockDef → Cmd (Error × BlockDef)
unfolding append_from save_positions prime_handle
append_block d = do assert_valid; prime_handle; use_file; s ← save_positions; append_from s d

-- blocks_block_points_to_child_test
unfoldable pub block_points_to_child_test : Bytes → Bool
block_points_to_child_test ib = not (member ib 0 next_offset == 0)

-- blocks_update_link_with_child: the two members of BLOCK_LOC are stored as they stand.
unfoldable pub update_link_with_child : Bytes → BlockLoc → Bytes
update_link_with_child ib new_block =
    with_member (with_member ib 0 next_offset new_block.offset) 0 next_size new_block.size

-- the end of blocks_extend_chain, with the head of the link at `chain_end` in `ib`
pub link_to : ℕ → BlockDef → ℕ → Error × Bytes → Cmd Error
unfolding block_points_to_child_test update_link_with_child
link_to chain_end d head (e, ib) =
    if not (is_success e)
    then pure e
    else if block_points_to_child_test ib
    then pure attempt_to_orphan_block
    else write_block_head chain_end (update_link_with_child ib d.new_block) head

link_after : ℕ → Error × BlockDef → Cmd (Error × BlockDef)
unfolding link_to
link_after chain_end (e, d) = if not (is_success e) then pure (e, d) else do
  let head = head_size (d.block_type % 2 ^ 16)
  blockbuff ← set_info_block_struct (zeros head) head d
  r ← read_block_head chain_end blockbuff head
  e ← link_to chain_end d head r
  pure (e, d)

-- blocks_extend_chain, with the new contents of `*bdef`
unfoldable pub extend_chain : ℕ → BlockDef → Cmd (Error × BlockDef)
unfolding link_after prime_handle
extend_chain chain_end d = do prime_handle; r ← append_block d; link_after chain_end r
