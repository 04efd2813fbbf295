-- ===== src/Blocks/Head.antt =====
-- Reading, writing and preparing block headers (src/blocks.c).
pub mod Fields
pub mod Transfer
pub mod Prepare
pub mod Members
pub mod FileHead
pub mod File
pub mod Faults
use recnodb.Base.{
  ℕ, ◌+◌, ◌%◌, ◌^◌, Bool, true, false, not, Option, none, some, List, ltb, leb, ◌==◌, if◌then◌else◌,
}
use recnodb.Bytes.{Bytes, zeros, read, write}
use recnodb.Types.{Error, success, system_error, reached_end_of_block_chain}
use recnodb.Stdio.{
  World, Cmd, pure, ◌>>=◌, ◌>>◌, or_else, assert, within, fseek_set, fread, fwrite, get, use_file,
  save_errno,
}
use recnodb.Blocks.Layout.{
  BlockDef, Field, block_type, bytes_to_data, block_size, next_offset, rec_size, magic, chunk_size,
  rbt_table, sizeof_info_block, sizeof_info_table, sizeof_head_file, magic_bytes, member,
  with_member,
}
use recnodb.Blocks.Validate.{head_size}

-- `!fread(object, n, 1, f)` behind `fseek(f, offset, SEEK_SET) ||`
unfoldable pub seek_and_read : ℕ → ℕ → Cmd (Option (List ℕ))
seek_and_read offset n = do bad ← fseek_set offset; if bad then pure none else fread n

-- What has been read goes to the start of `object`; if nothing has, `errno` is kept.
receive : Bytes → Option (List ℕ) → Cmd (Error × Bytes)
receive object none = do save_errno; pure (system_error, object)
receive object (some xs) = pure (success, write object 0 xs)

-- blocks_read_block_head, with the new contents of `*block`
unfoldable pub read_block_head : ℕ → Bytes → ℕ → Cmd (Error × Bytes)
unfolding receive
read_block_head offset block info_len = do
  use_file
  let bytes_to_read = if ltb info_len sizeof_info_block then info_len else sizeof_info_block
  xs ← seek_and_read offset bytes_to_read
  receive block xs

-- blocks_get_next_block_head, with the new contents of `*nextblock` and of `*nextblock_offset`
unfoldable pub get_next_block_head : Bytes → Bytes → ℕ → Cmd (Error × Bytes × ℕ)
get_next_block_head block nextblock nextblock_offset =
    let offset = member block 0 next_offset in
    if offset == 0 then pure (reached_end_of_block_chain, nextblock, nextblock_offset) else do
      use_file
      xs ← seek_and_read offset sizeof_info_block
      λ w. elim xs [
        | none ↦ (save_errno >> pure (system_error, nextblock, nextblock_offset)) w
        | some ys ↦ pure (success, write nextblock 0 ys, offset) w
      ]

-- `fseek(f, offset, SEEK_SET) || !fwrite(object, len, 1, f)`
unfoldable pub seek_and_write : ℕ → Bytes → ℕ → Cmd Bool
seek_and_write offset object len =
    or_else (fseek_set offset)
      (do within (leb len object.size); done ← fwrite (read object 0 len); pure (not done))

-- blocks_write_block_head
unfoldable pub write_block_head : ℕ → Bytes → ℕ → Cmd Error
write_block_head offset block info_len = do
  use_file
  let own = head_size (member block 0 block_type)
  failed ← seek_and_write offset block (if ltb own info_len then info_len else own)
  if failed then save_errno >> pure system_error else pure success

-- `object->f = x`
unfoldable pub put : Field → ℕ → Bytes → Cmd Bytes
put f x object = do within (leb (f.at + f.width) object.size); pure (with_member object 0 f x)

-- the part of blocks_set_info_block for INFO_FILE
set_file_members : ℕ → ℕ → Bytes → Cmd Bytes
set_file_members own chunk ib =
    if ltb sizeof_info_table own
    then (do assert (not (chunk == 0)); ib ← put chunk_size chunk ib; put magic magic_bytes ib)
    else pure ib

-- the part of blocks_set_info_block for INFO_TABLE
pub set_table_members : ℕ → ℕ → ℕ → Bytes → Cmd Bytes
unfolding set_file_members
set_table_members own rec chunk ib =
    if ltb sizeof_info_block own
    then (do ib ← put rec_size rec ib; set_file_members own chunk ib)
    else pure ib

-- blocks_set_info_block, with the new contents of `*ib`
unfoldable pub set_info_block : Bytes → ℕ → ℕ → ℕ → ℕ → ℕ → Cmd Bytes
unfolding set_table_members
set_info_block ib block_head_size type size rec chunk = do
  within (leb block_head_size ib.size)
  let cleared = write ib 0 (read (zeros block_head_size) 0 block_head_size)
  let own = head_size (type % 2 ^ 16)
  assert (leb own block_head_size)
  ib ← put block_type type cleared
  ib ← put bytes_to_data own ib
  ib ← put block_size size ib
  set_table_members own rec chunk ib

-- blocks_set_info_block_struct
unfoldable pub set_info_block_struct : Bytes → ℕ → BlockDef → Cmd Bytes
unfolding set_info_block
set_info_block_struct ib block_head_size d =
    set_info_block ib block_head_size d.block_type d.block_size d.rec_size d.chunk_size

-- blocks_prep_head_file, with the new contents of `*hf`
unfoldable pub prep_head_file : ℕ → ℕ → ℕ → Cmd Bytes
prep_head_file size chunk rec = do
  assert (ltb 0 chunk)
  hf ← put block_type rbt_table (zeros sizeof_head_file)
  hf ← put block_size size hf
  hf ← put bytes_to_data sizeof_head_file hf
  hf ← put rec_size rec hf
  hf ← put magic magic_bytes hf
  put chunk_size chunk hf
