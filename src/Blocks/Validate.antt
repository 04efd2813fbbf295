-- ===== src/Blocks/Validate.antt =====
-- The checks of src/blocks.c on headers, handles and block locations, and its plain calculations.
use recnodb.Base.{
  ℕ, ◌+◌, ◌-◌, ◌%◌, ◌^◌, Bool, not, ◌||◌, Option, none, some, ltb, ◌==◌, if◌then◌else◌,
}
use recnodb.Bytes.{Bytes}
use recnodb.Types.{Error, success, bad_parameter, file_not_open, invalid_head_file, Handle, is_set}
use recnodb.Stdio.{off_limit}
use recnodb.Blocks.Layout.{
  rbt_table, rbt_file, block_type, bytes_to_data, block_size, magic, chunk_size, sizeof_info_block,
  sizeof_head_table, sizeof_head_file, magic_bytes, member,
}

-- blocks_validate_head_file; `none` is NULL.
unfoldable pub validate_head_file : Option Bytes → Error
validate_head_file none = bad_parameter
validate_head_file (some h) =
    if (member h 0 chunk_size == 0)
      || not (member h 0 magic == magic_bytes)
      || (member h 0 block_type == 0)
      || (member h 0 bytes_to_data == 0)
      || (member h 0 block_size == 0)
    then invalid_head_file
    else success

-- blocks_validate_handle; `none` is NULL.
unfoldable pub validate_handle : Option Handle → Error
unfolding validate_head_file
validate_handle none = bad_parameter
validate_handle (some h) =
    if not (is_set h.stream) then file_not_open else validate_head_file (some h.head_file)

-- blocks_head_file_chunk_size
unfoldable pub head_file_chunk_size : Bytes → ℕ
head_file_chunk_size hf = member hf 0 chunk_size

-- blocks_handle_chunk_size; `none` is NULL.
unfoldable pub handle_chunk_size : Option Handle → ℕ
unfolding head_file_chunk_size
handle_chunk_size none = 4096
handle_chunk_size (some h) = head_file_chunk_size h.head_file

-- the magnitude of the signed number with the pattern `x`
abbrev pub magnitude : ℕ → ℕ
magnitude x = if ltb x off_limit then x else 2 ^ 64 - x

-- blocks_validate_new_block_location: the signed remainder is zero where that of the magnitude is.
unfoldable pub validate_new_block_location : Option Handle → ℕ → Bool
unfolding handle_chunk_size
validate_new_block_location h location = magnitude location % handle_chunk_size h == 0

-- blocks_bytes_to_data
unfoldable pub head_size : ℕ → ℕ
head_size t =
    if t == rbt_table
    then sizeof_head_table
    else if t == rbt_file
    then sizeof_head_file
    else sizeof_info_block

-- blocks_block_payload_size, on uint32_t
unfoldable pub block_payload_size : Bytes → ℕ
block_payload_size b = (member b 0 block_size + 2 ^ 32 - member b 0 bytes_to_data) % 2 ^ 32
