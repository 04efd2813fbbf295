-- ===== src/Blocks/Append/NewHead.antt =====
-- The head that `blocks_append_block` gives a block that is neither a table nor a file.
use recnodb.Base.{◌%◌, ◌^◌, ◌<◌, ◌≡◌, ◌≢◌, ap, ◌∙◌, arith}
use recnodb.Bytes.{Bytes, zeros}
use recnodb.Stdio.{World, ok}
use recnodb.Blocks.Layout.{BlockDef, InfoBlock, rbt_table, rbt_file, block_type, member}
use recnodb.Blocks.Validate.{head_size}
use recnodb.Blocks.Head.{set_info_block_struct}
use recnodb.Blocks.Head.Prepare.{
  base_head, size-base_head, block_type-base_head, head_size-other, set_info_block-plain,
}

-- the head that a new block of `d` gets, neither a table nor a file
abbrev pub new_head : BlockDef → Bytes
new_head d = base_head (zeros 32) 32 32 d.block_type d.block_size

-- the same as values
abbrev pub fresh_info : BlockDef → InfoBlock
fresh_info d = record {
  block_type = d.block_type;
  bytes_to_data = 32;
  block_size = d.block_size;
  first_recno = 0;
  next_block = record { offset = 0; size = 0 };
}

-- the new block is neither a table nor a file
pub record IsPlain (d : BlockDef) : Type 0 where
  pub narrow_type : d.block_type < 2 ^ 16
  pub not_table : d.block_type ≢ rbt_table
  pub not_file : d.block_type ≢ rbt_file

module _ (d : BlockDef) (plain : IsPlain d) where
  open plain use {narrow_type, not_table, not_file}

  pub plain_type : d.block_type % 2 ^ 16 ≡ d.block_type
  plain_type = omega arith

  pub head_size-new_head : head_size (member (new_head d) 0 block_type) ≡ 32
  head_size-new_head =
      ap head_size (
        block_type-base_head (zeros 32) 32 (omega arith) (omega arith) 32 d.block_type d.block_size
          narrow_type)
      ∙ head_size-other d.block_type not_table not_file

  pub size-new_head : (new_head d).size ≡ 32
  size-new_head =
      size-base_head (zeros 32) 32 (omega arith) (omega arith) 32 d.block_type d.block_size

  pub new_head-plain : (v : World) → set_info_block_struct (zeros 32) 32 d v ≡ ok (new_head d) v
  unfolding set_info_block_struct
  new_head-plain v =
      set_info_block-plain (zeros 32) 32 d.block_type d.block_size d.rec_size d.chunk_size v
        (omega arith) (omega arith) (rw plain_type not_table) (rw plain_type not_file)
