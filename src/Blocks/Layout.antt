-- ===== src/Blocks/Layout.antt =====
-- The structs of src/blocks.h as bytes: where each member lies, and the constants of BTYPE.
use recnodb.Base.{ℕ, ◌+◌}
use recnodb.Bytes.{Bytes, num, write, little_endian}

-- BTYPE
abbrev pub rbt_generic : ℕ
rbt_generic = 1

abbrev pub rbt_data : ℕ
rbt_data = 2

abbrev pub rbt_table : ℕ
rbt_table = 3

abbrev pub rbt_file : ℕ
rbt_file = 4

-- BLOCK_LOC
pub record BlockLoc : Type 0 where
  pub offset : ℕ
  pub size : ℕ

-- A member of a struct: its offset and its width in bytes.
pub record Field : Type 0 where
  pub at : ℕ
  pub width : ℕ

-- INFO_BLOCK
abbrev pub block_type : Field
block_type = record { at = 0; width = 2 }

abbrev pub bytes_to_data : Field
bytes_to_data = record { at = 2; width = 2 }

abbrev pub block_size : Field
block_size = record { at = 4; width = 4 }

abbrev pub first_recno : Field
first_recno = record { at = 8; width = 8 }

abbrev pub next_offset : Field
next_offset = record { at = 16; width = 8 }

abbrev pub next_size : Field
next_size = record { at = 24; width = 8 }

-- INFO_CHAIN, INFO_TABLE and INFO_FILE within RND_HEAD_FILE
abbrev pub chain_offset : Field
chain_offset = record { at = 32; width = 8 }

abbrev pub block_penultimate : Field
block_penultimate = record { at = 40; width = 8 }

abbrev pub block_last : Field
block_last = record { at = 48; width = 8 }

abbrev pub rec_size : Field
rec_size = record { at = 56; width = 4 }

abbrev pub last_recno : Field
last_recno = record { at = 60; width = 4 }

abbrev pub magic : Field
magic = record { at = 64; width = 4 }

abbrev pub chunk_size : Field
chunk_size = record { at = 68; width = 4 }

-- `sizeof` of INFO_BLOCK, INFO_TABLE, RND_HEAD_TABLE and RND_HEAD_FILE
abbrev pub sizeof_info_block : ℕ
sizeof_info_block = 32

abbrev pub sizeof_info_table : ℕ
sizeof_info_table = 8

abbrev pub sizeof_head_table : ℕ
sizeof_head_table = 64

abbrev pub sizeof_head_file : ℕ
sizeof_head_file = 72

-- the bytes "RNDB" as one number
abbrev pub magic_bytes : ℕ
magic_bytes = 0x42444e52

-- the member `f` of the struct at position `p`
abbrev pub member : Bytes → ℕ → Field → ℕ
member b p f = num b (p + f.at) f.width

-- the object at position `p`, after `->f = x`
abbrev pub with_member : Bytes → ℕ → Field → ℕ → Bytes
with_member b p f x = write b (p + f.at) (little_endian f.width x)

-- RND_BLOCK_DEF; `new_block` is its [out] member.
pub record BlockDef : Type 0 where
  pub block_type : ℕ
  pub block_size : ℕ
  pub rec_size : ℕ
  pub chunk_size : ℕ
  pub new_block : BlockLoc

-- INFO_BLOCK as values
pub record InfoBlock : Type 0 where
  pub block_type : ℕ
  pub bytes_to_data : ℕ
  pub block_size : ℕ
  pub first_recno : ℕ
  pub next_block : BlockLoc

-- the INFO_BLOCK that stands at position `p`
unfoldable pub info_at : Bytes → ℕ → InfoBlock
info_at b p = record {
  block_type = member b p block_type;
  bytes_to_data = member b p bytes_to_data;
  block_size = member b p block_size;
  first_recno = member b p first_recno;
  next_block = record { offset = member b p next_offset; size = member b p next_size };
}
