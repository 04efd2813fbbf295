-- ===== src/Tests/Blocks.antt =====
-- Tests of src/blocks.c: the file grows by blocks.
use recnodb.Base.{ℕ, ◌%◌, ◌≤◌, ◌<◌, ◌≡◌, refl, ◌⊎◌, arith}
use recnodb.Bytes.{byte, num, Agree}
use recnodb.Types.{success, live}
use recnodb.Stdio.{Returns, undefined}
use recnodb.Stdio.Calm.{calm}
use recnodb.Blocks.Layout.{BlockDef, rbt_data, rbt_table, info_at}
use recnodb.Blocks.Validate.{
  validate_handle, validate_head_file, handle_chunk_size, head_file_chunk_size, head_size,
}
use recnodb.Blocks.Append.{append_block, extend_chain}
use recnodb.Blocks.Append.Extend.{IsValid, primed, chunk_of}
use recnodb.Blocks.Append.Block.{Ready, placed, append_block-success, append_block-table}
use recnodb.Blocks.Append.NewHead.{IsPlain, fresh_info}
use recnodb.Blocks.Append.Link.{linked}
use recnodb.Blocks.Append.Chain.{extend_chain-links}
use recnodb.Blocks.Append.Keeps.{Kept, Answer, append_block-keeps}
use recnodb.Blocks.Append.ChainKeeps.{KeptOutside, ChainAnswer, extend_chain-keeps}
use recnodb.Tests.Data.{head_lost, open_handle, double}

pub open_handle-IsValid : IsValid open_handle
unfolding validate_handle validate_head_file byte num
open_handle-IsValid = (refl, refl)

-- a data block of a chunk
abbrev pub data_block : BlockDef
data_block = record {
  block_type = rbt_data;
  block_size = 128;
  rec_size = 0;
  chunk_size = 0;
  new_block = record { offset = 0; size = 0 };
}

pub data_block-IsPlain : IsPlain data_block
data_block-IsPlain = record {
  narrow_type = omega arith;
  not_table = omega arith;
  not_file = omega arith;
}

pub double-Ready : Ready double data_block
unfolding handle_chunk_size head_file_chunk_size byte num
double-Ready = record {
  valid = open_handle-IsValid;
  position = omega arith;
  room = omega arith;
  aligned = refl;
  nonempty = omega arith;
  narrow = omega arith;
}

append_block-success_example :
    Returns
      (λ (e, d') w'.
        (e ≡ success)
        × (d' ≡ placed double data_block)
        × (w'.file.size ≡ 384)
        × Agree w'.file 0 double.file 0 256
        × (info_at w'.file 256 ≡ fresh_info data_block)
        × ((i : ℕ) → 288 ≤ i → i < 384 → byte w'.file i ≡ 0)
        × (128 % chunk_of open_handle ≡ 0 → w'.file.size % chunk_of open_handle ≡ 0)
        × (w'.pos ≡ 0)
        × (w'.handle ≡ primed double.handle))
      (append_block data_block (calm double))
append_block-success_example =
    append_block-success double data_block double-Ready data_block-IsPlain (omega arith)

abbrev table_block : BlockDef
table_block = record data_block { block_type = rbt_table; rec_size = 7; chunk_size = 128 }

double-Ready_table : Ready double table_block
unfolding handle_chunk_size head_file_chunk_size byte num
double-Ready_table = record {
  valid = open_handle-IsValid;
  position = omega arith;
  room = omega arith;
  aligned = refl;
  nonempty = omega arith;
  narrow = omega arith;
}

append_block-table_example : append_block table_block (calm double) ≡ undefined
append_block-table_example = append_block-table double table_block double-Ready_table refl

extend_chain-links_example :
    Returns
      (λ (e, d') w'.
        (e ≡ success)
        × (d' ≡ placed double data_block)
        × (w'.file.size ≡ 384)
        × (info_at w'.file 128
            ≡ linked (info_at double.file 128) (record { offset = 256; size = 128 }))
        × (info_at w'.file 256 ≡ fresh_info data_block)
        × ((i : ℕ) → i < 256 → (i < 128) ⊎ (160 ≤ i) → byte w'.file i ≡ byte double.file i))
      (extend_chain 128 data_block (calm double))
unfolding num byte head_size
extend_chain-links_example =
    extend_chain-links double data_block double-Ready data_block-IsPlain 128 (omega arith)
      (omega arith) refl refl (omega arith)

-- the `fwrite` of the head stops after 20 bytes
append_block-keeps_example :
    Returns
      (λ r w'. Kept double.file w'.file × Answer data_block 256 r × (w'.handle.stream ≡ live))
      (append_block data_block (record double { faults = head_lost }))
append_block-keeps_example =
    append_block-keeps data_block (record double { faults = head_lost }) data_block-IsPlain
      open_handle-IsValid (omega arith) (omega arith)

extend_chain-keeps_example :
    Returns
      (λ (e, d') w'. KeptOutside 128 double.file w'.file × ChainAnswer e)
      (extend_chain 128 data_block (record double { faults = head_lost }))
unfolding num byte head_size
extend_chain-keeps_example =
    extend_chain-keeps 128 data_block (record double { faults = head_lost }) data_block-IsPlain
      open_handle-IsValid (omega arith) (omega arith) (omega arith) (omega arith) refl
