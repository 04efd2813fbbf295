-- ===== src/Tests/Forward.antt =====
-- A test of files in which every successor lies behind its block.
use recnodb.Base.{◌%◌, ◌≡◌, refl, arith}
use recnodb.Bytes.{byte, num}
use recnodb.Types.{success}
use recnodb.Stdio.{Returns}
use recnodb.Stdio.Calm.{calm}
use recnodb.Blocks.Validate.{handle_chunk_size, head_file_chunk_size}
use recnodb.Blocks.Append.{extend_chain}
use recnodb.Chains.Forward.{Forward}
use recnodb.Chains.Forward.Kept.{extend_chain-Forward}
use recnodb.Tests.Data.{double}
use recnodb.Tests.Blocks.{data_block, data_block-IsPlain, double-Ready}
use recnodb.Tests.Databases.{double-Forward, at_128, free_128}

extend_chain-Forward_example :
    Returns
      (λ (e, _) w'. (e ≡ success) × Forward 128 w'.file × (w'.file.size % 128 ≡ 0))
      (extend_chain 128 data_block (calm double))
unfolding handle_chunk_size head_file_chunk_size byte num
extend_chain-Forward_example =
    extend_chain-Forward double data_block double-Ready data_block-IsPlain 128 (omega arith)
      (omega arith) free_128 at_128 (omega arith) refl (omega arith) refl double-Forward
