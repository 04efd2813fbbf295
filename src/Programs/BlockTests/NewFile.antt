-- ===== src/Programs/BlockTests/NewFile.antt =====
-- The tests of src/test_blocks.c that create a file, in a run without faults.
use recnodb.Base.{
  ℕ, ◌+◌, ◌%◌, ◌^◌, ◌<◌, ◌≡◌, refl, ◌≢◌, ap, true, Option, none, some, arith, eq→==, [], ◌∷◌,
}
use recnodb.Bytes.{byte, num, zeros, write, little_endian}
use recnodb.Bytes.Laws.{size-write}
use recnodb.Types.{is_success}
use recnodb.Stdio.{World, Returns, returns, fclose, stat_size}
use recnodb.Stdio.Calm.{calm, IsCalm, fopen-calm}
use recnodb.Blocks.Layout.{BlockDef, rbt_file, rbt_generic}
use recnodb.Blocks.Validate.{validate_handle}
use recnodb.Blocks.Head.File.{IsFileHead, validate-IsFileHead}
use recnodb.Blocks.Append.NewHead.{IsPlain}
use recnodb.Blocks.Append.Extend.{IsValid, extend_file-at}
use recnodb.Blocks.Append.Block.{Ready, append_block-plain}
use recnodb.Blocks.Append.FileBlock.{IsFile, head_at, append_block-after, size-after, head-after}
use recnodb.Api.{get_blocksize}
use recnodb.Programs.{get_file_size}
use recnodb.Programs.BlockTests.{
  make_bogus_head_file, bogus_handle, newfile_def, plain_def, test_basic_block, test_generic_block,
  test_newfile_block, test_new_block,
}

get_blocksize-lt : (stat : Option ℕ) → get_blocksize stat < 2 ^ 32
unfolding get_blocksize
get_blocksize-lt none = omega arith
get_blocksize-lt (some n) = omega arith

bogus-IsFileHead :
    (stat : Option ℕ)
    → IsFileHead rbt_file 4096 (get_blocksize stat) 0 (make_bogus_head_file stat 4096 (zeros 72))
unfolding make_bogus_head_file num byte write little_endian
bogus-IsFileHead stat = record {
  type = refl;
  data_at = refl;
  block = refl;
  next = refl;
  record_size = refl;
  last = refl;
  signature = refl;
  chunk_size = omega (arith, get_blocksize-lt stat);
}

zero_mod : (n : ℕ) → 0 % n ≡ 0
zero_mod n = omega arith

module _ (stat : Option ℕ) (known : get_blocksize stat ≢ 0) where
  bogus-IsValid : IsValid (bogus_handle stat 4096)
  unfolding validate_handle
  bogus-IsValid = (
    refl,
    ap is_success (
        validate-IsFileHead (make_bogus_head_file stat 4096 (zeros 72)) (bogus-IsFileHead stat)
          (omega arith) (omega arith) known),
  )

  -- the state of these tests when the file is open
  new_file : World → World
  new_file w = record w {
    file = zeros 0;
    pos = 0;
    tick = w.tick + 1;
    handle = bogus_handle stat 4096;
  }

  new_file-Ready : (w : World) (d : BlockDef) → d.block_size ≡ 4096 → Ready (new_file w) d
  unfolding new_file
  new_file-Ready w d size = record {
    valid = bogus-IsValid;
    position = omega arith;
    room = omega (arith, size);
    aligned = zero_mod _;
    nonempty = omega (arith, size);
    narrow = omega (arith, size);
  }

  -- text
  pub test_newfile_block-creates :
      (w : World)
      → Returns
          (λ b w'.
            (b ≡ true)
            × (w'.file.size ≡ 4096)
            × IsFileHead rbt_file 4096 4096 49 (head_at w'.file 0)
            × IsCalm w')
          (test_newfile_block stat (calm w))
  unfolding test_newfile_block test_new_block new_file fclose
  test_newfile_block-creates w =
      let ready = new_file-Ready w newfile_def refl in
      let file : IsFile newfile_def = record {
        file = refl;
        roomy = omega arith;
        chunked = omega arith;
        narrow_chunk = omega arith;
        narrow_rec = omega arith;
      } in
      rw (fopen-calm w true, append_block-after (new_file w) newfile_def ready file)
        (returns (
          refl,
          size-after (new_file w) newfile_def ready file,
          head-after (new_file w) newfile_def ready file,
          refl,
        ))

  generic-IsPlain : IsPlain (plain_def rbt_generic 4096)
  generic-IsPlain = record {
    narrow_type = omega arith;
    not_table = omega arith;
    not_file = omega arith;
  }

  pub test_generic_block-succeeds :
      (w : World) → Returns (λ b w'. (b ≡ true) × IsCalm w') (test_generic_block stat (calm w))
  unfolding test_generic_block test_new_block new_file fclose
  test_generic_block-succeeds w =
      rw
        (
          fopen-calm w true,
          append_block-plain (new_file w) (plain_def rbt_generic 4096)
              (new_file-Ready w (plain_def rbt_generic 4096) refl) generic-IsPlain,
        )
        (returns (refl, refl))

  pub test_basic_block-succeeds :
      (w : World) → Returns (λ b w'. (b ≡ true) × IsCalm w') (test_basic_block stat 4096 (calm w))
  unfolding test_basic_block get_file_size stat_size new_file fclose
  test_basic_block-succeeds w =
      rw
        (
          fopen-calm w true,
          extend_file-at (new_file w) bogus-IsValid (omega arith) 4096 4095 (zero_mod _)
              (omega arith) (omega arith),
        )
        (returns (eq→== _ 4096 (omega (arith, size-write (zeros 0) 4095 (0 ∷ []))), refl))
