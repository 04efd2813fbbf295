-- ===== src/Blocks/Append/FileBlock.antt =====
-- `blocks_append_block` of the head of a file, in a run without faults.
use recnodb.Base.{ℕ, ◌+◌, ◌-◌, ◌%◌, ◌^◌, ◌≤◌, ◌<◌, ◌≡◌, refl, ◌≢◌, ◌∙◌, [], ◌∷◌, arith}
use recnodb.Bytes.{Bytes, zeros, read, write, Agree}
use recnodb.Bytes.Laws.{Agree-copy, Agree-trans, Agree-write_before, size-write}
use recnodb.Types.{success}
use recnodb.Stdio.{World, ok, Returns, returns}
use recnodb.Stdio.Calm.{calm, fseek_set-calm}
use recnodb.Blocks.Layout.{BlockDef, rbt_file, block_type, member}
use recnodb.Blocks.Validate.{head_size}
use recnodb.Blocks.Head.{set_info_block_struct}
use recnodb.Blocks.Head.Fields.{size-copy}
use recnodb.Blocks.Head.File.{IsFileHead, IsFileHead-Agree}
use recnodb.Blocks.Head.Members.{file_head, set_info_block-file}
use recnodb.Blocks.Head.FileHead.{members-IsFileHead, size-file_head}
use recnodb.Blocks.Head.Transfer.{write_block_head-calm}
use recnodb.Blocks.Append.{append_block, write_new_head, restore}
use recnodb.Blocks.Append.Extend.{primed}
use recnodb.Blocks.Append.Block.{Ready, grown, placed, append_block-head}

-- the new block is the head of a file
pub record IsFile (d : BlockDef) : Type 0 where
  pub file : d.block_type ≡ rbt_file
  pub roomy : 72 ≤ d.block_size
  pub chunked : d.chunk_size ≢ 0
  pub narrow_chunk : d.chunk_size < 2 ^ 32
  pub narrow_rec : d.rec_size < 2 ^ 32

-- the head of a file that `d` describes
abbrev made : BlockDef → Bytes
made d = file_head (zeros 72) 72 72 rbt_file d.block_size d.rec_size d.chunk_size

-- the head at `p`, as it is read back
abbrev pub head_at : Bytes → ℕ → Bytes
head_at f p = write (zeros 72) 0 (read f p 72)

module _ (w : World) (d : BlockDef) (ready : Ready w d) (is_file : IsFile d) where
  open ready use {position, room, narrow}
  open is_file use {file, roomy, chunked, narrow_chunk, narrow_rec}

  made-IsFileHead : IsFileHead rbt_file d.block_size d.chunk_size d.rec_size (made d)
  made-IsFileHead =
      members-IsFileHead (zeros 72) 72 d.block_size d.rec_size d.chunk_size (omega arith)
        (omega arith) narrow narrow_chunk narrow_rec

  size-made : (made d).size ≡ 72
  size-made =
      size-file_head (zeros 72) 72 d.block_size d.rec_size d.chunk_size (omega arith) (omega arith)

  head_size-made : head_size (member (made d) 0 block_type) ≡ 72
  unfolding head_size
  head_size-made = rw made-IsFileHead.type

  set_info_block_struct-made : (v : World) → set_info_block_struct (zeros 72) 72 d v ≡ ok (made d) v
  unfolding set_info_block_struct
  set_info_block_struct-made v = rw file (
      set_info_block-file (zeros 72) 72 d.block_size d.rec_size d.chunk_size v (omega arith)
        (omega arith) chunked)

  head_size-file : head_size (d.block_type % 2 ^ 16) ≡ 72
  unfolding head_size
  head_size-file = rw file

  -- the state after it
  pub after : World
  after = record (grown w d.block_size) {
    file = write (grown w d.block_size).file w.file.size (read (made d) 0 72);
    pos = w.pos;
    tick = (grown w d.block_size).tick + 1 + 1 + 1;
  }

  pub append_block-after : append_block d (calm w) ≡ ok (success, placed w d) (calm after)
  unfolding write_new_head restore after
  append_block-after =
      append_block-head w d ready
      ∙ rw (
        head_size-file,
        set_info_block_struct-made (calm (grown w d.block_size)),
        write_block_head-calm (grown w d.block_size) w.file.size (omega arith) (made d) 72
            ready.valid.0 (omega (arith, head_size-made)) (omega (arith, size-made)),
        fseek_set-calm
            (record (grown w d.block_size) {
              file = write (grown w d.block_size).file w.file.size (read (made d) 0 72);
              pos = w.file.size + 72;
              tick = (grown w d.block_size).tick + 1 + 1;
            })
            w.pos position,
      )

  stretched : Bytes
  stretched = write w.file (w.file.size + d.block_size - 1) (0 ∷ [])

  pub size-after : after.file.size ≡ w.file.size + d.block_size
  unfolding after
  size-after = omega (
    arith,
    size-copy (grown w d.block_size).file w.file.size (made d) 0 72,
    size-write w.file (w.file.size + d.block_size - 1) (0 ∷ []),
  )

  pub Agree-after : Agree after.file 0 w.file 0 w.file.size
  unfolding after
  Agree-after =
      Agree-trans after.file (grown w d.block_size).file w.file 0 0 0 w.file.size
        (Agree-write_before (grown w d.block_size).file w.file.size (read (made d) 0 72) 0
          w.file.size (omega arith)
          (omega (arith, size-write w.file (w.file.size + d.block_size - 1) (0 ∷ []))))
        (Agree-write_before w.file (w.file.size + d.block_size - 1) (0 ∷ []) 0 w.file.size
          (omega arith) (omega arith))

  pub head-after :
      IsFileHead rbt_file d.block_size d.chunk_size d.rec_size (head_at after.file w.file.size)
  unfolding after
  head-after =
      IsFileHead-Agree (head_at after.file w.file.size) (made d)
        (Agree-trans (head_at after.file w.file.size) after.file (made d) 0 w.file.size 0 72
          (Agree-copy (zeros 72) 0 after.file w.file.size 72)
          (Agree-copy (grown w d.block_size).file w.file.size (made d) 0 72))
        made-IsFileHead

  -- In a run without faults, with a valid handle, positions in the range of `off_t` and the
  -- file's end at a multiple of the chunk size, blocks_append_block of a block of type RBT_FILE
  -- of 72 bytes or more, with a chunk size that is not zero, succeeds: the caller gets the old
  -- end of the file as the block's place, the file is longer by the block, its old bytes stay,
  -- the head reads back with the sizes passed, the magic number, no successor and no record, and
  -- the stream stands where it stood.
  pub append_block-file :
      Returns
        (λ (e, d') w'.
          (e ≡ success)
          × (d' ≡ placed w d)
          × (w'.file.size ≡ w.file.size + d.block_size)
          × Agree w'.file 0 w.file 0 w.file.size
          × IsFileHead rbt_file d.block_size d.chunk_size d.rec_size (head_at w'.file w.file.size)
          × (w'.pos ≡ w.pos)
          × (w'.handle ≡ primed w.handle))
        (append_block d (calm w))
  unfolding after
  append_block-file =
      rw append_block-after (returns (refl, refl, size-after, Agree-after, head-after, refl, refl))
