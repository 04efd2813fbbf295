-- ===== src/Blocks/Head/Transfer.antt =====
-- Block headers between memory and file, in a run without faults.
use recnodb.Base.{
  ℕ, false, ◌+◌, ◌≤◌, ◌<◌, ◌≡◌, some, arith, le→ltb, le→leb, if◌then◌else◌, ltb, ne→==, ◌≢◌,
}
use recnodb.Bytes.{Bytes, read, write}
use recnodb.Bytes.Laws.{length-read}
use recnodb.Types.{success, live}
use recnodb.Stdio.{World, ok, off_limit}
use recnodb.Stdio.Cases.{use_file-opened}
use recnodb.Stdio.Calm.{calm, fseek_set-calm, fread-calm, fwrite-calm}
use recnodb.Blocks.Layout.{block_type, member, next_offset}
use recnodb.Blocks.Validate.{head_size}
use recnodb.Blocks.Head.{
  seek_and_read, seek_and_write, read_block_head, write_block_head, get_next_block_head,
}

-- the length that `blocks_write_block_head` writes
write_length : (own n : ℕ) → own ≤ n → (if ltb own n then n else own) ≡ n
write_length own n h = ground arith

module _ (w : World) (offset : ℕ) (positive : offset < off_limit) where
  pub seek_and_read-calm :
      (n : ℕ)
      → n ≢ 0
      → offset + n ≤ w.file.size
      → seek_and_read offset n (calm w)
        ≡ ok
            (some (read w.file offset n))
            (calm (record w { pos = offset + n; tick = w.tick + 1 + 1 }))
  unfolding seek_and_read
  seek_and_read-calm n h s =
      rw (fseek_set-calm w offset positive)
        (fread-calm (record w { pos = offset; tick = w.tick + 1 }) n h s)

  pub read_block_head-calm :
      (block : Bytes) (info_len : ℕ)
      → w.handle.stream ≡ live
      → 32 ≤ info_len
      → offset + 32 ≤ w.file.size
      → read_block_head offset block info_len (calm w)
        ≡ ok
            (success, write block 0 (read w.file offset 32))
            (calm (record w { pos = offset + 32; tick = w.tick + 1 + 1 }))
  unfolding read_block_head
  read_block_head-calm block info_len o h s =
      rw (use_file-opened (calm w) o, le→ltb info_len 32 h, seek_and_read-calm 32 (omega arith) s)

  pub seek_and_write-calm :
      (object : Bytes) (len : ℕ)
      → len ≤ object.size
      → seek_and_write offset object len (calm w)
        ≡ ok false (
            calm (record w {
              file = write w.file offset (read object 0 len);
              pos = offset + len;
              tick = w.tick + 1 + 1;
            }))
  unfolding seek_and_write
  seek_and_write-calm object len h =
      rw (fseek_set-calm w offset positive, le→leb len object.size h)
        (rw (
          fwrite-calm (record w { pos = offset; tick = w.tick + 1 }) (read object 0 len),
          length-read,
        ))

  pub write_block_head-calm :
      (block : Bytes) (info_len : ℕ)
      → w.handle.stream ≡ live
      → head_size (member block 0 block_type) ≤ info_len
      → info_len ≤ block.size
      → write_block_head offset block info_len (calm w)
        ≡ ok success (
            calm (record w {
              file = write w.file offset (read block 0 info_len);
              pos = offset + info_len;
              tick = w.tick + 1 + 1;
            }))
  unfolding write_block_head
  write_block_head-calm block info_len o h s =
      rw (use_file-opened (calm w) o, write_length _ _ h, seek_and_write-calm block info_len s)

  pub get_next_block_head-calm :
      (block nextblock : Bytes) (old : ℕ)
      → w.handle.stream ≡ live
      → member block 0 next_offset ≡ offset
      → offset ≢ 0
      → offset + 32 ≤ w.file.size
      → get_next_block_head block nextblock old (calm w)
        ≡ ok
            (success, write nextblock 0 (read w.file offset 32), offset)
            (calm (record w { pos = offset + 32; tick = w.tick + 1 + 1 }))
  unfolding get_next_block_head
  get_next_block_head-calm block nextblock old o e ne s =
      rw
        (e, ne→== offset 0 ne, use_file-opened (calm w) o, seek_and_read-calm 32 (omega arith) s, e)
