-- ===== src/Blocks/Head/FileHead.antt =====
-- `blocks_set_info_block` for the head of a file, and `blocks_validate_head_file` on it.
use recnodb.Base.{ℕ, ◌+◌, ◌^◌, ◌≤◌, ◌<◌, ◌≡◌, ◌≢◌, ap, ◌∙◌, inl, inr, some, arith}
use recnodb.Bytes.{Bytes}
use recnodb.Types.{success}
use recnodb.Stdio.{World, Returns, returns}
use recnodb.Blocks.Layout.{
  rbt_file, Field, info_at, block_type, bytes_to_data, block_size, next_offset, last_recno,
  rec_size, magic, chunk_size, magic_bytes, member, with_member,
}
use recnodb.Blocks.Validate.{validate_head_file}
use recnodb.Blocks.Head.{set_info_block}
use recnodb.Blocks.Head.Fields.{
  Apart, size-with_member, member-with_member_self, member-with_member_other,
}
use recnodb.Blocks.Head.File.{IsFileHead, validate-IsFileHead}
use recnodb.Blocks.Head.Prepare.{base_head, member-base_head, size-base_head, info_at-base_head}
use recnodb.Blocks.Head.Members.{table_head, file_head, size-table_head, set_info_block-file}

module _ (ib : Bytes) (n size rec chunk : ℕ) (fits : n ≤ ib.size) (room : 72 ≤ n) where
  abbrev made : Bytes
  made = file_head ib n 72 rbt_file size rec chunk

  abbrev with_chunk : Bytes
  with_chunk = with_member (table_head ib n 72 rbt_file size rec) 0 chunk_size chunk

  size-table : (table_head ib n 72 rbt_file size rec).size ≡ ib.size
  size-table = size-table_head ib n 72 rbt_file size rec chunk fits (omega arith)

  size-with_chunk : with_chunk.size ≡ ib.size
  size-with_chunk =
      size-with_member (table_head ib n 72 rbt_file size rec) 0 chunk_size chunk
        (omega (arith, size-table))
      ∙ size-table

  -- What lies apart from the other members is that of the common part.
  member-made :
      (f : Field)
      → Apart magic f
      → Apart chunk_size f
      → Apart rec_size f
      → f.at + f.width ≤ 72
      → member made 0 f ≡ member (base_head ib n 72 rbt_file size) 0 f
  member-made f m c r h =
      member-with_member_other with_chunk 0 magic magic_bytes f m (omega (arith, size-with_chunk))
      ∙ (member-with_member_other (table_head ib n 72 rbt_file size rec) 0 chunk_size chunk f c
            (omega (arith, size-table))
          ∙ member-with_member_other (base_head ib n 72 rbt_file size) 0 rec_size rec f r
              (omega (arith, size-base_head ib n fits (omega arith) 72 rbt_file size)))

  member-magic : member made 0 magic ≡ magic_bytes
  member-magic = member-with_member_self with_chunk 0 magic magic_bytes (omega arith)

  member-chunk : chunk < 2 ^ 32 → member made 0 chunk_size ≡ chunk
  member-chunk h =
      member-with_member_other with_chunk 0 magic magic_bytes chunk_size (inl (omega arith))
        (omega (arith, size-with_chunk))
      ∙ member-with_member_self (table_head ib n 72 rbt_file size rec) 0 chunk_size chunk h

  member-rec : rec < 2 ^ 32 → member made 0 rec_size ≡ rec
  member-rec h =
      member-with_member_other with_chunk 0 magic magic_bytes rec_size (inr (omega arith))
        (omega (arith, size-with_chunk))
      ∙ (member-with_member_other (table_head ib n 72 rbt_file size rec) 0 chunk_size chunk rec_size
            (inr (omega arith)) (omega (arith, size-table))
          ∙ member-with_member_self (base_head ib n 72 rbt_file size) 0 rec_size rec h)

  -- the common part as values
  info :
      size < 2 ^ 32
      → info_at (base_head ib n 72 rbt_file size) 0 ≡ record {
        block_type = rbt_file;
        bytes_to_data = 72;
        block_size = size;
        first_recno = 0;
        next_block = record { offset = 0; size = 0 };
      }
  info h = info_at-base_head ib n fits (omega arith) 72 rbt_file size (omega arith) (omega arith) h

  pub members-IsFileHead :
      size < 2 ^ 32 → chunk < 2 ^ 32 → rec < 2 ^ 32 → IsFileHead rbt_file size chunk rec made
  unfolding info_at
  members-IsFileHead small narrow fit =
      let at : (f : Field)
          → f.at + f.width ≤ 32
          → member made 0 f ≡ member (base_head ib n 72 rbt_file size) 0 f =
        λ f h.
          member-made f (inr (omega arith)) (inr (omega arith)) (inr (omega arith)) (omega arith) in
      record {
        type = at block_type (omega arith) ∙ ap (λ b. b.block_type) (info small);
        data_at = at bytes_to_data (omega arith) ∙ ap (λ b. b.bytes_to_data) (info small);
        block = at block_size (omega arith) ∙ ap (λ b. b.block_size) (info small);
        next = at next_offset (omega arith) ∙ ap (λ b. b.next_block.offset) (info small);
        record_size = member-rec fit;
        last =
            member-made last_recno (inr (omega arith)) (inr (omega arith)) (inl (omega arith))
              (omega arith)
            ∙ member-base_head ib n fits (omega arith) 72 rbt_file size last_recno (omega arith)
                (omega arith);
        signature = member-magic;
        chunk_size = member-chunk narrow;
      }

  pub size-file_head : made.size ≡ ib.size
  size-file_head =
      size-with_member with_chunk 0 magic magic_bytes (omega (arith, size-with_chunk))
      ∙ size-with_chunk

  -- For RBT_FILE, in an object that has room for 72 bytes, and with a block size and a chunk size
  -- that are not zero, blocks_set_info_block returns and makes a head that
  -- blocks_validate_head_file accepts, with the sizes passed, the magic number, no successor and
  -- no record.
  set_info_block-valid :
      (w : World)
      → size ≢ 0
      → size < 2 ^ 32
      → chunk ≢ 0
      → chunk < 2 ^ 32
      → rec < 2 ^ 32
      → Returns
          (λ h w'. (validate_head_file (some h) ≡ success) × IsFileHead rbt_file size chunk rec h)
          (set_info_block ib n rbt_file size rec chunk w)
  set_info_block-valid w nonzero small ne narrow fit =
      let h = members-IsFileHead small narrow fit in
      rw (set_info_block-file ib n size rec chunk w fits room ne)
        (returns (validate-IsFileHead made h (omega arith) nonzero ne, h))
