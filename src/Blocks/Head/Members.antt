-- ===== src/Blocks/Head/Members.antt =====
-- `blocks_set_info_block` for a table or a file: the members of INFO_TABLE and INFO_FILE.
use recnodb.Base.{
  ℕ, ◌≤◌, ◌<◌, ◌≡◌, ◌≢◌, refl, ◌∙◌, inl, inr, arith, le→leb, lt→leb, ne→==, Bool-cases,
  if◌then◌else◌, ◌==◌, lt→ltb,
}
use recnodb.Bytes.{Bytes}
use recnodb.Stdio.{World, ok, aborted, undefined}
use recnodb.Blocks.Layout.{
  rec_size, magic, chunk_size, rbt_table, rbt_file, magic_bytes, with_member,
}
use recnodb.Blocks.Validate.{head_size}
use recnodb.Blocks.Head.{put, set_info_block, set_table_members, set_file_members}
use recnodb.Blocks.Head.Fields.{put-ok, size-with_member}
use recnodb.Blocks.Head.Prepare.{base_head, size-base_head, set_info_block-base}

-- the head with its record size, and then with its members of INFO_FILE
abbrev pub table_head : Bytes → ℕ → ℕ → ℕ → ℕ → ℕ → Bytes
table_head ib n own type size rec = with_member (base_head ib n own type size) 0 rec_size rec

abbrev pub file_head : Bytes → ℕ → ℕ → ℕ → ℕ → ℕ → ℕ → Bytes
file_head ib n own type size rec chunk =
    with_member (with_member (table_head ib n own type size rec) 0 chunk_size chunk) 0 magic
      magic_bytes

module _ (ib : Bytes) (n own type size rec chunk : ℕ) (fits : n ≤ ib.size) (room : 64 ≤ n) where
  pub size-table_head : (table_head ib n own type size rec).size ≡ ib.size
  size-table_head =
      let e : (base_head ib n own type size).size ≡ ib.size =
        size-base_head ib n fits (omega arith) own type size in
      size-with_member (base_head ib n own type size) 0 rec_size rec (omega arith) ∙ e

  -- An object too short for INFO_FILE: the store of `chunk_size` lies outside it.
  file_members-short :
      (w : World)
      → ib.size < 72
      → 32 < own
      → set_table_members own rec chunk (base_head ib n own type size) w
        ≡ (if chunk == 0 then aborted else undefined)
  unfolding set_table_members set_file_members put
  file_members-short w short big =
      let e : (base_head ib n own type size).size ≡ ib.size =
        size-base_head ib n fits (omega arith) own type size in
      rw
        (
          lt→ltb 32 own big,
          le→leb 60 (base_head ib n own type size).size (omega arith),
          lt→ltb 8 own (omega arith),
        )
        (elim (Bool-cases (chunk == 0)) [
          | inl z ↦ rw z
          | inr nz ↦ rw (
            nz,
            lt→leb 72 (table_head ib n own type size rec).size (omega (arith, size-table_head)),
          )
        ])

  file_members-full :
      (w : World)
      → 72 ≤ ib.size
      → 32 < own
      → chunk ≢ 0
      → set_table_members own rec chunk (base_head ib n own type size) w
        ≡ ok (file_head ib n own type size rec chunk) w
  unfolding set_table_members set_file_members
  file_members-full w long big ne =
      let e : (base_head ib n own type size).size ≡ ib.size =
        size-base_head ib n fits (omega arith) own type size in
      let t = table_head ib n own type size rec in
      let c : (with_member t 0 chunk_size chunk).size ≡ ib.size =
        size-with_member t 0 chunk_size chunk (omega (arith, size-table_head)) ∙ size-table_head in
      rw (
        lt→ltb 32 own big,
        put-ok rec_size rec (base_head ib n own type size) w (omega arith),
        lt→ltb 8 own (omega arith),
        ne→== chunk 0 ne,
        put-ok chunk_size chunk t w (omega (arith, size-table_head)),
        put-ok magic magic_bytes (with_member t 0 chunk_size chunk) w (omega arith),
      )

-- A table's head in an object of just its size: the members of INFO_FILE lie outside it.
pub set_info_block-table :
    (ib : Bytes) (n size rec chunk : ℕ) (w : World)
    → n ≤ ib.size
    → 64 ≤ n
    → ib.size < 72
    → set_info_block ib n rbt_table size rec chunk w ≡ (if chunk == 0 then aborted else undefined)
unfolding head_size
set_info_block-table ib n size rec chunk w fits room short =
    set_info_block-base ib n fits (omega arith) 64 rbt_table size rec chunk w refl room
    ∙ file_members-short ib n 64 rbt_table size rec chunk fits room w short (omega arith)

-- A file's head.
pub set_info_block-file :
    (ib : Bytes) (n size rec chunk : ℕ) (w : World)
    → n ≤ ib.size
    → 72 ≤ n
    → chunk ≢ 0
    → set_info_block ib n rbt_file size rec chunk w
      ≡ ok (file_head ib n 72 rbt_file size rec chunk) w
unfolding head_size
set_info_block-file ib n size rec chunk w fits room ne =
    set_info_block-base ib n fits (omega arith) 72 rbt_file size rec chunk w refl room
    ∙ file_members-full ib n 72 rbt_file size rec chunk fits (omega arith) w (omega arith)
        (omega arith) ne
