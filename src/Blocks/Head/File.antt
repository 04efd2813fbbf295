-- ===== src/Blocks/Head/File.antt =====
-- `blocks_prep_head_file`: the head of a new file.
use recnodb.Base.{ℕ, ◌^◌, ◌<◌, ◌≡◌, ◌≢◌, refl, ◌∙◌, some, arith, lt→ltb, ne→==}
use recnodb.Bytes.{Bytes, byte, num, zeros, write, little_endian, Agree}
use recnodb.Types.{success}
use recnodb.Blocks.Validate.{validate_head_file}
use recnodb.Blocks.Head.Fields.{member-Agree}
use recnodb.Stdio.{World, ok}
use recnodb.Blocks.Layout.{
  block_type, bytes_to_data, block_size, next_offset, rec_size, last_recno, magic, chunk_size,
  magic_bytes, rbt_table, member, with_member,
}
use recnodb.Blocks.Head.{put, prep_head_file}

-- the head that it prepares
pub prepared : ℕ → ℕ → ℕ → Bytes
prepared size chunk rec =
    let b = with_member (zeros 72) 0 block_type rbt_table in
    let b = with_member b 0 block_size size in
    let b = with_member b 0 bytes_to_data 72 in
    let b = with_member b 0 rec_size rec in
    let b = with_member b 0 magic magic_bytes in with_member b 0 chunk_size chunk

pub prep_head_file-prepared :
    (size chunk rec : ℕ) (w : World)
    → 0 < chunk
    → prep_head_file size chunk rec w ≡ ok (prepared size chunk rec) w
unfolding prep_head_file prepared put write little_endian
prep_head_file-prepared size chunk rec w h = rw (lt→ltb 0 chunk h)

-- The members of a new head with the members of INFO_FILE: no successor and no record yet.
pub record IsFileHead (kind size chunk rec : ℕ) (h : Bytes) : Type 0 where
  pub type : member h 0 block_type ≡ kind
  pub data_at : member h 0 bytes_to_data ≡ 72
  pub block : member h 0 block_size ≡ size
  pub next : member h 0 next_offset ≡ 0
  pub record_size : member h 0 rec_size ≡ rec
  pub last : member h 0 last_recno ≡ 0
  pub signature : member h 0 magic ≡ magic_bytes
  pub chunk_size : member h 0 chunk_size ≡ chunk

-- such a head of type RBT_TABLE
abbrev pub IsPrepared : ℕ → ℕ → ℕ → Bytes → Type 0
IsPrepared size chunk rec h = IsFileHead rbt_table size chunk rec h

-- A head that agrees with another in its 72 bytes has the same members.
pub IsFileHead-Agree :
    {kind size chunk rec : ℕ} (a b : Bytes)
    → Agree a 0 b 0 72
    → IsFileHead kind size chunk rec b
    → IsFileHead kind size chunk rec a
IsFileHead-Agree a b same h = record {
  type = member-Agree a 0 b 0 72 block_type (omega arith) same ∙ h.type;
  data_at = member-Agree a 0 b 0 72 bytes_to_data (omega arith) same ∙ h.data_at;
  block = member-Agree a 0 b 0 72 block_size (omega arith) same ∙ h.block;
  next = member-Agree a 0 b 0 72 next_offset (omega arith) same ∙ h.next;
  record_size = member-Agree a 0 b 0 72 rec_size (omega arith) same ∙ h.record_size;
  last = member-Agree a 0 b 0 72 last_recno (omega arith) same ∙ h.last;
  signature = member-Agree a 0 b 0 72 magic (omega arith) same ∙ h.signature;
  chunk_size = member-Agree a 0 b 0 72 chunk_size (omega arith) same ∙ h.chunk_size;
}

-- It passes the check, where its type and its sizes are not zero.
pub validate-IsFileHead :
    {kind size chunk rec : ℕ} (h : Bytes)
    → IsFileHead kind size chunk rec h
    → kind ≢ 0
    → size ≢ 0
    → chunk ≢ 0
    → validate_head_file (some h) ≡ success
unfolding validate_head_file
validate-IsFileHead {kind} {size} {chunk} {rec} h p hk hs hc = rw (
  p.chunk_size,
  p.signature,
  p.type,
  p.data_at,
  p.block,
  ne→== kind 0 hk,
  ne→== size 0 hs,
  ne→== chunk 0 hc,
)

pub prepared-IsPrepared :
    (size chunk rec : ℕ)
    → size < 2 ^ 32
    → chunk < 2 ^ 32
    → rec < 2 ^ 32
    → IsPrepared size chunk rec (prepared size chunk rec)
unfolding prepared num byte write little_endian
prepared-IsPrepared size chunk rec hs hc hr = record {
  type = refl;
  data_at = refl;
  block = omega arith;
  next = refl;
  record_size = omega arith;
  last = refl;
  signature = refl;
  chunk_size = omega arith;
}
