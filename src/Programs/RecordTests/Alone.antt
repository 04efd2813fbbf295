-- ===== src/Programs/RecordTests/Alone.antt =====
-- The callback of src/test_flatrecs.c on a table of one block that has no room for its records.
use recnodb.Base.{
  ℕ, suc, ◌+◌, ◌%◌, ◌^◌, ◌≤◌, ◌<◌, ◌≡◌, ◌≢◌, ◌∙◌, ap, ◌⊎◌, inl, inr, arith, List, [], ◌∷◌, ◌++◌,
}
use recnodb.Bytes.{Bytes}
use recnodb.Stdio.{World, Cmd, undefined, ◌>>◌, off_limit, print}
use recnodb.Stdio.Calm.{calm}
use recnodb.Blocks.Layout.{BlockLoc, block_type, block_size, next_offset, chunk_size, member}
use recnodb.Blocks.Validate.{handle_chunk_size, head_file_chunk_size, head_size}
use recnodb.Blocks.Append.Block.{Ready}
use recnodb.Blocks.Append.Extend.{IsValid, chunk_of}
use recnodb.Flatrecs.{full_recsize, get_record_capacity, new_data_block, chunk_bytes}
use recnodb.Flatrecs.Place.{IsSound}
use recnodb.Flatrecs.Outgrown.{second_block, make_offset_to_recno-outgrown}
use recnodb.Programs.RecordTests.{fake_file_table, callback_for_test_get_next_offset}
use recnodb.Programs.RecordTests.Callback.{record_shown, fake_file_table-fits}

-- a table that starts the file, has no block behind its own one, and may be asked for a record that
-- has no room there
pub record IsAlone (f : Bytes) (head : Bytes) : Type 0 where
  pub inside : 72 ≤ f.size
  pub sized : 0 < full_recsize head
  pub sound : IsSound 0 head
  pub alone : member head 0 next_offset ≡ 0
  pub unlinked : member f 0 next_offset ≡ 0
  pub type : 32 < head_size (member f 0 block_type)
  pub ends : f.size % member f 0 chunk_size ≡ 0
  pub chunked : member f 0 chunk_size ≢ 0
  pub range : f.size + 2 ^ 32 < off_limit

-- the state in which the library works on that file
pub record Works (f : Bytes) (v : World) : Type 0 where
  pub file : v.file ≡ f
  pub valid : IsValid v.handle
  pub chunks : member v.handle.head_file 0 chunk_size ≡ member f 0 chunk_size
  pub position : v.pos < off_limit

pub Works-on :
    {f : Bytes} {v : World}
    → Works f v
    → (tick : ℕ) (printed : List ℕ) → Works f (record v { tick = tick; printed = printed })
Works-on works tick printed = record {
  file = works.file;
  valid = works.valid;
  chunks = works.chunks;
  position = works.position;
}

pub lt_or_le : (a b : ℕ) → (a < b) ⊎ (b ≤ a)
lt_or_le a b = omega arith

module _ (rounds : ℕ) (f head : Bytes) (table : IsAlone f head) where
  open table use {inside, sized, sound, alone, unlinked, type, ends, chunked, range}

  pub second_block-Ready : (v : World) (recno : ℕ) → Works f v → Ready v (second_block v head recno)
  unfolding new_data_block chunk_bytes handle_chunk_size head_file_chunk_size
  second_block-Ready v recno works = record {
    valid = works.valid;
    position = works.position;
    room = omega (arith, ap (λ b. b.size) works.file);
    aligned =
        ap (λ b. b.size % chunk_of v.handle) works.file
        ∙ (ap (λ c. f.size % c) works.chunks ∙ ends);
    nonempty = omega (arith, ap (λ b. b.size) works.file);
    narrow = omega arith;
  }

  -- Looking for a record that the table has no room for is undefined.
  fake_file_table-outgrown :
      (l : ℕ) (v : World)
      → Works f v
      → l + 1 < 2 ^ 32
      → get_record_capacity head head ≤ l
      → fake_file_table (suc rounds) head (l + 1) (calm v) ≡ undefined
  unfolding fake_file_table
  fake_file_table-outgrown l v works small full =
      let start : BlockLoc = record { offset = 0; size = member head 0 block_size } in
      rw (
        make_offset_to_recno-outgrown start head (l + 1) rounds v small (omega arith) alone
          (ap (λ b. member b 0 next_offset) works.file ∙ unlinked)
          (omega (arith, ap (λ b. head_size (member b 0 block_type)) works.file))
          (omega (arith, ap (λ b. b.size) works.file)) (omega (arith, works.chunks))
          (second_block-Ready v (l + 1) works))

  -- what comes behind it where there is room
  fake_file_table-then :
      {B : Type 0} (l : ℕ) (rest : Cmd B) (v : World)
      → Works f v
      → l + 1 < 2 ^ 32
      → (l < get_record_capacity head head → (v' : World) → Works f v' → rest (calm v') ≡ undefined)
      → (fake_file_table (suc rounds) head (l + 1) >> rest) (calm v) ≡ undefined
  fake_file_table-then l rest v works small next =
      elim (lt_or_le l (get_record_capacity head head)) [
        | inr full ↦ rw (fake_file_table-outgrown l v works small full)
        | inl room ↦ rw (fake_file_table-fits rounds head sized sound l v small room) (
            next room
              (record v {
                tick = v.tick + 1;
                printed = v.printed ++ record_shown head v.file.size l;
              })
              (Works-on works (v.tick + 1) (v.printed ++ record_shown head v.file.size l)))
      ]

  pub callback-outgrown :
      (offset : ℕ) (v : World)
      → Works f v
      → get_record_capacity head head < 1500
      → callback_for_test_get_next_offset (suc rounds) head offset tt (calm v) ≡ undefined
  unfolding callback_for_test_get_next_offset print
  callback-outgrown offset v works few =
      fake_file_table-then 19 _ (record v { printed = v.printed ++ offset ∷ [] })
        (Works-on works v.tick (v.printed ++ offset ∷ [])) (omega arith)
        λ _ v1 works1. fake_file_table-then 79 _ v1 works1 (omega arith) λ _ v2 works2.
          fake_file_table-then 999 _ v2 works2 (omega arith) λ _ v3 works3.
            fake_file_table-then 1499 _ v3 works3 (omega arith)
              λ room v4 works4. absurd (omega arith)
