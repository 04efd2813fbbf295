-- ===== src/Programs/RecordTests.antt =====
-- src/test_flatrecs.c: places of records of a table that starts the file.
pub mod Alone
pub mod Callback
pub mod Runs
pub mod Outgrown
use recnodb.Base.{ℕ, ◌*◌, ◌%◌, ◌^◌, [], ◌∷◌, Bool, true, false, not, Option, ◌==◌, if◌then◌else◌}
use recnodb.Bytes.{Bytes}
use recnodb.Types.{is_success}
use recnodb.Stdio.{Cmd, pure, ◌>>=◌, ◌>>◌, within, print}
use recnodb.Blocks.Layout.{
  BlockLoc, block_size, sizeof_info_block, sizeof_head_table, sizeof_head_file, member,
}
use recnodb.Blocks.Validate.{block_payload_size}
use recnodb.Flatrecs.{
  full_recsize, get_record_capacity, make_offset_to_recno, UseNewRecord, get_next_offset,
}
use recnodb.Api.{open_database}
use recnodb.Programs.{get_file_size, no_flags}

-- test_get_record_capacity
unfoldable pub test_get_record_capacity : Bytes → Cmd (Unit {0})
test_get_record_capacity headtable = do
  within (not (full_recsize headtable == 0))
  let reccap = get_record_capacity headtable headtable
  let bytes_payload = block_payload_size headtable
  let bytes_leftover = bytes_payload % full_recsize headtable
  print (reccap ∷ bytes_payload ∷ reccap ∷ full_recsize headtable ∷ bytes_leftover ∷ [])

-- fake_file_table
unfoldable pub fake_file_table : ℕ → Bytes → ℕ → Cmd Bool
fake_file_table fuel head_table recno = do
  (rval, new_offset) ←
      make_offset_to_recno (record { offset = 0; size = member head_table 0 block_size }) head_table
        recno fuel
  if not (is_success rval) then pure false else do
    print (new_offset ∷ recno ∷ (full_recsize head_table * recno % 2 ^ 32) ∷ [])
    size ← get_file_size
    print (size ∷ [])
    pure true

-- callback_for_test_get_next_offset
unfoldable pub callback_for_test_get_next_offset : ℕ → UseNewRecord (Unit {0})
callback_for_test_get_next_offset fuel head_table offset_new_record closure = do
  print (offset_new_record ∷ [])
  fake_file_table fuel head_table 20
  fake_file_table fuel head_table 80
  fake_file_table fuel head_table 1000
  fake_file_table fuel head_table 1500
  pure (false, head_table, closure)

-- test_get_next_offset, which is all that run_test_user does
unfoldable pub test_get_next_offset : ℕ → Cmd (Unit {0})
test_get_next_offset fuel =
    get_next_offset fuel (callback_for_test_get_next_offset fuel) true 0 tt >> pure tt

-- run_info_test
unfoldable pub run_info_test : Cmd (Unit {0})
run_info_test = print (sizeof_head_file ∷ sizeof_head_table ∷ sizeof_info_block ∷ [])

-- main
unfoldable pub main : Option ℕ → ℕ → Cmd ℕ
unfolding run_info_test
main stat fuel =
    run_info_test >> open_database stat 0 no_flags (test_get_next_offset fuel) >> pure 0
