-- ===== src/Programs/RecordTests/Outgrown.antt =====
-- The runs of src/test_flatrecs.c on a table that would have to grow.
use recnodb.Base.{
  ℕ, suc, ◌+◌, ◌%◌, ◌^◌, ◌≤◌, ◌<◌, ◌≡◌, refl, ◌∙◌, ap, ◌⊎◌, inl, inr, false, Option, some, arith,
  [], ◌∷◌, ◌++◌,
}
use recnodb.Bytes.{zeros}
use recnodb.Types.{success, is_success, is_set}
use recnodb.Stdio.{World, undefined, print}
use recnodb.Stdio.Calm.{calm}
use recnodb.Blocks.Layout.{BlockLoc, block_type, next_offset, last_recno, chunk_size, member}
use recnodb.Blocks.Validate.{validate_head_file, validate_handle, head_size}
use recnodb.Blocks.Head.Fields.{member-copy}
use recnodb.Blocks.Append.Extend.{IsValid-primed, primed}
use recnodb.Blocks.Append.{prime_handle}
use recnodb.Blocks.Open.{cleared_handle}
use recnodb.Blocks.Open.Load.{loaded, file_open-loaded}
use recnodb.Locks.{LockCallback}
use recnodb.Locks.Area.{locking}
use recnodb.Locks.Calm.{shown, lock_area-undefined}
use recnodb.Database.{at_head}
use recnodb.Api.{init, open_database, get_blocksize}
use recnodb.Flatrecs.{
  full_recsize, get_record_capacity, get_next_offset_lock_callback, get_next_offset,
}
use recnodb.Flatrecs.Next.{assert-true, locked_head, telling}
use recnodb.Flatrecs.Place.{place, make_offset_to_recno-fits}
use recnodb.Flatrecs.Outgrown.{make_offset_to_recno-outgrown}
use recnodb.Programs.RecordTests.{
  callback_for_test_get_next_offset, test_get_next_offset, run_info_test, main,
}
use recnodb.Programs.RecordTests.Alone.{
  IsAlone, Works, Works-on, lt_or_le, second_block-Ready, callback-outgrown,
}

-- the state when the head has been loaded
at_head-Works :
    (w : World)
    → IsAlone w.file (locked_head w 0)
    → validate_head_file (some (loaded w.file)) ≡ success
    → Works w.file (at_head w)
unfolding validate_handle
at_head-Works w table valid = record {
  file = refl;
  valid = (refl, ap is_success valid);
  chunks = member-copy (zeros 72) 0 w.file 0 72 chunk_size (omega arith);
  position = omega arith;
}

module _ (rounds : ℕ) (w : World) (table : IsAlone w.file (locked_head w 0))
    (works : Works w.file w) (few : member (locked_head w 0) 0 last_recno + 1 < 2 ^ 32)
    (short : (get_record_capacity (locked_head w 0) (locked_head w 0)
        ≤ member (locked_head w 0) 0 last_recno)
      ⊎ (get_record_capacity (locked_head w 0) (locked_head w 0) < 1500)) where
  open table use {inside, sized, sound, alone, unlinked, type, ends, chunked, range}

  lock_callback-outgrown :
      (v : World)
      → Works w.file v
      → get_next_offset_lock_callback
          (suc rounds)
          (callback_for_test_get_next_offset (suc rounds))
          (record { offset = 0; size = 64 })
          (some (locked_head w 0))
          tt
          (calm v)
        ≡ undefined
  unfolding get_next_offset_lock_callback print
  lock_callback-outgrown v works =
      let head = locked_head w 0 in
      let told = telling head v in
      let at : Works w.file told = Works-on works v.tick told.printed in
      let area : BlockLoc = record { offset = 0; size = 64 } in
      let l = member head 0 last_recno in
      let n : (l + 1) % 2 ^ 32 ≡ l + 1 = omega arith in
      elim (lt_or_le l (get_record_capacity head head)) [
        | inr full ↦ rw (
          n,
          make_offset_to_recno-outgrown area head (l + 1) rounds told few (omega arith) alone
              (ap (λ b. member b 0 next_offset) at.file ∙ unlinked)
              (omega (arith, ap (λ b. head_size (member b 0 block_type)) at.file))
              (omega (arith, ap (λ b. b.size) at.file)) (omega (arith, at.chunks))
              (second_block-Ready rounds w.file head table told (l + 1) at),
        )
        | inl room ↦
            rw (n, make_offset_to_recno-fits area head l rounds (calm told) sized sound few room)
              (callback-outgrown rounds w.file head table (place 0 head l (full_recsize head)) told
                at (elim short [ inl full ↦ absurd (omega arith) | inr short ↦ short ]))
      ]

  test_get_next_offset-outgrown : test_get_next_offset (suc rounds) (calm w) ≡ undefined
  unfolding test_get_next_offset get_next_offset prime_handle
  test_get_next_offset-outgrown =
      let area : BlockLoc = record { offset = 0; size = 64 } in
      let callback : LockCallback (Unit {0}) =
        get_next_offset_lock_callback (suc rounds)
          (callback_for_test_get_next_offset (suc rounds)) in
      let started = record w { handle = primed w.handle } in
      let v = shown area callback (locking area callback started) in
      rw (
        assert-true (is_set w.handle.stream) (calm w) (ap is_set works.valid.0),
        lock_area-undefined area callback started tt works.valid.0 (omega arith) (omega arith)
            (omega arith)
            (lock_callback-outgrown v (record {
              file = refl;
              valid = IsValid-primed w.handle works.valid;
              chunks = works.chunks;
              position = omega arith;
            })),
      )

-- In a run without faults, on an existing file of 72 bytes or more whose head passes the check
-- and is that of a table of records of a size that is not zero, of type RBT_TABLE or RBT_FILE and
-- with no successor, its block no shorter than its head and the number of its last record, plus
-- one, below 2^32, the file ending at a multiple of its chunk size and 2^32 bytes or more before
-- the end of the range of `off_t`, the program src/test_flatrecs.c is undefined, with one round
-- or more for each record, if the table's own block has no room for the next record or none for
-- 1500 records: the table would have to grow.
pub main-outgrown :
    (stat : Option ℕ) (rounds : ℕ) (w : World)
    → IsAlone w.file (locked_head w 0)
    → member (locked_head w 0) 0 last_recno + 1 < 2 ^ 32
    → (get_record_capacity (locked_head w 0) (locked_head w 0)
        ≤ member (locked_head w 0) 0 last_recno)
      ⊎ (get_record_capacity (locked_head w 0) (locked_head w 0) < 1500)
    → validate_head_file (some (loaded w.file)) ≡ success
    → main stat (suc rounds) (calm w) ≡ undefined
unfolding main run_info_test open_database init print
main-outgrown stat rounds w table few short valid =
    let u : World = record w { printed = w.printed ++ 72 ∷ 64 ∷ 32 ∷ [] } in
    rw (
      file_open-loaded false (get_blocksize stat) 0 (record u { handle = cleared_handle })
          table.inside valid,
      test_get_next_offset-outgrown rounds (at_head u) table (at_head-Works u table valid) few
          short,
    )
