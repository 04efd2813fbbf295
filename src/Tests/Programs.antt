-- ===== src/Tests/Programs.antt =====
-- Tests of the programs that exercise the library.
use recnodb.Base.{ℕ, ◌≤◌, ◌<◌, ◌≡◌, refl, false, true, some, [], ◌∷◌, arith, none, inr}
use recnodb.Types.{null}
use recnodb.Bytes.{byte, num, read, write, zeros}
use recnodb.Stdio.{Returns, undefined, ◌>>◌}
use recnodb.Stdio.Calm.{calm}
use recnodb.Blocks.Validate.{validate_head_file, head_size}
use recnodb.Chains.{LastLink}
use recnodb.Api.{get_blocksize}
use recnodb.Flatrecs.{full_recsize, get_record_capacity}
use recnodb.Flatrecs.Next.{locked_head}
use recnodb.Database.{IsDatabase}
use recnodb.Programs.BlockTests
use recnodb.Base.{◌⊎◌}
use recnodb.Blocks.Append.ChainKeeps.{KeptOutside}
use recnodb.Chains.Last.{last_of}
use recnodb.Programs.BlockTests.{test_blocks_file_use, add_block_file_user}
use recnodb.Programs.BlockTests.Safe.{test_blocks_file_use-keeps}
use recnodb.Programs.BlockTests.Uses.{uses, uses-adds}
use recnodb.Programs.BlockTests.Main.{Has, main-grows}
use recnodb.Programs.RecordTests
use recnodb.Programs.RecordTests.Runs.{IsRoomy, run_shown, main-leaves}
use recnodb.Programs.LockTests
use recnodb.Programs.LockTests.{digits, test_block_lock_writing, test_block_lock_nonwriting}
use recnodb.Programs.LockTests.Runs.{lock_tests-write, main-undefined}
use recnodb.Programs.LibraryTests
use recnodb.Programs.LibraryTests.{head_members}
use recnodb.Programs.LibraryTests.Runs.{main-keeps, main-shows}
use recnodb.Programs.RecordTests.Alone.{IsAlone}
use recnodb.Programs.RecordTests.Outgrown.{main-outgrown}
use recnodb.Tests.Data.{using, single_file, double, double_file, disk_full, roomy_file, single}
use recnodb.Tests.Databases.{double-IsDatabase}

-- two objects that have not been written
abbrev blank : LastLink
blank = record { ib = zeros 72; offset_to_ib = 0 }

main-grows_example :
    Returns
      (λ n w'. (n ≡ 1) × Has (0 ∷ 4096 ∷ 8192 ∷ 12288 ∷ 16384 ∷ []) 20480 w'.file)
      (BlockTests.main (some 4096) 5 blank single_file double_file (calm double))
unfolding get_blocksize
main-grows_example =
    main-grows 5 (omega arith) blank (omega arith) (some 4096) (omega arith) single_file double_file
      double

uses-adds_example :
    Returns
      (λ b w'.
        (b ≡ true)
        × IsDatabase w'.file 128 (0 ∷ 128 ∷ 256 ∷ 4352 ∷ 8448 ∷ [])
        × (w'.file.size ≡ 12544)
        × (w'.faults ≡ (λ _. none)))
      (uses 5 blank 3 (calm double))
uses-adds_example =
    uses-adds 5 blank (omega arith) 128 (omega arith) 3 double (0 ∷ 128 ∷ []) double-IsDatabase
      (omega arith) (omega arith)

-- the fourth call of the library fails
test_blocks_file_use-keeps_example :
    Returns
      (λ b w'.
        KeptOutside 128 double.file w'.file
        × ((b ≡ true) ⊎ ((b ≡ false) × (w'.file ≡ double.file))))
      (test_blocks_file_use (add_block_file_user 5 blank) (record double { faults = disk_full }))
unfolding last_of
test_blocks_file_use-keeps_example =
    test_blocks_file_use-keeps 5 blank (omega arith) (record double { faults = disk_full })
      double-IsDatabase (omega arith) (omega arith)

roomy_file-IsRoomy : IsRoomy roomy_file (locked_head (using roomy_file) 0)
unfolding full_recsize get_record_capacity byte num read write
roomy_file-IsRoomy = record {
  inside = omega arith;
  sized = omega arith;
  sound = record { head_fits = omega arith; in_range = omega arith };
  few = omega arith;
  next = omega arith;
  room = omega arith;
}

main-leaves_example :
    Returns
      (λ n w'.
        (n ≡ 0)
        × (w'.printed ≡ 72 ∷ 64 ∷ 32 ∷ run_shown (using roomy_file))
        × (w'.file ≡ roomy_file)
        × (w'.handle.stream ≡ null))
      (RecordTests.main (some 4096) 1 (calm (using roomy_file)))
unfolding validate_head_file byte num read write
main-leaves_example = main-leaves (some 4096) 0 (using roomy_file) roomy_file-IsRoomy refl

lock_tests-write_example :
    Returns
      (λ _ w'.
        (w'.file ≡ write double.file 16 digits)
        × ((i : ℕ) → 16 ≤ i → i < 26 → w'.locked i ≡ false)
        × (w'.pos ≡ 0))
      ((test_block_lock_writing >> test_block_lock_nonwriting) (calm double))
lock_tests-write_example = lock_tests-write double refl (omega arith) (omega arith)

main-undefined_example : LockTests.main (calm double) ≡ undefined
main-undefined_example = main-undefined double

-- the fourth call fails
main-keeps_example :
    Returns
      (λ n w'. (n ≡ 0) × (w'.file ≡ double.file))
      (LibraryTests.main (some 4096) (record double { faults = disk_full }))
main-keeps_example = main-keeps (some 4096) (record double { faults = disk_full })

main-shows_example :
    Returns
      (λ n w'.
        (n ≡ 0)
        × (w'.printed ≡ head_members double_file)
        × (w'.file ≡ double_file)
        × (w'.handle.stream ≡ null))
      (LibraryTests.main (some 4096) (calm double))
unfolding validate_head_file byte num read write
main-shows_example = main-shows (some 4096) double (omega arith) refl

-- what the members are
main-shows_members : head_members double_file ≡ 72 ∷ 128 ∷ 128 ∷ 0 ∷ 0 ∷ 0 ∷ 0 ∷ 7 ∷ 0 ∷ []
unfolding byte num
main-shows_members = refl

-- 7 records of 8 bytes are all that the block of 128 bytes has room for
single_file-IsAlone : IsAlone single_file (locked_head single 0)
unfolding full_recsize head_size byte num read write
single_file-IsAlone = record {
  inside = omega arith;
  sized = omega arith;
  sound = record { head_fits = omega arith; in_range = omega arith };
  alone = refl;
  unlinked = refl;
  type = omega arith;
  ends = refl;
  chunked = omega arith;
  range = omega arith;
}

main-outgrown_example : RecordTests.main (some 4096) 1 (calm single) ≡ undefined
unfolding validate_head_file full_recsize get_record_capacity byte num read write
main-outgrown_example =
    main-outgrown (some 4096) 0 single single_file-IsAlone (omega arith) (inr (omega arith)) refl
