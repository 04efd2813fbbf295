-- ===== src/Programs/LibraryTests/Runs.antt =====
-- The runs of src/testl_recnodb.c.
use recnodb.Base.{ℕ, ◌≤◌, ◌≡◌, refl, ap, false, inl, inr, Option, some, ◌++◌, arith}
use recnodb.Bytes.{Bytes, zeros}
use recnodb.Types.{success, null}
use recnodb.Stdio.{World, Returns, returns, print, fclose, use_file}
use recnodb.Stdio.Calm.{calm}
use recnodb.Stdio.Cases.{bind}
use recnodb.Blocks.Layout.{
  bytes_to_data, block_size, next_offset, next_size, chain_offset, block_penultimate, block_last,
  rec_size, last_recno,
}
use recnodb.Blocks.Validate.{validate_head_file}
use recnodb.Blocks.Head.Fields.{member-copy}
use recnodb.Blocks.Open.{cleared_handle, file_close}
use recnodb.Blocks.Open.Load.{loaded, file_open-loaded}
use recnodb.Api.{init, open_database, get_blocksize}
use recnodb.Api.Use.{open_database-closes}
use recnodb.Programs.LibraryTests.{head_members, user_open_handle, test_open_library, main}

test_open_library-keeps :
    (stat : Option ℕ) (w : World) → Returns (λ _ w'. w'.file ≡ w.file) (test_open_library stat w)
unfolding test_open_library print
test_open_library-keeps stat w =
    bind
      (open_database-closes (λ f. f ≡ w.file) user_open_handle stat 0 false w
        (λ v same valid. returns (same, valid.0)))
      λ e w1 u. elim u [ inl (_, same, _) ↦ returns same | inr (_, same) ↦ returns same ]

-- Whichever calls of the C library fail, the program src/testl_recnodb.c on an existing file ends
-- with 0 and leaves the file as it was.
pub main-keeps :
    (stat : Option ℕ) (w : World) → Returns (λ n w'. (n ≡ 0) × (w'.file ≡ w.file)) (main stat w)
unfolding main
main-keeps stat w = bind (test_open_library-keeps stat w) λ _ w1 same. returns (refl, same)

-- The head of a file shows the same members when it has been loaded.
head_members-loaded : (f : Bytes) → head_members (loaded f) ≡ head_members f
head_members-loaded f = rw (
  member-copy (zeros 72) 0 f 0 72 bytes_to_data (omega arith),
  member-copy (zeros 72) 0 f 0 72 block_size (omega arith),
  member-copy (zeros 72) 0 f 0 72 next_offset (omega arith),
  member-copy (zeros 72) 0 f 0 72 next_size (omega arith),
  member-copy (zeros 72) 0 f 0 72 chain_offset (omega arith),
  member-copy (zeros 72) 0 f 0 72 block_penultimate (omega arith),
  member-copy (zeros 72) 0 f 0 72 block_last (omega arith),
  member-copy (zeros 72) 0 f 0 72 rec_size (omega arith),
  member-copy (zeros 72) 0 f 0 72 last_recno (omega arith),
)

-- In a run without faults, on an existing file of 72 bytes or more whose head passes the check,
-- the program src/testl_recnodb.c ends with 0, has printed the nine members of the table's head
-- as they stand at the start of the file, and leaves the file as it was and the handle with no
-- stream.
pub main-shows :
    (stat : Option ℕ) (w : World)
    → 72 ≤ w.file.size
    → validate_head_file (some (loaded w.file)) ≡ success
    → Returns
        (λ n w'.
          (n ≡ 0)
          × (w'.printed ≡ w.printed ++ head_members w.file)
          × (w'.file ≡ w.file)
          × (w'.handle.stream ≡ null))
        (main stat (calm w))
unfolding main open_database init file_close fclose use_file print
main-shows stat w inside valid =
    rw
      (file_open-loaded false (get_blocksize stat) 0 (record w { handle = cleared_handle }) inside
        valid)
      (returns (refl, ap (λ xs. w.printed ++ xs) (head_members-loaded w.file), refl, refl))
