-- ===== src/Programs/LockTests.antt =====
-- src/testl_locks.c: a locked area that is written, and one that is only looked at.
pub mod Runs
use recnodb.Base.{
  ℕ, ◌-◌, Bool, true, false, not, none, some, List, [], ◌∷◌, leb, ◌==◌, if◌then◌else◌,
}
use recnodb.Bytes.{Bytes, zeros, write}
use recnodb.Stdio.{Cmd, pure, ◌>>=◌, ◌>>◌, within, fseek_set, fwrite, fopen, fclose}
use recnodb.Blocks.Layout.{BlockLoc}
use recnodb.Locks.{LockCallback, lock_area}
use recnodb.Api.{init}

-- the file is made `file_length` bytes long, true for a failing `fseek`; `fflush` has nothing to do
-- where writes are in the file at once.
set_length : ℕ → Cmd Bool
set_length file_length = do
  bad ← fseek_set (file_length - 1)
  if bad then pure true else fwrite (b'X' ∷ []) >> pure false

-- open_lock_file; `user` is the callback applied to its closure.
unfoldable pub open_lock_file : ℕ → Cmd (Unit {0}) → Cmd (Unit {0})
unfolding set_length
open_lock_file file_length user = do
  opened ← fopen (not (file_length == 0))
  if not opened then pure tt else do
    bad ← if file_length == 0 then pure false else set_length file_length
    if bad then pure tt else init >> user >> fclose

-- "0123456789"
abbrev pub digits : List ℕ
digits = 48 ∷ 49 ∷ 50 ∷ 51 ∷ 52 ∷ 53 ∷ 54 ∷ 55 ∷ 56 ∷ 57 ∷ []

-- test_writing_block_lock_user; `memcpy` must stay within the buffer.
unfoldable pub test_writing_block_lock_user : LockCallback (Unit {0})
test_writing_block_lock_user bhandle none closure = within false >> pure (true, zeros 0, closure)
test_writing_block_lock_user bhandle (some locked_buffer) closure = do
  within (leb 10 locked_buffer.size)
  pure (true, write locked_buffer 0 digits, closure)

-- test_nonwriting_block_lock_user; it reads as many bytes as the area has.
unfoldable pub test_nonwriting_block_lock_user : LockCallback (Unit {0})
test_nonwriting_block_lock_user bhandle none closure =
    within (bhandle.size == 0) >> pure (false, zeros 0, closure)
test_nonwriting_block_lock_user bhandle (some locked_buffer) closure = do
  within (leb bhandle.size locked_buffer.size)
  pure (false, locked_buffer, closure)

abbrev pub locked_area : BlockLoc
locked_area = record { offset = 16; size = 10 }

-- test_block_lock_writing
unfoldable pub test_block_lock_writing : Cmd (Unit {0})
test_block_lock_writing = lock_area locked_area true test_writing_block_lock_user tt >> pure tt

-- test_block_lock_nonwriting
unfoldable pub test_block_lock_nonwriting : Cmd (Unit {0})
test_block_lock_nonwriting =
    lock_area locked_area true test_nonwriting_block_lock_user tt >> pure tt

-- main
unfoldable pub main : Cmd ℕ
main =
    open_lock_file 4096 test_block_lock_writing
    >> open_lock_file 0 test_block_lock_nonwriting
    >> pure 0
