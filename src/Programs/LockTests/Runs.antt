-- ===== src/Programs/LockTests/Runs.antt =====
-- The runs of src/testl_locks.c without faults: what its tests do on an open handle, and what becomes
-- of them on the handle that they get.
use recnodb.Base.{ℕ, ◌+◌, ◌≤◌, ◌<◌, ◌≡◌, refl, true, false, [], ◌∷◌, arith, ap, lt→ltb, le→leb}
use recnodb.Bytes.{Bytes, byte, zeros, read, write}
use recnodb.Bytes.Laws.{size-write}
use recnodb.Types.{success, live}
use recnodb.Stdio.{World, ok, undefined, Returns, returns, ◌>>◌, off_limit, use_file}
use recnodb.Stdio.Calm.{calm, fopen-calm, fseek_set-calm, fwrite-calm}
use recnodb.Locks.{lock_area}
use recnodb.Locks.Area.{locking}
use recnodb.Locks.Calm.{shown, finished, lock_area-finished}
use recnodb.Blocks.Head.Fields.{size-copy}
use recnodb.Api.{init}
use recnodb.Programs.LockTests.{
  open_lock_file, set_length, digits, test_writing_block_lock_user, test_nonwriting_block_lock_user,
  locked_area, test_block_lock_writing, test_block_lock_nonwriting, main,
}

-- the bytes of the area
abbrev area_bytes : Bytes → Bytes
area_bytes f = write (zeros 10) 0 (read f 16 10)

written_back : (f : Bytes) → read (write (area_bytes f) 0 digits) 0 10 ≡ digits
unfolding read byte write
written_back f = refl

size-area_bytes : (f : Bytes) → (area_bytes f).size ≡ 10
size-area_bytes f = omega (arith, size-copy (zeros 10) 0 f 16 10)

module _ (w : World) (opened : w.handle.stream ≡ live) (position : w.pos < off_limit)
    (inside : 26 ≤ w.file.size) where
  -- the state after the writing test
  after_writing : World
  after_writing =
      finished locked_area test_writing_block_lock_user w true (write (area_bytes w.file) 0 digits)
        (shown locked_area test_writing_block_lock_user
          (locking locked_area test_writing_block_lock_user w))

  writing :
      lock_area locked_area true test_writing_block_lock_user tt (calm w)
      ≡ ok (success, tt) (calm after_writing)
  unfolding test_writing_block_lock_user after_writing
  writing =
      lock_area-finished locked_area test_writing_block_lock_user w
        (shown locked_area test_writing_block_lock_user
          (locking locked_area test_writing_block_lock_user w))
        tt tt true (write (area_bytes w.file) 0 digits) opened (omega arith) position (omega arith)
        (omega arith)
        (rw (le→leb 10 (area_bytes w.file).size (omega (arith, size-area_bytes w.file))))

module _ (v : World) (opened : v.handle.stream ≡ live) (position : v.pos < off_limit)
    (inside : 26 ≤ v.file.size) where
  -- the state after the other test
  after_looking : World
  after_looking = finished locked_area test_nonwriting_block_lock_user v false (area_bytes v.file) (
      shown locked_area test_nonwriting_block_lock_user
        (locking locked_area test_nonwriting_block_lock_user v))

  looking :
      lock_area locked_area true test_nonwriting_block_lock_user tt (calm v)
      ≡ ok (success, tt) (calm after_looking)
  unfolding test_nonwriting_block_lock_user after_looking
  looking =
      lock_area-finished locked_area test_nonwriting_block_lock_user v
        (shown locked_area test_nonwriting_block_lock_user
          (locking locked_area test_nonwriting_block_lock_user v))
        tt tt false (area_bytes v.file) opened (omega arith) position (omega arith) (omega arith)
        (rw (le→leb 10 (area_bytes v.file).size (omega (arith, size-area_bytes v.file))))

-- In a run without faults, with an open handle on a file of 26 bytes or more, the writing test of
-- src/testl_locks.c and then the other one leave the ten digits in the locked area and every
-- other byte as it was; the area is unlocked and the stream stands where it stood.
pub lock_tests-write :
    (w : World)
    → w.handle.stream ≡ live
    → w.pos < off_limit
    → 26 ≤ w.file.size
    → Returns
        (λ _ w'.
          (w'.file ≡ write w.file 16 digits)
          × ((i : ℕ) → 16 ≤ i → i < 26 → w'.locked i ≡ false)
          × (w'.pos ≡ w.pos))
        ((test_block_lock_writing >> test_block_lock_nonwriting) (calm w))
unfolding test_block_lock_writing test_block_lock_nonwriting after_writing after_looking
lock_tests-write w opened position inside =
    let v = after_writing w opened position inside in
    let large : 26 ≤ v.file.size =
      omega (arith, size-write w.file 16 (read (write (area_bytes w.file) 0 digits) 0 10)) in
    rw (writing w opened position inside, looking v opened position large)
      (returns (
        ap (write w.file 16) (written_back w.file),
        λ i h k. rw (le→leb 16 i h, lt→ltb i 26 k),
        refl,
      ))

-- In a run without faults the program src/testl_locks.c is undefined: rnd_init clears the handle,
-- and the opened stream never gets into it, so that rnd_lock_area is called without one.
pub main-undefined : (w : World) → main (calm w) ≡ undefined
unfolding main open_lock_file set_length init test_block_lock_writing lock_area use_file
main-undefined w = rw (
  fopen-calm w true,
  fseek_set-calm (record w { file = zeros 0; pos = 0; tick = w.tick + 1 }) 4095 (omega arith),
  fwrite-calm (record w { file = zeros 0; pos = 4095; tick = w.tick + 1 + 1 }) (88 ∷ []),
)
