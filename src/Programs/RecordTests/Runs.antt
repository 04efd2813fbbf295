-- ===== src/Programs/RecordTests/Runs.antt =====
-- The runs of src/test_flatrecs.c.
use recnodb.Base.{
  ℕ, suc, ◌+◌, ◌%◌, ◌^◌, ◌≤◌, ◌<◌, ◌≡◌, refl, sym, false, Option, some, arith, ap, List, [], ◌∷◌,
  ◌++◌, ◌∙◌,
}
use mathlib.Core.Path.{subst}
use recnodb.Bytes.{Bytes}
use recnodb.Types.{success, live, null, is_set}
use recnodb.Stdio.{World, ok, Returns, returns, off_limit, print}
use mathlib.Core.List.{append_assoc}
use recnodb.Stdio.Cases.{bind, mono}
use recnodb.Stdio.Calm.{calm, IsCalm}
use recnodb.Blocks.Layout.{BlockLoc, last_recno, member, first_recno}
use recnodb.Blocks.Validate.{validate_head_file}
use recnodb.Blocks.Append.{prime_handle}
use recnodb.Blocks.Append.Extend.{primed}
use recnodb.Blocks.Open.Load.{loaded, file_open-loaded}
use recnodb.Blocks.Open.Use.{used_well}
use recnodb.Flatrecs.{
  full_recsize, get_record_capacity, get_next_offset_lock_callback, get_next_offset,
}
use recnodb.Flatrecs.Place.{IsSound, place, make_offset_to_recno-fits}
use recnodb.Flatrecs.Next.{assert-true, locked_head, telling}
use recnodb.Locks.{LockCallback}
use recnodb.Locks.Area.{locking}
use recnodb.Locks.Calm.{shown, lock_area-finished}
use recnodb.Database.{at_head}
use recnodb.Blocks.Open.{cleared_handle}
use recnodb.Api.{init, open_database, get_blocksize}
use recnodb.Programs.RecordTests.{
  callback_for_test_get_next_offset, test_get_next_offset, main, run_info_test,
}
use recnodb.Programs.RecordTests.Callback.{callback_shown, callback-fits}

-- the head of a table at the start of a file, with room for the next record and for 1500
pub record IsRoomy (f : Bytes) (head : Bytes) : Type 0 where
  pub inside : 72 ≤ f.size
  pub sized : 0 < full_recsize head
  pub sound : IsSound 0 head
  pub few : member head 0 last_recno + 1 < 2 ^ 32
  pub next : member head 0 last_recno < get_record_capacity head head
  pub room : 1500 ≤ get_record_capacity head head

-- where the next record of the table at the start of the file stands
abbrev pub next_place : World → ℕ
next_place w =
    place 0 (locked_head w 0) (member (locked_head w 0) 0 last_recno)
      (full_recsize (locked_head w 0))

-- what flatrecs_get_next_offset prints, with its callback
abbrev pub run_shown : World → List ℕ
run_shown w =
    let head = locked_head w 0 in
    member head 0 first_recno
    ∷ member head 0 last_recno
    ∷ callback_shown head w.file.size (next_place w)

module _ (rounds : ℕ) (w : World) (opened : w.handle.stream ≡ live) (position : w.pos < off_limit)
    (roomy : IsRoomy w.file (locked_head w 0)) where
  open roomy use {inside, sized, sound, few, next, room}

  lock_callback-fits :
      (area : BlockLoc) (v : World)
      → area.offset ≡ 0
      → v.file ≡ w.file
      → get_next_offset_lock_callback
          (suc rounds)
          (callback_for_test_get_next_offset (suc rounds))
          area
          (some (locked_head w 0))
          tt
          (calm v)
        ≡ ok
            (false, locked_head w 0, tt)
            (calm (record v { tick = v.tick + 1 + 1 + 1 + 1; printed = v.printed ++ run_shown w }))
  unfolding get_next_offset_lock_callback print
  lock_callback-fits area v at_start same =
      let head = locked_head w 0 in
      let l = member head 0 last_recno in
      let n : (l + 1) % 2 ^ 32 ≡ l + 1 = omega arith in
      let told = telling head v in
      rw
        (
          n,
          make_offset_to_recno-fits area head l rounds (calm told) sized
              (subst (λ o. IsSound o head) (sym at_start) sound) few next,
          callback-fits rounds head sized sound room (place area.offset head l (full_recsize head))
              told,
          append_assoc,
          at_start,
          same,
        )
        refl

  test_get_next_offset-fits :
      Returns
        (λ _ w'.
          (w'.file ≡ w.file)
          × (w'.handle.stream ≡ live)
          × (w'.printed ≡ w.printed ++ run_shown w)
          × IsCalm w')
        (test_get_next_offset (suc rounds) (calm w))
  unfolding test_get_next_offset get_next_offset prime_handle
  test_get_next_offset-fits =
      let area : BlockLoc = record { offset = 0; size = 64 } in
      let callback : LockCallback (Unit {0}) =
        get_next_offset_lock_callback (suc rounds)
          (callback_for_test_get_next_offset (suc rounds)) in
      let started = record w { handle = primed w.handle } in
      let v = shown area callback (locking area callback started) in
      rw
        (
          assert-true (is_set w.handle.stream) (calm w) (ap is_set opened),
          lock_area-finished area callback started
              (record v { tick = v.tick + 1 + 1 + 1 + 1; printed = w.printed ++ run_shown w }) tt tt
              false (locked_head w 0) opened (omega arith) position (omega arith) (omega arith)
              (lock_callback-fits area v refl refl),
        )
        (returns (refl, opened, refl, refl))

-- In a run without faults, on an existing file whose head passes the check and is that of a table
-- of records of some size, in the range of `off_t`, with room in its own block for the next
-- record and for 1500 records, the program src/test_flatrecs.c ends with 0, with one round or
-- more for each record, leaves the file as it was, and closes it. It prints the sizes of the
-- three heads, the numbers of the first and the last record in the head, the place of the next
-- record, and for the records 20, 80, 1000 and 1500 the place, the number, its product with a
-- record's size on `uint32_t`, and the size of the file.
pub main-leaves :
    (stat : Option ℕ) (rounds : ℕ) (w : World)
    → IsRoomy w.file (locked_head w 0)
    → validate_head_file (some (loaded w.file)) ≡ success
    → Returns
        (λ n w'.
          (n ≡ 0)
          × (w'.printed ≡ w.printed ++ 72 ∷ 64 ∷ 32 ∷ run_shown w)
          × (w'.file ≡ w.file)
          × (w'.handle.stream ≡ null))
        (main stat (suc rounds) (calm w))
unfolding main run_info_test open_database init print
main-leaves stat rounds w roomy valid =
    let u : World = record w { printed = w.printed ++ 72 ∷ 64 ∷ 32 ∷ [] } in
    rw
      (file_open-loaded false (get_blocksize stat) 0 (record u { handle = cleared_handle })
        roomy.inside valid)
      (bind
        (used_well (λ f shown. (f ≡ w.file) × (shown ≡ u.printed ++ run_shown w))
          (test_get_next_offset (suc rounds)) (calm (at_head u))
          (mono (test_get_next_offset-fits rounds (at_head u) refl (omega arith) roomy)
            λ _ w1 (same, opened, shows, quiet). ((same, shows), opened, quiet)))
        λ _ w2 (_, (same, shows), closed, _).
          returns
            (refl, shows ∙ append_assoc w.printed (72 ∷ 64 ∷ 32 ∷ []) (run_shown w), same, closed))
