-- ===== src/Flatrecs/Next.antt =====
-- `flatrecs_get_next_offset` where the table's own block has room for the next record.
use recnodb.Base.{
  ℕ, suc, ◌+◌, ◌%◌, ◌^◌, ◌≤◌, ◌<◌, ◌≡◌, refl, Bool, true, false, some, arith, if◌then◌else◌, ap, [],
  ◌∷◌, ◌++◌,
}
use recnodb.Bytes.{Bytes, zeros, read, write}
use recnodb.Types.{success, live, is_set}
use recnodb.Stdio.{World, assert, ok, off_limit, Returns, returns, print}
use recnodb.Stdio.Calm.{calm}
use recnodb.Blocks.Layout.{BlockLoc, last_recno, member, first_recno}
use recnodb.Locks.{LockCallback}
use recnodb.Locks.Area.{with_area, with_area-with_area, locking}
use recnodb.Locks.Calm.{shown, finished, lock_area-finished}
use recnodb.Blocks.Append.{prime_handle}
use recnodb.Blocks.Append.Extend.{primed}
use recnodb.Flatrecs.{
  full_recsize, get_record_capacity, UseNewRecord, get_next_offset_lock_callback, get_next_offset,
}
use recnodb.Flatrecs.Place.{IsSound, place, make_offset_to_recno-fits}

pub assert-true : (b : Bool) (w : World) → b ≡ true → assert b w ≡ ok tt w
assert-true true w h = refl
assert-true false w h = cc (h)

-- the table's head as the lock shows it
abbrev pub locked_head : World → ℕ → Bytes
locked_head w table_head = write (zeros 64) 0 (read w.file table_head 64)

-- the state when the numbers in the head have been printed
abbrev pub telling : Bytes → World → World
telling htable w = record w {
  printed = w.printed ++ member htable 0 first_recno ∷ member htable 0 last_recno ∷ [];
}

module _ {S : Type 0} (step : Bytes → ℕ → S → Bool × Bytes × S) where
  -- a callback that works on the head and its closure alone
  abbrev pub pure_user : UseNewRecord S
  pure_user htable offset s w = ok (step htable offset s) w

  callback-fits :
      (bloc : BlockLoc) (htable : Bytes) (rounds : ℕ) (s : S) (w : World)
      → 0 < full_recsize htable
      → IsSound bloc.offset htable
      → member htable 0 last_recno + 1 < 2 ^ 32
      → member htable 0 last_recno < get_record_capacity htable htable
      → get_next_offset_lock_callback (suc rounds) pure_user bloc (some htable) s w
        ≡ ok
            (step htable
              (place bloc.offset htable (member htable 0 last_recno) (full_recsize htable))
              s)
            (telling htable w)
  unfolding get_next_offset_lock_callback print
  callback-fits bloc htable rounds s w pos sound small fits =
      let n : (member htable 0 last_recno + 1) % 2 ^ 32 ≡ member htable 0 last_recno + 1 =
        omega arith in
      rw (
        n,
        make_offset_to_recno-fits bloc htable (member htable 0 last_recno) rounds (telling htable w)
            pos sound small fits,
      )

  module _ (rounds table_head : ℕ) (s : S) (w : World) where
    -- what the callback makes of the head and the place
    abbrev pub answer : Bool × Bytes × S
    answer =
        let htable = locked_head w table_head in
        step htable (place table_head htable (member htable 0 last_recno) (full_recsize htable)) s

    -- the state when the head is unlocked
    abbrev pub counted : World
    counted =
        let area : BlockLoc = record { offset = table_head; size = 64 } in
        let callback : LockCallback S = get_next_offset_lock_callback (suc rounds) pure_user in
        let started = record w { handle = primed w.handle } in
        finished area callback started answer.0 answer.1
          (telling (locked_head w table_head) (shown area callback (locking area callback started)))

  module _ (rounds table_head : ℕ) (s : S) (w : World) (opened : w.handle.stream ≡ live)
      (hp : w.pos < off_limit) (inside : table_head + 64 ≤ w.file.size)
      (pos : 0 < full_recsize (locked_head w table_head))
      (sound : IsSound table_head (locked_head w table_head))
      (small : member (locked_head w table_head) 0 last_recno + 1 < 2 ^ 32)
      (fits : member (locked_head w table_head) 0 last_recno
        < get_record_capacity (locked_head w table_head) (locked_head w table_head)) where
    pub get_next_offset-counted :
        get_next_offset (suc rounds) pure_user true table_head s (calm w)
        ≡ ok (success, (answer rounds table_head s w).2) (calm (counted rounds table_head s w))
    unfolding get_next_offset prime_handle
    get_next_offset-counted =
        let htable = locked_head w table_head in
        let area : BlockLoc = record { offset = table_head; size = 64 } in
        let callback : LockCallback S = get_next_offset_lock_callback (suc rounds) pure_user in
        let started = record w { handle = primed w.handle } in
        let v = shown area callback (locking area callback started) in
        rw (assert-true (is_set w.handle.stream) (calm w) (ap is_set opened)) (
          lock_area-finished area callback started (telling htable v) s
            (answer rounds table_head s w).2 (answer rounds table_head s w).0
            (answer rounds table_head s w).1 opened (omega (arith, sound.in_range)) hp (omega arith)
            inside (callback-fits area htable rounds s (calm v) pos sound small fits))

  -- In a run without faults on an open file, with the table's head in the file, its block no
  -- shorter than the head and in the range of `off_t`, a record's size that is not zero, room for
  -- one more record in that block, and a callback that works on the head and its closure alone,
  -- flatrecs_get_next_offset succeeds and gives the callback the head in the file and the place
  -- behind the last record. If the callback says so, the head goes back to the file as the
  -- callback left it; in either case the head is unlocked and the stream stands where it stood.
  pub get_next_offset-fits :
      (rounds table_head : ℕ) (s : S) (w : World)
      → w.handle.stream ≡ live
      → w.pos < off_limit
      → table_head + 64 ≤ w.file.size
      → 0 < full_recsize (locked_head w table_head)
      → IsSound table_head (locked_head w table_head)
      → member (locked_head w table_head) 0 last_recno + 1 < 2 ^ 32
      → member (locked_head w table_head) 0 last_recno
        < get_record_capacity (locked_head w table_head) (locked_head w table_head)
      → let htable = locked_head w table_head in
        let new = place table_head htable (member htable 0 last_recno) (full_recsize htable) in
        let (changed, buffer, s') = step htable new s in
        Returns
          (λ (e, s1) w'.
            (e ≡ success)
            × (s1 ≡ s')
            × (w'.file ≡ (if changed then write w.file table_head (read buffer 0 64) else w.file))
            × (w'.pos ≡ w.pos)
            × (w'.locked ≡ with_area (record { offset = table_head; size = 64 }) false w.locked))
          (get_next_offset (suc rounds) pure_user true table_head s (calm w))
  get_next_offset-fits rounds table_head s w opened hp inside pos sound small fits =
      rw (get_next_offset-counted rounds table_head s w opened hp inside pos sound small fits) (
        returns (
          refl,
          refl,
          refl,
          refl,
          with_area-with_area (record { offset = table_head; size = 64 }) w.locked,
        ))
