-- ===== src/Tests/Locks.antt =====
-- Tests of src/locks.c, with a callback that overwrites a byte.
use recnodb.Base.{ℕ, ◌+◌, ◌≡◌, refl, true, false, none, some, [], ◌∷◌, arith}
use recnodb.Bytes.{Bytes, zeros, read, write}
use recnodb.Types.{success}
use recnodb.Stdio.{ok, Returns, returns}
use recnodb.Stdio.Calm.{calm}
use recnodb.Blocks.Layout.{BlockLoc}
use recnodb.Locks.{LockCallback, lock_area}
use recnodb.Locks.Area.{Behaves, Outcome, locking, with_area, lock_area-releases}
use recnodb.Locks.Calm.{shown, lock_area-writes}
use recnodb.Tests.Data.{double, disk_full}

abbrev area : BlockLoc
area = record { offset = 16; size = 4 }

-- puts its number in the first byte of the area, and counts on
abbrev stamp : LockCallback ℕ
stamp bloc none n w = ok (false, zeros 0, n) w
stamp bloc (some buffer) n w = ok (true, write buffer 0 (n ∷ []), n + 1) w

stamp-Behaves : Behaves area stamp
stamp-Behaves none s w = returns refl
stamp-Behaves (some b) s w = returns refl

lock_area-releases_example :
    Returns
      (Outcome area stamp true 4 (record double { faults = disk_full }))
      (lock_area area true stamp 4 (record double { faults = disk_full }))
lock_area-releases_example =
    lock_area-releases area stamp stamp-Behaves true 4 (record double { faults = disk_full }) refl
      (omega arith)

-- the bytes of the area, and what the callback makes of them
abbrev bytes_read : Bytes
bytes_read = write (zeros 4) 0 (read double.file 16 4)

abbrev stamped : Bytes
stamped = write bytes_read 0 (4 ∷ [])

lock_area-writes_example :
    Returns
      (λ (e, s1) w'.
        (e ≡ success)
        × (s1 ≡ 5)
        × (w'.file ≡ write double.file 16 (read stamped 0 4))
        × (w'.pos ≡ 0)
        × (w'.locked ≡ with_area area false (locking area stamp double).locked))
      (lock_area area true stamp 4 (calm double))
lock_area-writes_example =
    lock_area-writes area stamp double (shown area stamp (locking area stamp double)) 4 5 true
      stamped refl (omega arith) (omega arith) (omega arith) (omega arith) refl
