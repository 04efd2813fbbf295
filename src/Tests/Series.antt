-- ===== src/Tests/Series.antt =====
-- A test of records that are asked for one after the other.
use recnodb.Base.{◌≤◌, ◌≡◌, refl, [], ◌∷◌, arith}
use recnodb.Bytes.{byte, num, read, write}
use recnodb.Types.{success}
use recnodb.Stdio.{Returns}
use recnodb.Stdio.Calm.{calm}
use recnodb.Flatrecs.{full_recsize}
use recnodb.Flatrecs.Next.{locked_head}
use recnodb.Flatrecs.Counted.{IsTable, SameBeside}
use recnodb.Flatrecs.Series.{next_records, next_records-side_by_side}
use recnodb.Tests.Data.{single, single_file}

single-IsTable : IsTable (locked_head single 0) 72 128 8 0
unfolding full_recsize byte num read write
single-IsTable = record { at = refl; block = refl; record_size = refl; records = refl }

next_records-side_by_side_example :
    Returns
      (λ (e, all) w'.
        (e ≡ success)
        × (all ≡ 72 ∷ 80 ∷ 88 ∷ [])
        × (96 ≤ 128)
        × IsTable (locked_head w' 0) 72 128 8 3
        × SameBeside 0 single_file w'.file
        × (w'.pos ≡ 0))
      (next_records 1 0 3 [] (calm single))
next_records-side_by_side_example =
    next_records-side_by_side 0 0 72 128 8 (omega arith) (omega arith) (omega arith) 3 [] single 0
      refl (omega arith) (omega arith) single-IsTable (omega arith) (omega arith)
