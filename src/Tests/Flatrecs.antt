-- ===== src/Tests/Flatrecs.antt =====
-- Tests of src/flatrecs.c: seven records of 8 bytes fit the table's own block, twelve the next.
use recnodb.Base.{ℕ, Bool, true, false, [], ◌∷◌, ◌+◌, ◌≤◌, ◌<◌, ◌≡◌, refl, ◌≢◌, arith, ◌%◌}
use recnodb.Bytes.{Bytes, byte, num, read, write}
use recnodb.Types.{success}
use recnodb.Stdio.{Returns, undefined}
use recnodb.Stdio.Calm.{calm}
use recnodb.Blocks.Layout.{BlockLoc}
use recnodb.Flatrecs.{
  get_next_offset, full_recsize, get_record_capacity, chunk_bytes, new_data_block,
  make_offset_to_recno,
}
use recnodb.Flatrecs.Chunks.{chunk_bytes_bounds}
use recnodb.Flatrecs.Search.{Lies, here, further, newblock}
use recnodb.Flatrecs.Place.{make_offset_to_recno-first, make_offset_to_recno-misplaced}
use recnodb.Flatrecs.Outgrown.{make_offset_to_recno-outgrown}
use recnodb.Flatrecs.Growth.{Grew, grown_by}
use recnodb.Flatrecs.Grows.{Ends, last, onward, CanGrow, make_offset_to_recno-grows}
use recnodb.Flatrecs.Next.{locked_head, pure_user, get_next_offset-fits}
use recnodb.Blocks.Validate.{
  validate_handle, validate_head_file, handle_chunk_size, head_file_chunk_size, head_size,
}
use recnodb.Locks.Area.{with_area}
use recnodb.Tests.Data.{head, single, double, double_file, triple_file}

-- the place of the table
abbrev start : BlockLoc
start = record { offset = 0; size = 72 }

chunk_bytes_bounds_example :
    (300 ≤ chunk_bytes 300 128) × (chunk_bytes 300 128 < 428) × (chunk_bytes 300 128 % 128 ≡ 0)
chunk_bytes_bounds_example = chunk_bytes_bounds 300 128 (omega arith) (omega arith)

make_offset_to_recno-first_example :
    Returns
      (λ (e, offset) w'.
        (e ≡ success)
        × (offset ≡ 88)
        × (72 ≤ offset)
        × (offset + 8 ≤ 128)
        × (w'.file ≡ double.file))
      (make_offset_to_recno start (head 128) 3 1 (calm double))
unfolding full_recsize get_record_capacity byte num
make_offset_to_recno-first_example =
    make_offset_to_recno-first start (head 128) (omega arith) 3 1 double
      (record { head_fits = omega arith; in_range = omega arith }) (omega arith) (omega arith)
      (omega arith) (omega arith)

-- record 8 is the first of the second block, record 1 that of the table
record_8 : Lies double_file (head 128) 8 1 (head 128) 0 1 (newblock double_file 128) 128 0
unfolding full_recsize get_record_capacity byte num read write
record_8 =
    further (omega arith) refl (omega arith) (omega arith) (omega arith) (here refl (omega arith))

make_offset_to_recno-misplaced_example :
    Returns
      (λ (e, offset) w'. (e ≡ success) × (offset ≢ 160))
      (make_offset_to_recno start (head 128) 8 2 (calm double))
unfolding full_recsize get_record_capacity byte num read write
make_offset_to_recno-misplaced_example =
    make_offset_to_recno-misplaced start (head 128) (omega arith) 8 2 double refl (omega arith)
      (record { head_fits = omega arith; in_range = omega arith }) (omega arith) (omega arith)
      record_8 (omega arith)

-- with a third block: record 8 is the first of the second block, record 20 that of the third
first_of_second : Lies triple_file (head 128) 8 1 (head 128) 0 1 (newblock triple_file 128) 128 0
unfolding full_recsize get_record_capacity byte num read write
first_of_second =
    further (omega arith) refl (omega arith) (omega arith) (omega arith) (here refl (omega arith))

first_of_third : Lies triple_file (head 128) 20 1 (head 128) 0 2 (newblock triple_file 256) 256 0
unfolding full_recsize get_record_capacity byte num read write
first_of_third =
    further (omega arith) refl (omega arith) (omega arith) (omega arith) (
      further (omega arith) refl (omega arith) (omega arith) (omega arith)
        (here refl (omega arith)))

-- record 20 of a table with one block
make_offset_to_recno-outgrown_example :
    make_offset_to_recno start (head 0) 20 1 (calm single) ≡ undefined
unfolding full_recsize get_record_capacity byte num head_size validate_handle validate_head_file
    handle_chunk_size head_file_chunk_size new_data_block chunk_bytes
make_offset_to_recno-outgrown_example =
    make_offset_to_recno-outgrown start (head 0) 20 0 single (omega arith) (omega arith) refl refl
      (omega arith) (omega arith) (omega arith)
      (record {
        valid = (refl, refl);
        position = omega arith;
        room = omega arith;
        aligned = refl;
        nonempty = omega arith;
        narrow = omega arith;
      })

-- counts the record in the head, and notes its offset
abbrev count_record : Bytes → ℕ → ℕ → Bool × Bytes × ℕ
count_record htable offset s = (true, write htable 60 (1 ∷ []), offset)

get_next_offset-fits_example :
    Returns
      (λ (e, s1) w'.
        (e ≡ success)
        × (s1 ≡ 72)
        × (w'.file ≡ write double.file 0 (read (write (locked_head double 0) 60 (1 ∷ [])) 0 64))
        × (w'.pos ≡ 0)
        × (w'.locked ≡ with_area (record { offset = 0; size = 64 }) false double.locked))
      (get_next_offset 1 (pure_user count_record) true 0 0 (calm double))
unfolding full_recsize get_record_capacity byte num read write
get_next_offset-fits_example =
    get_next_offset-fits count_record 0 0 0 double refl (omega arith) (omega arith) (omega arith)
      (record { head_fits = omega arith; in_range = omega arith }) (omega arith) (omega arith)

-- record 25 lies behind the two blocks, whose records end with number 19
behind_both : Ends double_file (head 128) 25 1 (head 128) 0 1 128 20
unfolding full_recsize get_record_capacity byte num read write
behind_both =
    onward {start = 1} {b = head 128} {q = 128} (omega arith) refl (omega arith) (omega arith)
      (omega arith) (last {start = 8} {b = newblock double_file 128} (omega arith) refl)

double-CanGrow : CanGrow double (head 128) 25 128 20
unfolding full_recsize byte num head_size validate_handle validate_head_file handle_chunk_size
    head_file_chunk_size new_data_block chunk_bytes
double-CanGrow = record {
  ready = record {
    valid = (refl, refl);
    position = omega arith;
    room = omega arith;
    aligned = refl;
    nonempty = omega arith;
    narrow = omega arith;
  };
  inside = omega arith;
  free = refl;
  plain_head = refl;
  chunked = omega arith;
  room = omega arith;
}

make_offset_to_recno-grows_example :
    Returns
      (λ (e, offset) w'.
        (e ≡ success) × (offset ≡ 72) × Grew double 128 (grown_by double (head 128) 25 20) w'.file)
      (make_offset_to_recno start (head 128) 25 3 (calm double))
unfolding full_recsize byte num
make_offset_to_recno-grows_example =
    make_offset_to_recno-grows start (head 128) 25 (omega arith) (omega arith) 3 double behind_both
      double-CanGrow (omega arith)
