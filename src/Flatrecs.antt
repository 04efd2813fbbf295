-- ===== src/Flatrecs.antt =====
-- src/flatrecs.c: where a record of fixed length lies in the chain of blocks of its table.
pub mod Counted
pub mod Chunks
pub mod Search
pub mod Place
pub mod Outgrown
pub mod Growth
pub mod Grows
pub mod Next
pub mod Series
use recnodb.Base.{
  ℕ, zero, suc, ◌+◌, ◌-◌, ◌*◌, ◌/◌, ◌%◌, ◌^◌, Bool, true, false, not, ◌&&◌, none, some, ltb, ◌==◌,
  if◌then◌else◌, [], ◌∷◌,
}
use recnodb.Bytes.{Bytes, zeros}
use recnodb.Types.{Error, success, reached_end_of_block_chain, is_success, is_set}
use recnodb.Stdio.{Cmd, out_of_fuel, pure, ◌>>=◌, ◌>>◌, assert, within, minus_one, get, print}
use recnodb.Blocks.Layout.{
  BlockLoc, BlockDef, bytes_to_data, block_size, rec_size, last_recno, chunk_size, rbt_data,
  sizeof_info_block, sizeof_head_table, member, first_recno,
}
use recnodb.Blocks.Head.{read_block_head, get_next_block_head}
use recnodb.Blocks.Append.{prime_handle, extend_chain}
use recnodb.Locks.{LockCallback, lock_area}

-- flatrecs_full_recsize
unfoldable pub full_recsize : Bytes → ℕ
full_recsize htable = (member htable 0 rec_size + 1) % 2 ^ 32

-- flatrecs_get_record_capacity
unfoldable pub get_record_capacity : Bytes → Bytes → ℕ
get_record_capacity htable hblock =
    let bytes_capacity =
      (member hblock 0 block_size + 2 ^ 32 - member hblock 0 bytes_to_data) % 2 ^ 32 in
    if ltb 0 (full_recsize htable) then bytes_capacity / full_recsize htable else 2 ^ 32 - 1

-- The block that `make_offset_to_recno` asks for: `new_bytes_needed` rounded up to chunks.
unfoldable pub chunk_bytes : ℕ → ℕ → ℕ
chunk_bytes needed chunk =
    (needed / chunk + (if needed % chunk == 0 then 0 else 1)) * chunk % 2 ^ 32

unfoldable pub new_data_block : ℕ → ℕ → ℕ → ℕ → BlockDef
unfolding chunk_bytes
new_data_block recsize recno start_rec chunk = record {
  block_type = rbt_data;
  block_size = chunk_bytes (recsize * ((recno + 2 ^ 32 - start_rec) % 2 ^ 32) % 2 ^ 32) chunk;
  rec_size = 0;
  chunk_size = 0;
  new_block = record { offset = 0; size = 0 };
}

-- The offset of a record: from the table's head, whichever block the record is in.
unfoldable pub record_offset : BlockLoc → Bytes → ℕ → ℕ → ℕ
record_offset bloc iblock local_index recsize =
    (bloc.offset + member iblock 0 bytes_to_data + local_index * recsize % 2 ^ 32) % 2 ^ 64

-- What a round leaves to the next: `start_rec`, `*iblock` and `iblock_offset`.
abbrev pub Again : Type 0
Again = ℕ → Bytes → ℕ → Cmd (Error × ℕ)

-- after blocks_extend_chain; if that has failed, the loop goes on as it stands.
pub enter_new_block : Again → ℕ → Bytes → ℕ → Error × BlockDef → Cmd (Error × ℕ)
enter_new_block again start_rec iblock iblock_offset (e, d) =
    if is_success e
    then (do
      (e, newblock) ← read_block_head d.new_block.offset (zeros sizeof_info_block) sizeof_info_block
      if is_success e then again start_rec newblock d.new_block.offset else pure (e, minus_one))
    else again start_rec iblock iblock_offset

extend_table : Again → ℕ → ℕ → ℕ → Bytes → ℕ → Cmd (Error × ℕ)
unfolding enter_new_block
extend_table again recsize recno start_rec iblock iblock_offset = do
  w ← get
  let chunk = member w.handle.head_file 0 chunk_size
  within (not (chunk == 0))
  r ← extend_chain iblock_offset (new_data_block recsize recno start_rec chunk)
  enter_new_block again start_rec iblock iblock_offset r

leave_block : Again → ℕ → ℕ → ℕ → Bytes → Error × Bytes × ℕ → Cmd (Error × ℕ)
unfolding extend_table
leave_block again recsize recno start_rec iblock (success, newblock, offset) =
    again start_rec newblock offset
leave_block again recsize recno start_rec iblock (reached_end_of_block_chain, _, offset) =
    extend_table again recsize recno start_rec iblock offset
leave_block again recsize recno start_rec iblock (e, _, _) = pure (e, minus_one)

module _ (bloc : BlockLoc) (htable : Bytes) (recno : ℕ) where
  -- the loop of flatrecs_make_offset_to_recno
  unfoldable pub find_block : ℕ → Again
  unfolding leave_block
  find_block zero start_rec iblock iblock_offset = λ w. out_of_fuel
  find_block (suc fuel) start_rec iblock iblock_offset =
      let rec_capacity = get_record_capacity htable iblock in
      let local_index = (recno + 2 ^ 32 - start_rec) % 2 ^ 32 in
      let recsize = full_recsize htable in
      if ltb local_index rec_capacity
      then pure (success, record_offset bloc iblock local_index recsize)
      else (do
        r ← get_next_block_head iblock (zeros sizeof_info_block) iblock_offset
        leave_block (find_block fuel) recsize recno ((start_rec + rec_capacity) % 2 ^ 32) iblock r)

  -- flatrecs_make_offset_to_recno, with `*offset_to_record`
  unfoldable pub make_offset_to_recno : ℕ → Cmd (Error × ℕ)
  unfolding find_block
  make_offset_to_recno fuel = find_block fuel 1 htable bloc.offset

-- flatrecs_use_new_record: given the table's head, the offset of the new record and the closure's
-- contents, it says whether to write the head back, with its new contents and the closure's.
abbrev pub UseNewRecord : Type 0 → Type 0
UseNewRecord S = Bytes → ℕ → S → Cmd (Bool × Bytes × S)

module _ {S : Type 0} (fuel : ℕ) (user : UseNewRecord S) where
  -- flatrecs_get_next_offset_lock_callback; it is called with a buffer.
  unfoldable pub get_next_offset_lock_callback : LockCallback S
  get_next_offset_lock_callback bloc none s = within false >> pure (false, zeros 0, s)
  get_next_offset_lock_callback bloc (some htable) s = do
    print (member htable 0 first_recno ∷ member htable 0 last_recno ∷ [])
    let new_recno = (member htable 0 last_recno + 1) % 2 ^ 32
    (e, offset) ← make_offset_to_recno bloc htable new_recno fuel
    if is_success e then user htable offset s else pure (false, htable, s)

  -- flatrecs_get_next_offset; `given` says that `handle` is not NULL.
  unfoldable pub get_next_offset : Bool → ℕ → S → Cmd (Error × S)
  unfolding get_next_offset_lock_callback
  get_next_offset given table_head s = do
    w ← get
    assert (given && is_set w.handle.stream)
    prime_handle
    lock_area (record { offset = table_head; size = sizeof_head_table }) true
        get_next_offset_lock_callback s
