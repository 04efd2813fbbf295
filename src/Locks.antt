-- ===== src/Locks.antt =====
-- src/locks.c: a lock on an area of the file around a callback.
pub mod Area
pub mod Calm
use recnodb.Base.{ℕ, Bool, true, false, not, ◌||◌, Option, none, some, List, ◌==◌, if◌then◌else◌}
use recnodb.Bytes.{Bytes, zeros, read, write}
use recnodb.Types.{Error, success, fail, lock_failed, lock_read_failed, unlock_write_failed}
use recnodb.Stdio.{
  Cmd, pure, ◌>>=◌, ◌>>◌, or_else, within, fseek_set, ftell, fread, fwrite, set_lock, get, use_file,
}
use recnodb.Blocks.Layout.{BlockLoc}
use recnodb.Blocks.Append.{prime_handle, system_failure}

abbrev pub eagain : ℕ
eagain = 11

abbrev pub eacces : ℕ
eacces = 13

-- lock_callback: given the area, the locked buffer (`none` is NULL) and the closure's contents, it
-- says whether to write the buffer back, with the new contents of the buffer and the closure.
abbrev pub LockCallback : Type 0 → Type 0
LockCallback S = BlockLoc → Option Bytes → S → Cmd (Bool × Bytes × S)

module _ {S : Type 0} (area : BlockLoc) (callback : LockCallback S) where
  -- after the callback
  write_buffer : Bool × Bytes × S → Cmd (Error × S)
  write_buffer (changed, buffer, s) =
      if changed
      then (do
        failed ←
            or_else (fseek_set area.offset)
              (do done ← fwrite (read buffer 0 area.size); pure (not done))
        pure ((if failed then unlock_write_failed else success), s))
      else pure (success, s)

  use_buffer : S → Option (List ℕ) → Cmd (Error × S)
  unfolding write_buffer
  use_buffer s none = pure (lock_read_failed, s)
  use_buffer s (some xs) = callback area (some (write (zeros area.size) 0 xs)) s >>= write_buffer

  -- the branch for `retrieve_data`; an array of length zero is undefined
  pub with_data : S → Cmd (Error × S)
  unfolding use_buffer
  with_data s = do
    within (not (area.size == 0))
    saved ← ftell
    bad ← fseek_set area.offset
    if bad
        then (do e ← system_failure; pure (e, s))
        else (do xs ← fread area.size; r ← use_buffer s xs; fseek_set saved; pure r)

  pub without_data : S → Cmd (Error × S)
  without_data s = do (_, _, s) ← callback area none s; pure (fail, s)

  -- `abandon_lock`
  unlock : Error × S → Cmd (Error × S)
  unlock (e, s) = do
    bad ← set_lock false area.offset area.size
    if bad then (do e ← system_failure; pure (e, s)) else pure (e, s)

  refuse : S → Cmd (Error × S)
  refuse s = do
    w ← get
    if (w.errno == eagain) || (w.errno == eacces)
        then pure (lock_failed, s)
        else (do e ← system_failure; pure (e, s))

-- rnd_lock_area
unfoldable pub lock_area : {S : Type 0} → BlockLoc → Bool → LockCallback S → S → Cmd (Error × S)
unfolding with_data without_data unlock refuse prime_handle
lock_area area retrieve_data callback s = do
  prime_handle
  use_file
  bad ← set_lock true area.offset area.size
  if bad then refuse area callback s else (do
    r ← if retrieve_data then with_data area callback s else without_data area callback s
    unlock area callback r)

-- rnd_lock_add_block, rnd_unlock_add_block, rnd_lock_add_record and rnd_unlock_add_record do
-- nothing yet.
unfoldable pub lock_add_block : ℕ → Cmd Error
lock_add_block tries = pure success

unfoldable pub unlock_add_block : Cmd (Unit {0})
unlock_add_block = pure tt

unfoldable pub lock_add_record : ℕ → Cmd Error
lock_add_record tries = pure success

unfoldable pub unlock_add_record : ℕ → Cmd (Unit {0})
unlock_add_record tries = pure tt
