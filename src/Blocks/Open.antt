-- ===== src/Blocks/Open.antt =====
-- Opening, closing and using a file (src/blocks.c).
pub mod Load
pub mod Create
pub mod CreateSafe
pub mod Use
use recnodb.Base.{
  ℕ, ◌+◌, ◌-◌, ◌%◌, ◌^◌, Bool, true, false, not, ◌&&◌, none, some, [], ◌∷◌, if◌then◌else◌,
}
use recnodb.Bytes.{Bytes, zeros, read, write}
use recnodb.Types.{
  live, Error, success, bad_parameter, is_success, Flags, Handle, null, Stream, is_set,
}
use recnodb.Stdio.{
  Cmd, ok, pure, ◌>>=◌, ◌>>◌, or_else, within, fseek_set, fread, fwrite, fopen, fclose, get,
  set_handle, use_file,
}
use recnodb.Blocks.Layout.{sizeof_head_file}
use recnodb.Blocks.Validate.{validate_handle}
use recnodb.Blocks.Head.{prep_head_file}
use recnodb.Blocks.Append.{prime_handle, system_failure}

-- `memset(handle, 0, sizeof(RNDH))`
abbrev pub cleared_handle : Handle
cleared_handle = record { stream = null; sys_errno = 0; head_file = zeros sizeof_head_file }

-- `handle->head_file = h`
set_head_file : Bytes → Cmd (Unit {0})
set_head_file h w = ok tt (record w { handle = record w.handle { head_file = h } })

-- `handle->file = f`
pub set_stream : Stream → Cmd (Unit {0})
set_stream s w = ok tt (record w { handle = record w.handle { stream = s } })

-- RND_CREATE: the first block, and its head
create_file : ℕ → ℕ → Cmd Error
unfolding set_head_file
create_file chunk_size rec_size = do
  failed ←
      or_else (fseek_set ((chunk_size + 2 ^ 32 - 1) % 2 ^ 32))
        (or_else (do done ← fwrite (b'0' ∷ []); pure (not done)) (fseek_set 0))
  if failed then system_failure else do
    h ← prep_head_file chunk_size chunk_size rec_size
    set_head_file h
    done ← fwrite (read h 0 sizeof_head_file)
    if done then pure success else system_failure

-- The head of an existing file.
load_file : Cmd Error
unfolding set_head_file
load_file = do
  xs ← fread sizeof_head_file
  λ w. elim xs [
    | none ↦ system_failure w
    | some ys ↦ (set_head_file (write w.handle.head_file 0 ys) >> pure success) w
  ]

-- from `handle->file = f` on
pub finish_open : Error → Cmd Error
unfolding set_stream
finish_open e = if not (is_success e) then fclose >> pure e else do
  set_stream live
  w ← get
  let e = validate_handle (some w.handle)
  if is_success e then pure e else fclose >> pure e

-- blocks_file_open; `given` says that `handle` is not NULL, which `prime_handle` relies on.
unfoldable pub file_open : Flags → ℕ → ℕ → Bool → Cmd Error
unfolding prime_handle create_file load_file finish_open
file_open flags chunk_size rec_size given = do
  within given
  prime_handle
  if not given then pure bad_parameter else do
    set_handle cleared_handle
    opened ← fopen flags.create
    if not opened
        then system_failure
        else (if flags.create then create_file chunk_size rec_size else load_file) >>= finish_open

-- blocks_file_close
unfoldable pub file_close : Bool → Cmd (Unit {0})
unfolding set_stream
file_close given = do
  w ← get
  if given && is_set w.handle.stream then use_file >> fclose >> set_stream null else pure tt

-- blocks_file_use; `user` is the callback applied to its closure.
unfoldable pub file_use : Flags → ℕ → ℕ → Cmd (Unit {0}) → Cmd Error
unfolding file_open file_close
file_use flags chunk_size rec_size user = do
  e ← file_open flags chunk_size rec_size true
  if is_success e then user >> file_close true >> pure e else pure e
