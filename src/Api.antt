-- ===== src/Api.antt =====
-- src/recnodb.c and src/extra.c: the exported functions, and error messages.
pub mod Raw
pub mod Strerror
pub mod Use
use Prim.Native.String.{String}
use recnodb.Base.{
  ℕ, ◌%◌, ◌^◌, Bool, true, Option, none, some, List, [], ◌∷◌, ltb, ◌==◌, not, get_or, if◌then◌else◌,
}
use recnodb.Types.{
  RndData, Error, success, file_not_open, is_success, error_limit, Flags, null, is_set,
}
use recnodb.Stdio.{Cmd, pure, ◌>>=◌, ◌>>◌, fclose, get, set_handle, use_file}
use recnodb.Blocks.Open.{cleared_handle, file_open, file_close}

-- rnd_init
unfoldable pub init : Cmd Error
init = set_handle cleared_handle >> pure success

-- rnd_open_raw; `reclen` is converted to `uint32_t`.
unfoldable pub open_raw : Bool → ℕ → Flags → Cmd Error
unfolding file_open
open_raw given reclen flags = file_open flags 4096 (reclen % 2 ^ 32) given

-- rnd_close_raw
unfoldable pub close_raw : Cmd Error
close_raw = do
  w ← get
  if is_set w.handle.stream
      then use_file >> fclose >> set_handle (record w.handle { stream = null }) >> pure success
      else pure file_not_open

-- get_blocksize; the argument is `st_blksize` of the working directory, `none` if `stat` fails.
unfoldable pub get_blocksize : Option ℕ → ℕ
get_blocksize none = 0
get_blocksize (some n) = n % 2 ^ 32

-- rnd_open; `user` is the callback applied to its closure.
unfoldable pub open_database : Option ℕ → ℕ → Flags → Cmd (Unit {0}) → Cmd Error
unfolding init get_blocksize file_open file_close
open_database stat reclen flags user = do
  init
  e ← file_open flags (get_blocksize stat) (reclen % 2 ^ 32) true
  if is_success e then user >> file_close true >> pure e else pure e

-- rnd_put, rnd_get and rnd_delete do nothing yet; the first two come back with the contents of what
-- they are given pointers to.
unfoldable pub put_record : ℕ → RndData → Cmd (Error × ℕ × RndData)
put_record recno given = pure (success, recno, given)

unfoldable pub get_record : ℕ → RndData → Cmd (Error × RndData)
get_record recno given = pure (success, given)

unfoldable pub delete_record : ℕ → Cmd Error
delete_record recno = pure success

-- rnd_error_strings
abbrev pub error_strings : List String
error_strings =
    "No error" ∷ "Generic Failure" ∷ "System Error" ∷ "Invalid RecNoDB file" ∷ "Bad Parameter"
    ∷ "Missing FHEAD Parameter" ∷ "Attempted to Open Already Opened Database" ∷ "File Not Open"
    ∷ "Extinct Record" ∷ "Attempt to Orphan Block" ∷ "Reached End of Block Chain" ∷ "Lock Failed"
    ∷ "Unlock Failed" ∷ "Lock Read Failed" ∷ "Unlock Write Failed" ∷ "Incomplete Read"
    ∷ "Incomplete Write" ∷ "Invalid Block Size" ∷ "Invalid Block Location" ∷ "Invalid File Head"
    ∷ []

abbrev pub out_of_range : String
out_of_range = "Out-of-range Error Number"

-- What `rnd_strerror` returns: a text of its own, or `strerror` of a number.
pub data Message : Type 0 where
  text : String → Message
  strerror : ℕ → Message

-- rnd_strerror, of the number of an error; `handle` is the `sys_errno` of the handle, `none` for
-- NULL, and `errno` the variable of the C library.
unfoldable pub rnd_strerror : ℕ → Option ℕ → ℕ → Message
rnd_strerror err handle errno =
    if err == 2
    then elim handle [
      | some e ↦ strerror e
      | none ↦ if not (errno == 0) then strerror errno else text out_of_range
    ]
    else if ltb err error_limit
    then text (get_or error_strings err out_of_range)
    else text out_of_range
