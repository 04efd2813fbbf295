-- ===== src/Api/Use.antt =====
-- `rnd_open`: an existing file is opened for a callback, and closed behind it.
use recnodb.Base.{ℕ, ◌%◌, ◌^◌, Bool, Option}
use recnodb.Bytes.{Bytes}
use recnodb.Stdio.{World, Cmd, Returns}
use recnodb.Stdio.Cases.{bind}
use recnodb.Blocks.Open.{cleared_handle}
use recnodb.Blocks.Open.Load.{existing, file_open-keeps}
use recnodb.Blocks.Open.Use.{Establishes, Used, after_open}
use recnodb.Api.{init, get_blocksize, open_database}

-- Whichever calls of the C library fail, rnd_open of an existing file, with a callback that comes
-- back from a valid handle on that file and leaves a file with some property, ends: with success,
-- the file then having the property and the handle being closed; or with RND_INVALID_HEAD_FILE or
-- RND_SYSTEM_ERROR, the file then being as it was.
pub open_database-closes :
    (P : Bytes → Type 0) (user : Cmd (Unit {0})) (stat : Option ℕ) (reclen : ℕ) (readonly : Bool)
    (w : World)
    → Establishes P w.file user
    → Returns (Used P w.file) (open_database stat reclen (existing readonly) user w)
unfolding open_database init
open_database-closes P user stat reclen readonly w establishes =
    bind
      (file_open-keeps readonly (get_blocksize stat) (reclen % 2 ^ 32)
        (record w { handle = cleared_handle }))
      λ e w1 (same, opened). after_open P user w.file e w1 establishes same opened
