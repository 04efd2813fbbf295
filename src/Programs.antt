-- ===== src/Programs.antt =====
-- The programs that exercise the library (src/test_*.c, src/testl_*.c and src/testm_extra.c).
pub mod BlockTests
pub mod RecordTests
pub mod LockTests
pub mod LibraryTests
pub mod ExtraTest
use recnodb.Base.{ℕ, Bool, true, false, Option, none, some, if◌then◌else◌}
use recnodb.Types.{Flags}
use recnodb.Stdio.{Cmd, pure, ◌>>=◌, stat_size}

-- get_file_size of src/test_blocks.c and src/test_flatrecs.c
unfoldable pub get_file_size : Cmd ℕ
get_file_size = do s ← stat_size; pure (elim s [ none ↦ 0 | some n ↦ n ])

-- C's `&&` on calls that have effects
abbrev pub and_also : Cmd Bool → Cmd Bool → Cmd Bool
and_also m n = m >>= λ b. if b then n else pure false

-- the flags 0
abbrev pub no_flags : Flags
no_flags = record { create = false; readonly = false }
