-- ===== src/Programs/LibraryTests.antt =====
-- src/testl_recnodb.c: a database is opened, and its head shown.
pub mod Runs
use recnodb.Base.{ℕ, Option, List, [], ◌∷◌}
use recnodb.Bytes.{Bytes}
use recnodb.Stdio.{Cmd, pure, ◌>>=◌, ◌>>◌, print, get}
use recnodb.Blocks.Layout.{
  bytes_to_data, block_size, next_offset, next_size, chain_offset, block_penultimate, block_last,
  rec_size, last_recno, member,
}
use recnodb.Api.{open_database}
use recnodb.Programs.{no_flags}

-- the members of a table's head that display_head_table shows
abbrev pub head_members : Bytes → List ℕ
head_members thead =
    member thead 0 bytes_to_data
    ∷ member thead 0 block_size
    ∷ member thead 0 next_offset
    ∷ member thead 0 next_size
    ∷ member thead 0 chain_offset
    ∷ member thead 0 block_penultimate
    ∷ member thead 0 block_last
    ∷ member thead 0 rec_size
    ∷ member thead 0 last_recno
    ∷ []

-- display_head_table
unfoldable pub display_head_table : Bytes → Cmd (Unit {0})
display_head_table thead = print (head_members thead)

-- user_open_handle
unfoldable pub user_open_handle : Cmd (Unit {0})
unfolding display_head_table
user_open_handle = do w ← get; display_head_table w.handle.head_file

-- test_open_library; `stat` is what get_blocksize learns.
unfoldable pub test_open_library : Option ℕ → Cmd (Unit {0})
unfolding user_open_handle
test_open_library stat = open_database stat 0 no_flags user_open_handle >> pure tt

-- main
unfoldable pub main : Option ℕ → Cmd ℕ
unfolding test_open_library
main stat = test_open_library stat >> pure 0
