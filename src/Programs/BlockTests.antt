-- ===== src/Programs/BlockTests.antt =====
-- src/test_blocks.c: files are created, opened, extended by blocks and walked.
pub mod NewFile
pub mod Growth
pub mod Safe
pub mod Uses
pub mod Main
use recnodb.Base.{ℕ, Bool, true, false, not, Option, ◌==◌, if◌then◌else◌}
use recnodb.Bytes.{Bytes, zeros}
use recnodb.Types.{Handle, is_success, live}
use recnodb.Stdio.{Cmd, pure, ◌>>=◌, ◌>>◌, fopen, fclose, set_handle}
use recnodb.Blocks.Layout.{
  BlockDef, block_type, bytes_to_data, block_size, magic, chunk_size, rbt_generic, rbt_data,
  rbt_file, magic_bytes, sizeof_head_file, with_member,
}
use recnodb.Blocks.Append.{extend_file, append_block}
use recnodb.Blocks.Open.{file_open, file_close, file_use}
use recnodb.Chains.{BlockWalkView, LastLink, add_link, walk, last_link}
use recnodb.Api.{get_blocksize}
use recnodb.Programs.{get_file_size, and_also, no_flags}

-- make_bogus_head_file; `stat` is what get_blocksize learns, here and below.
unfoldable pub make_bogus_head_file : Option ℕ → ℕ → Bytes → Bytes
make_bogus_head_file stat blocksize head_file =
    let h = with_member head_file 0 chunk_size (get_blocksize stat) in
    let h = with_member h 0 magic magic_bytes in
    let h = with_member h 0 block_type rbt_file in
    let h = with_member h 0 bytes_to_data sizeof_head_file in with_member h 0 block_size blocksize

-- `RNDH handle = {f}` with a bogus head
abbrev pub bogus_handle : Option ℕ → ℕ → Handle
bogus_handle stat blocksize = record {
  stream = live;
  sys_errno = 0;
  head_file = make_bogus_head_file stat blocksize (zeros sizeof_head_file);
}

-- test_basic_block
unfoldable pub test_basic_block : Option ℕ → ℕ → Cmd Bool
test_basic_block stat blocksize = do
  opened ← fopen true
  if not opened then pure false else do
    set_handle (bogus_handle stat blocksize)
    err ← extend_file blocksize
    if not (is_success err)
        then pure false
        else do fclose; size ← get_file_size; pure (size == blocksize)

-- What test_generic_block and test_newfile_block do alike: a block in a new file.
unfoldable pub test_new_block : Option ℕ → BlockDef → Cmd Bool
test_new_block stat rbd = do
  opened ← fopen true
  if not opened then pure false else do
    set_handle (bogus_handle stat 4096)
    (err, _) ← append_block rbd
    fclose
    pure (is_success err)

-- the definition of a block whose members for records and chunks are not given
abbrev pub plain_def : ℕ → ℕ → BlockDef
plain_def type size = record {
  block_type = type;
  block_size = size;
  rec_size = 0;
  chunk_size = 0;
  new_block = record { offset = 0; size = 0 };
}

-- test_generic_block
unfoldable pub test_generic_block : Option ℕ → Cmd Bool
unfolding test_new_block
test_generic_block stat = test_new_block stat (plain_def rbt_generic 4096)

-- `sizeof(Person)`, which is packed
abbrev pub sizeof_person : ℕ
sizeof_person = 49

-- the block of test_newfile_block
abbrev pub newfile_def : BlockDef
newfile_def = record (plain_def rbt_file 4096) { rec_size = sizeof_person; chunk_size = 4096 }

-- test_newfile_block
unfoldable pub test_newfile_block : Option ℕ → Cmd Bool
unfolding test_new_block
test_newfile_block stat = test_new_block stat newfile_def

-- test_blocks_file_open
unfoldable pub test_blocks_file_open : Cmd Bool
test_blocks_file_open = do
  err ← file_open no_flags 0 0 true
  if is_success err then file_close true >> pure true else pure false

-- test_blocks_file_use; `user` is the callback applied to NULL.
unfoldable pub test_blocks_file_use : Cmd (Unit {0}) → Cmd Bool
test_blocks_file_use user = do err ← file_use no_flags 0 0 user; pure (is_success err)

-- simple_file_user
abbrev pub simple_file_user : Cmd (Unit {0})
simple_file_user = pure tt

-- add_block_file_user; `ifile` has what stands in the two objects before they are written.
unfoldable pub add_block_file_user : ℕ → LastLink → Cmd (Unit {0})
add_block_file_user fuel ifile = do
  (err, bdef) ← append_block (plain_def rbt_data 4096)
  if not (is_success err) then pure tt else do
    (err, found) ← last_link fuel 0 ifile
    if not (is_success err) then pure tt else add_link found.offset_to_ib bdef.new_block >> pure tt

-- walk_block_user_callback
abbrev pub walk_block_user_callback : BlockWalkView (Unit {0})
walk_block_user_callback ib offset_to_ip closure = pure (true, closure)

-- walk_block_user
unfoldable pub walk_block_user : ℕ → Cmd (Unit {0})
walk_block_user fuel = walk walk_block_user_callback fuel 0 tt >> pure tt

-- The test goes on with another file, which holds `f`.
abbrev pub on_file : Bytes → Cmd Bool → Cmd Bool
on_file f test w = test (record w { file = f })

-- the tests on the file that is used again
unfoldable pub reuse_tests : Option ℕ → ℕ → LastLink → Cmd Bool
reuse_tests stat fuel ifile =
    let add = test_blocks_file_use (add_block_file_user fuel ifile) in
    and_also (test_newfile_block stat) (
      and_also test_blocks_file_open (
        and_also (test_blocks_file_use simple_file_user) (
          and_also add (
            and_also add
              (and_also add (and_also add (test_blocks_file_use (walk_block_user fuel))))))))

-- main; "basic2.db" holds `f2` and "basic3.db" `f3` before it, and "basic.db" what is in the state.
unfoldable pub main : Option ℕ → ℕ → LastLink → Bytes → Bytes → Cmd ℕ
unfolding reuse_tests
main stat fuel ifile f2 f3 = do
  all ←
      and_also (test_basic_block stat 4096)
        (and_also (on_file f2 (test_generic_block stat)) (on_file f3 (reuse_tests stat fuel ifile)))
  pure (if all then 1 else 0)
