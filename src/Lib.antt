-- ===== src/Lib.antt =====
-- recnodb keeps records of fixed length in a file of blocks. A block starts with a head (INFO_BLOCK)
-- that says its type, its size, the size of the head and where its successor in a chain of blocks is.
-- The head of a table adds members for the chain and for the records, and the head of the file a magic
-- number and the chunk size, of which every block's place is a multiple. A table is a chain that starts
-- with the table's head; its records lie behind the heads of the blocks.
--
-- How the parts interact: an operation works through a handle (src/recnodb.h), which has the open
-- stream, the last error of the system and a copy of the file's head. src/blocks.c opens the file, reads
-- and writes heads, and adds blocks at the end of the file and of a chain. src/chains.c links and walks
-- chains. src/locks.c locks an area of the file around a callback, which may change the bytes of the
-- area. src/flatrecs.c finds the place of a record in the chain of its table, adding a block if there is
-- none for it, and does so for the next record under a lock on the table's head. src/recnodb.c and
-- src/extra.c have the exported functions and the error messages.
--
-- Files and what they model:
--   Base       numbers, tests and lists: shared helpers
--   Bytes      byte arrays: the file, C objects and buffers; Bytes/Laws and Bytes/Numbers have what a
--              read sees after a write, and integers as bytes
--   Types      src/recnodb.h: RND_ERROR, RND_FLAGS, RNDH
--   Stdio      the calls of the C library: fopen, fclose, fseek, ftell, fread, fwrite, fcntl(F_SETLK),
--              assert, errno, stat. Stdio/Calm has each call in a run without faults, Stdio/Cases each way
--              in which it can end
--   Blocks     src/blocks.h and src/blocks.c: Blocks/Layout the structs, Blocks/Validate the checks,
--              Blocks/Head block heads (blocks_read_block_head, blocks_get_next_block_head,
--              blocks_write_block_head, blocks_set_info_block, blocks_prep_head_file), Blocks/Append the
--              growth (blocks_extend_file, blocks_append_block, blocks_extend_chain), Blocks/Open
--              opening and closing (blocks_file_open, blocks_file_close, blocks_file_use)
--   Chains     src/chains.c: chains_add_link, chains_walk, chains_last_link
--   Locks      src/locks.c: rnd_lock_area
--   Flatrecs   src/flatrecs.c: flatrecs_full_recsize, flatrecs_get_record_capacity,
--              flatrecs_make_offset_to_recno, flatrecs_get_next_offset; Flatrecs/Series several
--              calls of it in a row
--   Api        src/recnodb.c and src/extra.c: the rnd_ functions, prime_handle being in Blocks/Append;
--              Api/Raw sequences of rnd_open_raw and rnd_close_raw on one handle
--   Database   the abstract view of a file as the list of its linked blocks, and what the calls of the
--              library make of it: Database/Add one block, Database/Steps any sequence of calls,
--              Database/Progress calls that add blocks
--   Programs   the programs that exercise the library: Programs/BlockTests src/test_blocks.c,
--              Programs/RecordTests src/test_flatrecs.c, Programs/LockTests src/testl_locks.c,
--              Programs/LibraryTests src/testl_recnodb.c, Programs/ExtraTest src/testm_extra.c
--   Tests      small files and runs on them
-- A function keeps the name it has in C, without the prefix of its file. A block of statements of a long
-- function is a definition of its own, in the order of the code.
--
-- State: a run passes a World on, which has the file's bytes, the position of the stream, the locks of
-- the process, errno and the handle. A function returns the value of the C function with the new
-- contents of its [out] parameters and of closures. Four ways to end are told apart: a result, a failed
-- assertion (`aborted`), undefined behaviour of C (`undefined`) and a loop that has used up its rounds
-- (`out_of_fuel`). World has a list of faults: for each call of the library whether it fails, with which
-- errno, and how many bytes a failing fwrite had put out. A statement for every World is one for every
-- combination of failing calls. The stream of a handle is none, one that is open, or one that has been
-- closed; a call through the handle is undefined but for an open one. A handle is called valid if it
-- passes blocks_validate_handle and its stream is open. World also has the numbers that src/flatrecs.c,
-- src/test_flatrecs.c, src/testl_recnodb.c and src/testm_extra.c print, in order. A World is calm if no
-- call of it fails.
--
-- Numbers: uint16_t, uint32_t and uint64_t are numbers with the wrap-around written out. off_t is its
-- 64-bit pattern, numbers from 2 ^ 63 on being negative. The structs lie in memory and in the file as in
-- the little-endian layout of `-m64`, with which the Makefile builds: INFO_BLOCK has 32 bytes,
-- RND_HEAD_TABLE 64 and RND_HEAD_FILE 72.
--
-- Bounds and fuel: chains_walk and the loop of flatrecs_make_offset_to_recno recurse on a number of
-- rounds. For a chain of n blocks n rounds are enough, a record that is found in the k-th block of its
-- chain needs k, and one for which a block is added behind the k-th needs k + 1; a chain with a cycle
-- has no number that is enough. src/test_blocks.c needs five, as its longest chain has five blocks.
--
-- What is not modelled: buffering in stdio, so that a write is in the file at once, and a failing read
-- leaves its buffer as it was, at which no caller looks; other processes, of which a lock that is refused
-- is all that is seen; the path, so that there is one file, for the three of src/test_blocks.c the one
-- in use, and the mode of opening but for truncation; other output of printf; the values of fileno and
-- getpid; areas to lock with a negative offset or length.
-- EAGAIN, EACCES and EINVAL have the numbers they have on Linux. src/inlines.h is included nowhere and
-- names types that do not exist, and src/table.h declares nothing. src/testm_pages.c includes a file that
-- the repository does not have.
pub mod Base
pub mod Bytes
pub mod Types
pub mod Stdio
pub mod Blocks
pub mod Chains
pub mod Locks
pub mod Flatrecs
pub mod Api
pub mod Database
pub mod Programs
pub mod Tests
