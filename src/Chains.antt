-- ===== src/Chains.antt =====
-- src/chains.c: linking a block to another, and walking a chain of blocks.
pub mod Link
pub mod Walk
pub mod Last
pub mod LastSafe
pub mod Safe
pub mod Grow
pub mod Equivalent
pub mod Forward
use recnodb.Base.{
  ℕ, zero, suc, Bool, true, false, not, ◌||◌, Option, none, some, leb, ◌==◌, if◌then◌else◌, List,
}
use recnodb.Bytes.{Bytes, zeros, read, write}
use recnodb.Types.{Error, success, attempt_to_orphan_block}
use recnodb.Stdio.{
  Cmd, out_of_fuel, pure, ◌>>=◌, ◌>>◌, or_else, within, use_file, fseek_set, fwrite,
}
use recnodb.Blocks.Layout.{
  BlockLoc, bytes_to_data, next_offset, sizeof_info_block, sizeof_head_file, member,
}
use recnodb.Blocks.Head.{seek_and_read, seek_and_write}
use recnodb.Blocks.Append.{system_failure, update_link_with_child}

-- `ib_parent` goes back to its place.
write_back : ℕ → Bytes → Cmd Error
write_back parent ib_parent = do
  failed ← seek_and_write parent ib_parent sizeof_info_block
  if failed then system_failure else pure success

link_parent : ℕ → BlockLoc → Option (List ℕ) → Cmd Error
unfolding write_back
link_parent parent new_link none = system_failure
link_parent parent new_link (some xs) =
    let ib_parent = write (zeros sizeof_info_block) 0 xs in
    if not (member ib_parent 0 next_offset == 0)
    then pure attempt_to_orphan_block
    else write_back parent (update_link_with_child ib_parent new_link)

-- chains_add_link; the `memcpy` of BLOCK_LOC is that of `blocks_update_link_with_child`.
unfoldable pub add_link : ℕ → BlockLoc → Cmd Error
unfolding link_parent
add_link parent new_link = do
  use_file
  xs ← seek_and_read parent sizeof_info_block
  link_parent parent new_link xs

-- block_walk_view: given a block's head, its offset and the closure's contents, it says whether to
-- go on, with the new contents of the closure. It leaves the head as it is.
abbrev pub BlockWalkView : Type 0 → Type 0
BlockWalkView S = Bytes → ℕ → S → Cmd (Bool × S)

module _ {S : Type 0} (viewer : BlockWalkView S) where
  -- one round, from a block's bytes; `again` makes the next
  view_block : (ℕ → S → Cmd (Error × S)) → ℕ → S → Option (List ℕ) → Cmd (Error × S)
  view_block again off_block s none = do e ← system_failure; pure (e, s)
  view_block again off_block s (some xs) = do
    let curblock = write (zeros sizeof_head_file) 0 xs
    (more, s) ← viewer curblock off_block s
    let next = member curblock 0 next_offset
    if not more || (next == 0) then pure (success, s) else again next s

  -- the rounds of chains_walk, one for each block
  unfoldable pub rounds : ℕ → ℕ → S → Cmd (Error × S)
  unfolding view_block
  rounds zero off_block s = λ w. out_of_fuel
  rounds (suc fuel) off_block s = do
    xs ← seek_and_read off_block sizeof_head_file
    view_block (rounds fuel) off_block s xs

  -- chains_walk
  unfoldable pub walk : ℕ → ℕ → S → Cmd (Error × S)
  unfolding rounds
  walk fuel off_block s = use_file >> rounds fuel off_block s

-- struct chains_last_link_closure: the contents of `*ib` and `*offset_to_ib`
pub record LastLink : Type 0 where
  pub ib : Bytes
  pub offset_to_ib : ℕ

-- chains_last_link_viewer; `memcpy` must stay within both objects.
unfoldable pub last_link_viewer : BlockWalkView LastLink
last_link_viewer ib offset_to_ib s =
    let n = member ib 0 bytes_to_data in
    if member ib 0 next_offset == 0
    then (do
      within (leb n ib.size)
      within (leb n s.ib.size)
      pure (false, record { ib = write s.ib 0 (read ib 0 n); offset_to_ib = offset_to_ib }))
    else pure (true, s)

-- chains_last_link
unfoldable pub last_link : ℕ → ℕ → LastLink → Cmd (Error × LastLink)
unfolding last_link_viewer walk
last_link = walk last_link_viewer
