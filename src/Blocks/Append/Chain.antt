-- ===== src/Blocks/Append/Chain.antt =====
-- `blocks_extend_chain` in a run without faults.
use recnodb.Base.{ℕ, ◌+◌, ◌≤◌, ◌<◌, ◌≡◌, refl, ◌≢◌, ap, ◌∙◌, ◌⊎◌, arith, ne→==, lt→leb, le→ltb}
use recnodb.Bytes.{Bytes, byte, read, write, Agree}
use recnodb.Bytes.Laws.{length-read, byte-write_out, Agree-write_after, Agree-byte}
use recnodb.Types.{success, attempt_to_orphan_block}
use recnodb.Stdio.{World, ok, undefined, Returns, returns, and_then, pure}
use recnodb.Stdio.Cases.{use_file-opened}
use recnodb.Stdio.Calm.{calm, fseek_set-calm}
use recnodb.Blocks.Layout.{BlockDef, info_at, block_type, next_offset, member}
use recnodb.Blocks.Validate.{head_size}
use recnodb.Blocks.Head.{write_block_head, seek_and_write}
use recnodb.Blocks.Head.Fields.{info_at-Agree, info_at-copy, size-copy}
use recnodb.Blocks.Head.Transfer.{write_block_head-calm}
use recnodb.Blocks.Append.{
  extend_chain, link_to, update_link_with_child, block_points_to_child_test,
}
use recnodb.Blocks.Append.Block.{
  Ready, appended, placed, Agree-appended, size-appended, info_at-appended,
}
use recnodb.Blocks.Append.NewHead.{IsPlain, fresh_info}
use recnodb.Blocks.Append.Link.{linked, info_at-update_link, size-update_link}
use recnodb.Blocks.Append.ChainStart.{
  start, parent, after_read, start-Ready, size-parent, Agree-parent, member-parent,
  extend_chain-read,
}

module _ (w : World) (d : BlockDef) (ready : Ready w d) (plain : IsPlain d) (chain_end : ℕ)
    (inside : chain_end + 32 ≤ w.file.size)
    (before : chain_end + 32 < w.file.size + d.block_size) where
  open ready use {position, room, nonempty, narrow}

  -- In a run without faults, with a valid handle, positions in the range of `off_t`, the file's
  -- end at a multiple of the chunk size and 32 bytes or more asked for, blocks_extend_chain at a
  -- link that has a successor reports RND_ATTEMPT_TO_ORPHAN_BLOCK and leaves the link and all old
  -- bytes alone, but the new block, neither a table nor a file, stays in the file.
  pub extend_chain-orphan :
      member w.file chain_end next_offset ≢ 0
      → 32 ≤ d.block_size
      → Returns
          (λ (e, d') w'.
            (e ≡ attempt_to_orphan_block)
            × (d' ≡ placed w d)
            × (w'.file.size ≡ w.file.size + d.block_size)
            × Agree w'.file 0 w.file 0 w.file.size)
          (extend_chain chain_end d (calm w))
  unfolding link_to block_points_to_child_test after_read start
  extend_chain-orphan taken roomy =
      rw
        (
          (extend_chain-read w d ready plain chain_end inside before),
          (member-parent w d ready plain chain_end inside before) next_offset (omega arith),
          ne→== _ 0 taken,
        )
        (returns (
          refl,
          refl,
          size-appended (start w) d (start-Ready w d ready plain chain_end inside before) plain
              roomy,
          Agree-appended (start w) d (start-Ready w d ready plain chain_end inside before) plain
              w.file.size (omega arith) (omega arith),
        ))

  module _ (free : member w.file chain_end next_offset ≡ 0) where
    -- the head that is written back
    unfoldable pub relinked : Bytes
    relinked = update_link_with_child (parent w d chain_end) (placed w d).new_block

    size-relinked : relinked.size ≡ 32
    unfolding relinked
    size-relinked =
        size-update_link (parent w d chain_end) (placed w d).new_block
          (omega (arith, (size-parent w d ready plain chain_end inside before)))
        ∙ (size-parent w d ready plain chain_end inside before)

    info_at-relinked : info_at relinked 0 ≡ linked (info_at w.file chain_end) (placed w d).new_block
    unfolding relinked
    info_at-relinked =
        info_at-update_link (parent w d chain_end) (placed w d).new_block
          (omega (arith, (size-parent w d ready plain chain_end inside before))) (omega arith)
          (omega arith)
        ∙ ap (λ b. linked b (placed w d).new_block)
            (info_at-Agree (parent w d chain_end) 0 w.file chain_end
              (Agree-parent w d ready plain chain_end inside before))

    block_type-relinked : member relinked 0 block_type ≡ member w.file chain_end block_type
    unfolding info_at
    block_type-relinked = ap (λ b. b.block_type) info_at-relinked

    extend_chain-write :
        extend_chain chain_end d (calm w)
        ≡ and_then
            (write_block_head chain_end relinked 32 (calm (after_read w d chain_end)))
            (λ e. pure (e, placed w d))
    unfolding link_to block_points_to_child_test relinked
    extend_chain-write =
        (extend_chain-read w d ready plain chain_end inside before)
        ∙ rw (
          (member-parent w d ready plain chain_end inside before) next_offset (omega arith),
          free,
        )

    -- In a run without faults, with a valid handle, positions in the range of `off_t` and the
    -- file's end at a multiple of the chunk size, blocks_extend_chain of a plain block at a table
    -- or a file without successor is undefined: it writes more bytes than the buffer has that it
    -- has read the head into.
    pub extend_chain-table :
        32 < head_size (member w.file chain_end block_type)
        → extend_chain chain_end d (calm w) ≡ undefined
    unfolding write_block_head seek_and_write after_read start
    extend_chain-table big =
        extend_chain-write
        ∙ rw (
          use_file-opened (calm (after_read w d chain_end)) ready.valid.0,
          block_type-relinked,
          le→ltb (head_size (member w.file chain_end block_type)) 32 (omega arith),
          fseek_set-calm (after_read w d chain_end) chain_end (omega arith),
          lt→leb (head_size (member w.file chain_end block_type)) relinked.size
              (omega (arith, size-relinked)),
        )

    module _ (parent_plain : head_size (member w.file chain_end block_type) ≡ 32)
        (roomy : 32 ≤ d.block_size) where
      unfoldable pub final : World
      unfolding after_read start
      final = record (after_read w d chain_end) {
        file = write (appended (start w) d).file chain_end (read relinked 0 32);
        pos = chain_end + 32;
        tick = (after_read w d chain_end).tick + 1 + 1;
      }

      pub extend_chain-final :
          extend_chain chain_end d (calm w) ≡ ok (success, placed w d) (calm final)
      unfolding final after_read start
      extend_chain-final =
          extend_chain-write
          ∙ rw (
              write_block_head-calm (after_read w d chain_end) chain_end (omega arith) relinked 32
                ready.valid.0 (omega (arith, ap head_size block_type-relinked))
                (omega (arith, size-relinked)))

      pub size-final : final.file.size ≡ w.file.size + d.block_size
      unfolding final start
      size-final = omega (
        arith,
        size-copy (appended (start w) d).file chain_end relinked 0 32,
        size-appended (start w) d (start-Ready w d ready plain chain_end inside before) plain roomy,
      )

      pub info_at-final :
          info_at final.file chain_end
          ≡ linked (info_at w.file chain_end) (record { offset = w.file.size; size = d.block_size })
      unfolding final start
      info_at-final =
          info_at-copy (appended (start w) d).file chain_end relinked 0 32 (omega arith)
          ∙ info_at-relinked

      pub info_at-new : info_at final.file w.file.size ≡ fresh_info d
      unfolding final start
      info_at-new =
          info_at-Agree final.file w.file.size (appended (start w) d).file w.file.size (
            Agree-write_after (appended (start w) d).file chain_end (read relinked 0 32) w.file.size
              32 (omega (arith, length-read relinked 0 32))
              (omega (
                arith,
                size-appended (start w) d (start-Ready w d ready plain chain_end inside before)
                    plain roomy,
              )))
          ∙ info_at-appended (start w) d (start-Ready w d ready plain chain_end inside before) plain

      pub byte-final :
          (i : ℕ)
          → i < w.file.size
          → (i < chain_end) ⊎ (chain_end + 32 ≤ i)
          → byte final.file i ≡ byte w.file i
      unfolding final start
      byte-final i h out =
          byte-write_out (appended (start w) d).file chain_end (read relinked 0 32) i
            (omega (
              arith,
              size-appended (start w) d (start-Ready w d ready plain chain_end inside before) plain
                  roomy,
            ))
            (omega (arith, length-read relinked 0 32))
          ∙ Agree-byte (appended (start w) d).file w.file w.file.size i
              (Agree-appended (start w) d (start-Ready w d ready plain chain_end inside before)
                plain w.file.size (omega arith) (omega arith))
              h

      -- In a run without faults, with a valid handle, positions in the range of `off_t`, the
      -- file's end at a multiple of the chunk size and 32 bytes or more asked for, at a link in
      -- the file that has no successor and is neither a table nor a file, blocks_extend_chain of
      -- a block that is neither succeeds: the link gets the new block at the old end of the file
      -- as its successor and keeps the rest of its head, the new block has a fresh head, and no
      -- other old byte of the file changes.
      pub extend_chain-links :
          Returns
            (λ (e, d') w'.
              (e ≡ success)
              × (d' ≡ placed w d)
              × (w'.file.size ≡ w.file.size + d.block_size)
              × (info_at w'.file chain_end
                  ≡ linked
                      (info_at w.file chain_end)
                      (record { offset = w.file.size; size = d.block_size }))
              × (info_at w'.file w.file.size ≡ fresh_info d)
              × ((i : ℕ)
                  → i < w.file.size
                  → (i < chain_end) ⊎ (chain_end + 32 ≤ i)
                  → byte w'.file i ≡ byte w.file i))
            (extend_chain chain_end d (calm w))
      extend_chain-links =
          rw extend_chain-final
            (returns (refl, refl, size-final, info_at-final, info_at-new, byte-final))
