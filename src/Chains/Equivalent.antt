-- ===== src/Chains/Equivalent.antt =====
-- `blocks_extend_chain` against `blocks_append_block` with `chains_add_link` behind it.
use recnodb.Base.{ℕ, ◌+◌, ◌≤◌, ◌<◌, ◌≡◌, refl, ap, sym, ◌∙◌, arith, if◌then◌else◌}
use recnodb.Bytes.{Bytes, zeros, read, write, little_endian, Agree}
use recnodb.Bytes.Laws.{byte-write_both, read-Agree, Agree-copy, Agree-inside}
use recnodb.Types.{Error, success, is_success}
use recnodb.Stdio.{World, Cmd, Run, pure, ◌>>=◌, Returns, returns}
use recnodb.Stdio.Calm.{calm}
use recnodb.Blocks.Layout.{BlockLoc, BlockDef, block_type, next_offset, member}
use recnodb.Blocks.Validate.{head_size}
use recnodb.Blocks.Head.Fields.{size-copy, member-Agree, size-with_member}
use recnodb.Blocks.Append.{append_block, extend_chain, update_link_with_child}
use recnodb.Blocks.Append.Block.{
  Ready, appended, placed, append_block-plain, Agree-appended, size-appended,
}
use recnodb.Blocks.Append.NewHead.{IsPlain, new_head}
use recnodb.Blocks.Append.ChainStart.{start, parent, size-parent}
use recnodb.Blocks.Append.Chain.{final, relinked, extend_chain-final}
use recnodb.Chains.{add_link}
use recnodb.Chains.Link.{ib_parent, with_link, add_link-with_link}

-- a block is appended, and then linked to another
abbrev pub append_and_link : ℕ → BlockDef → Cmd (Error × BlockDef)
append_and_link parent d = do
  (e, d) ← append_block d
  if is_success e then (do e ← add_link parent d.new_block; pure (e, d)) else pure (e, d)

-- Two runs come back with the same result, and leave the same file.
abbrev pub SameEffect : {A : Type 0} → Run A → Run A → Type 0
SameEffect {A} m n =
    (a : A) × (f : Bytes) × Returns (λ r w. (r ≡ a) × (w.file ≡ f)) m
    × Returns (λ r w. (r ≡ a) × (w.file ≡ f)) n

-- The same link is written, whatever the head has been read into.
update_link-Agree :
    (a b : Bytes) (loc : BlockLoc)
    → 32 ≤ a.size
    → 32 ≤ b.size
    → Agree a 0 b 0 32
    → Agree (update_link_with_child a loc) 0 (update_link_with_child b loc) 0 32
unfolding update_link_with_child
update_link-Agree a b loc ha hb same i hi =
    let once : (c : Bytes)
        → 32 ≤ c.size
        → (write c (0 + 16) (little_endian 8 loc.offset)).size ≡ c.size =
      λ c hc. size-with_member c 0 next_offset loc.offset (omega arith) in
    byte-write_both (write a (0 + 16) (little_endian 8 loc.offset))
      (write b (0 + 16) (little_endian 8 loc.offset)) (0 + 24) (little_endian 8 loc.size) (0 + i)
      (omega (arith, once a ha)) (omega (arith, once b hb))
      (byte-write_both a b (0 + 16) (little_endian 8 loc.offset) (0 + i) (omega arith) (omega arith)
        (same i hi))

module _ (w : World) (d : BlockDef) (ready : Ready w d) (plain : IsPlain d) (chain_end : ℕ)
    (inside : chain_end + 32 ≤ w.file.size) (roomy : 32 ≤ d.block_size)
    (free : member w.file chain_end next_offset ≡ 0)
    (parent_plain : head_size (member w.file chain_end block_type) ≡ 32) where
  size : (appended w d).file.size ≡ w.file.size + d.block_size
  size = size-appended w d ready plain roomy

  still_free : member (appended w d).file chain_end next_offset ≡ 0
  still_free =
      member-Agree (appended w d).file chain_end w.file chain_end 32 next_offset (omega arith) (
        Agree-inside (appended w d).file w.file w.file.size 32 chain_end
          (Agree-appended w d ready plain w.file.size (omega arith) (omega (arith, ready.nonempty)))
          (omega arith))
      ∙ free

  pub before : chain_end + 32 < w.file.size + d.block_size
  before = omega arith

  same_link :
      read (update_link_with_child (ib_parent (appended w d) chain_end) (placed w d).new_block) 0 32
      ≡ read (relinked w d ready plain chain_end inside before free) 0 32
  unfolding relinked parent start
  same_link =
      read-Agree
        (update_link_with_child (ib_parent (appended w d) chain_end) (placed w d).new_block) 0
        (update_link_with_child (parent w d chain_end) (placed w d).new_block) 0 32
        (update_link-Agree (ib_parent (appended w d) chain_end) (parent w d chain_end)
          (placed w d).new_block
          (omega (arith, size-copy (zeros 32) 0 (appended w d).file chain_end 32))
          (omega (arith, size-parent w d ready plain chain_end inside before))
          (λ i hi.
            Agree-copy (zeros 32) 0 (appended w d).file chain_end 32 i hi
            ∙ sym (Agree-copy (new_head d) 0 (appended w d).file chain_end 32 i hi)))

  pub same_file :
      (with_link (appended w d) chain_end (placed w d).new_block).file
      ≡ (final w d ready plain chain_end inside before free parent_plain roomy).file
  unfolding final start
  same_file = ap (write (appended w d).file chain_end) same_link

  pub size-linked :
      (final w d ready plain chain_end inside before free parent_plain roomy).file.size
      ≡ w.file.size + d.block_size
  size-linked =
      sym (ap (λ f. f.size) same_file)
      ∙ omega (
        arith,
        size-copy (appended w d).file chain_end
            (update_link_with_child (ib_parent (appended w d) chain_end) (placed w d).new_block) 0
            32,
        size,
      )

  -- In a run without faults, with a valid handle, positions in the range of `off_t`, the file's
  -- end at a multiple of the chunk size, and 32 bytes or more asked for, at a link in the file
  -- that has no successor and a head of 32 bytes, blocks_extend_chain of a block that is neither
  -- a table nor a file has the effect of blocks_append_block with chains_add_link behind it: the
  -- same result, the same place of the block, and the same file.
  pub extend_chain-append_and_link :
      SameEffect (extend_chain chain_end d (calm w)) (append_and_link chain_end d (calm w))
  extend_chain-append_and_link = (
    (success, placed w d),
    (final w d ready plain chain_end inside before free parent_plain roomy).file,
    rw (extend_chain-final w d ready plain chain_end inside before free parent_plain roomy)
        (returns (refl, refl)),
    rw
        (
          append_block-plain w d ready plain,
          add_link-with_link (appended w d) chain_end (placed w d).new_block
              (omega (arith, ready.room)) (omega (arith, size)) ready.valid.0 still_free,
        )
        (returns (refl, same_file)),
  )
