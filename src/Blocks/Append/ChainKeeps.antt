-- ===== src/Blocks/Append/ChainKeeps.antt =====
-- `blocks_extend_chain` in runs where calls of the C library fail.
use recnodb.Base.{
  ℕ, ◌+◌, ◌^◌, ◌≤◌, ◌<◌, ◌≡◌, refl, ◌≢◌, ap, ◌∙◌, Bool-cases, inl, inr, arith, ◌⊎◌, List, length,
  take, length-take,
}
use recnodb.Bytes.{Bytes, byte, read, write}
use recnodb.Bytes.Laws.{size-write, byte-write_out, length-read, Agree-byte, Agree-inside}
use recnodb.Types.{
  Error, success, system_error, attempt_to_orphan_block, invalid_block_location, live,
}
use recnodb.Stdio.{World, Returns, returns, off_limit, save_errno}
use recnodb.Stdio.Cases.{use_file-opened, bind}
use recnodb.Blocks.Layout.{BlockDef, block_type, info_at, member}
use recnodb.Blocks.Validate.{head_size}
use recnodb.Blocks.Head.{write_block_head}
use recnodb.Blocks.Head.Fields.{member-copy, member-Agree, size-copy}
use recnodb.Blocks.Head.Faults.{read_block_head-cases, seek_and_write-cases}
use recnodb.Blocks.Head.Prepare.{head_size-other}
use recnodb.Blocks.Append.{
  link_to, link_after, extend_chain, block_points_to_child_test, update_link_with_child,
}
use recnodb.Blocks.Append.Extend.{IsValid, IsValid-primed, primed}
use recnodb.Blocks.Append.NewHead.{IsPlain, new_head, plain_type, size-new_head, new_head-plain}
use recnodb.Blocks.Append.Keeps.{Kept, append_block-keeps}
use recnodb.Blocks.Append.Link.{info_at-update_link, size-update_link}

-- no byte is lost, and the old bytes stay but for the head at `z`
abbrev pub KeptOutside : ℕ → Bytes → Bytes → Type 0
KeptOutside z f f' =
    (f.size ≤ f'.size) × ((i : ℕ) → i < f.size → (i < z) ⊎ (z + 32 ≤ i) → byte f' i ≡ byte f i)

-- the results of blocks_extend_chain
abbrev pub ChainAnswer : Error → Type 0
ChainAnswer e =
    (e ≡ success)
    ⊎ (e ≡ system_error)
    ⊎ (e ≡ invalid_block_location)
    ⊎ (e ≡ attempt_to_orphan_block)

module _ (z : ℕ) (f : Bytes) where
  KeptOutside-Kept : (g : Bytes) → Kept f g → KeptOutside z f g
  KeptOutside-Kept g (le, a) = (le, λ i h out. Agree-byte g f f.size i a h)

  KeptOutside-write :
      (g : Bytes) (xs : List ℕ) → length xs ≤ 32 → Kept f g → KeptOutside z f (write g z xs)
  KeptOutside-write g xs short (le, a) = (
    omega (arith, size-write g z xs),
    λ i h out. byte-write_out g z xs i (omega arith) (omega arith) ∙ Agree-byte g f f.size i a h,
  )

  write_link-keeps :
      (b : Bytes) (w : World)
      → w.handle.stream ≡ live
      → b.size ≡ 32
      → head_size (member b 0 block_type) ≡ 32
      → Kept f w.file
      → Returns (λ e w'. KeptOutside z f w'.file × ChainAnswer e) (write_block_head z b 32 w)
  unfolding write_block_head save_errno
  write_link-keeps b w o size own kept =
      rw (use_file-opened w o, own)
        (elim (seek_and_write-cases w z b 32 (omega arith)) [
          | inl (e, p, t, q) ↦ rw q (returns (KeptOutside-Kept w.file kept, inr (inl refl)))
          | inr (inl (e, t, k, q)) ↦ rw q (
              returns (
                KeptOutside-write w.file (take k (read b 0 32))
                    (omega (arith, length-take k (read b 0 32), length-read b 0 32)) kept,
                inr (inl refl),
              ))
          | inr (inr q) ↦ rw q (
              returns (
                KeptOutside-write w.file (read b 0 32) (omega (arith, length-read b 0 32)) kept,
                inl refl,
              ))
        ])

  module _ (inside : z + 32 ≤ f.size) (link_plain : head_size (member f z block_type) ≡ 32) where
    -- The type of the link comes through the buffer.
    relinked_type :
        (d : BlockDef) (w : World)
        → IsPlain d
        → d.new_block.offset < 2 ^ 64
        → d.new_block.size < 2 ^ 64
        → Kept f w.file
        → head_size (
            member
              (update_link_with_child (write (new_head d) 0 (read w.file z 32)) d.new_block)
              0
              block_type)
          ≡ 32
    unfolding info_at
    relinked_type d w plain ho hs (le, a) =
        let parent = write (new_head d) 0 (read w.file z 32) in
        let size = size-copy (new_head d) 0 w.file z 32 in
        ap head_size (
          ap (λ b. b.block_type)
            (info_at-update_link parent d.new_block (omega (arith, size)) ho hs)
          ∙ (member-copy (new_head d) 0 w.file z 32 block_type (omega arith)
              ∙ member-Agree w.file z f z 32 block_type (omega arith)
                  (Agree-inside w.file f f.size 32 z a (omega arith))))
        ∙ link_plain

    link_after-keeps :
        (d : BlockDef) (w : World)
        → IsPlain d
        → w.handle.stream ≡ live
        → d.new_block.offset < 2 ^ 64
        → d.new_block.size < 2 ^ 64
        → Kept f w.file
        → Returns
            (λ (e, d') w'. KeptOutside z f w'.file × ChainAnswer e)
            (link_after z (success, d) w)
    unfolding link_after link_to
    link_after-keeps d w plain o ho hs kept =
        let parent = write (new_head d) 0 (read w.file z 32) in
        let size : parent.size ≡ 32 =
          omega (arith, size-copy (new_head d) 0 w.file z 32, size-new_head d plain) in
        rw
          (
            plain_type d plain,
            head_size-other d.block_type plain.not_table plain.not_file,
            new_head-plain d plain w,
          )
          (elim (read_block_head-cases w z (new_head d) o) [
            | inl (e, p, t, q) ↦ rw q (returns (KeptOutside-Kept w.file kept, inr (inl refl)))
            | inr q ↦ rw q (elim (Bool-cases (block_points_to_child_test parent)) [
              | inl t ↦ rw t (returns (KeptOutside-Kept w.file kept, inr (inr (inr refl))))
              | inr t ↦ rw t (
                  bind
                    (write_link-keeps (update_link_with_child parent d.new_block)
                      (record w { tick = w.tick + 1 + 1; pos = z + 32 }) o
                      (size-update_link parent d.new_block (omega (arith, size)) ∙ size)
                      (relinked_type d w plain ho hs kept) kept)
                    λ e w' p. returns p)
            ])
          ])

link_after_failure :
    (z : ℕ) (f : Bytes) (e : Error) (d : BlockDef) (w : World)
    → (e ≡ system_error) ⊎ (e ≡ invalid_block_location)
    → Kept f w.file
    → Returns (λ (e', d') w'. KeptOutside z f w'.file × ChainAnswer e') (link_after z (e, d) w)
unfolding link_after
link_after_failure z f e d w (inl q) kept =
    rw q (returns (KeptOutside-Kept z f w.file kept, inr (inl refl)))
link_after_failure z f e d w (inr q) kept =
    rw q (returns (KeptOutside-Kept z f w.file kept, inr (inr (inl refl))))

-- Whichever calls of the C library fail, blocks_extend_chain with a valid handle, of a nonempty
-- block within the range of `off_t` that is neither a table nor a file, at a link in the file
-- with a head of 32 bytes, ends: no byte of the file is lost and all old bytes stay but those of
-- the link's head. The result is success, RND_SYSTEM_ERROR, RND_INVALID_BLOCK_LOCATION or
-- RND_ATTEMPT_TO_ORPHAN_BLOCK.
pub extend_chain-keeps :
    (chain_end : ℕ) (d : BlockDef) (w : World)
    → IsPlain d
    → IsValid w.handle
    → d.block_size ≢ 0
    → d.block_size < 2 ^ 32
    → w.file.size + d.block_size < off_limit
    → chain_end + 32 ≤ w.file.size
    → head_size (member w.file chain_end block_type) ≡ 32
    → Returns
        (λ (e, d') w'. KeptOutside chain_end w.file w'.file × ChainAnswer e)
        (extend_chain chain_end d w)
unfolding extend_chain
extend_chain-keeps chain_end d w plain valid ne narrow room inside link_plain =
    bind
      (append_block-keeps d (record w { handle = primed w.handle }) plain
        (IsValid-primed w.handle valid) ne room)
      λ (e, d1) w1 (kept, answer, o). elim answer [
        | inl (q, q1) ↦
            rw (q, q1)
              (link_after-keeps chain_end w.file inside link_plain
                (record d { new_block = record { offset = w.file.size; size = d.block_size } }) w1
                (record {
                  narrow_type = plain.narrow_type;
                  not_table = plain.not_table;
                  not_file = plain.not_file;
                })
                o (omega arith) (omega arith) kept)
        | inr failure ↦ link_after_failure chain_end w.file e d1 w1 failure kept
      ]
