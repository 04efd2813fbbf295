-- ===== src/Chains/Forward/Kept.antt =====
-- `blocks_extend_chain` on a file in which every successor lies behind its block.
use recnodb.Base.{ℕ, ◌+◌, ◌%◌, ◌≤◌, ◌<◌, ◌≡◌, refl, ap, ◌∙◌, ◌⊎◌, inl, inr, arith}
use recnodb.Bytes.{Bytes, byte, read}
use recnodb.Bytes.Laws.{length-read, byte-write_out}
use recnodb.Bytes.Numbers.{num-zeros}
use recnodb.Types.{success}
use recnodb.Stdio.{World, Returns, returns}
use recnodb.Stdio.Calm.{calm}
use recnodb.Blocks.Layout.{BlockDef, block_type, next_offset, info_at, member}
use recnodb.Blocks.Validate.{head_size}
use recnodb.Blocks.Head.Fields.{member-Agree}
use recnodb.Blocks.Append.{extend_chain}
use recnodb.Blocks.Append.Extend.{chunk_of}
use recnodb.Blocks.Append.NewHead.{IsPlain}
use recnodb.Blocks.Append.Block.{Ready, appended, aligned_sum, size-appended, payload-appended}
use recnodb.Blocks.Append.ChainStart.{start, start-Ready}
use recnodb.Blocks.Append.Chain.{
  relinked, final, extend_chain-final, size-final, info_at-final, info_at-new, byte-final,
}
use recnodb.Chains.Forward.{Forward, later_multiple}

-- where a multiple lies that is below the end of a grown file
place_of :
    (p size c : ℕ)
    → p % c ≡ 0
    → size % c ≡ 0
    → 72 ≤ c
    → (p + 72 ≤ size) ⊎ (p ≡ size) ⊎ (size + 72 ≤ p)
place_of p size c hp hs big = elim (compared p size) [
  | inl l ↦ inl (omega (arith, later_multiple p size c hp hs l))
  | inr (inl e) ↦ inr (inl e)
  | inr (inr g) ↦ inr (inr (omega (arith, later_multiple size p c hs hp g)))
]
  where
    compared : (a b : ℕ) → (a < b) ⊎ (a ≡ b) ⊎ (b < a)
    compared a b = omega arith

-- A file that has grown by a block of zeros behind its head, to which an old block may have been
-- linked.
pub Forward-grown :
    (f f' : Bytes) (chunk : ℕ)
    → Forward chunk f
    → 72 ≤ chunk
    → f.size % chunk ≡ 0
    → ((p : ℕ)
        → p % chunk ≡ 0
        → p + 72 ≤ f.size
        → (member f' p next_offset ≡ member f p next_offset) ⊎ (member f' p next_offset ≡ f.size))
    → member f' f.size next_offset ≡ 0
    → ((i : ℕ) → f.size + 32 ≤ i → i < f'.size → byte f' i ≡ 0)
    → Forward chunk f'
Forward-grown f f' chunk forward big ends old new payload p at_chunk inside =
    elim (place_of p f.size chunk at_chunk ends big) [
      | inr (inl e) ↦ inl (ap (λ q. member f' q next_offset) e ∙ new)
      | inr (inr beyond) ↦
          inl (num-zeros f' (p + 16) 8 (λ i low high. payload i (omega arith) (omega arith)))
      | inl below ↦ elim (old p at_chunk below) [
        | inr to_new ↦ inr (omega (arith, to_new), ap (λ n. n % chunk) to_new ∙ ends)
        | inl same ↦ elim (forward p at_chunk below) [
          | inl none_yet ↦ inl (same ∙ none_yet)
          | inr (later, multiple) ↦
              inr (omega (arith, same, later), ap (λ n. n % chunk) same ∙ multiple)
        ]
      ]
    ]

module _ (w : World) (d : BlockDef) (ready : Ready w d) (plain : IsPlain d) (z : ℕ)
    (inside : z + 32 ≤ w.file.size) (before : z + 32 < w.file.size + d.block_size)
    (free : member w.file z next_offset ≡ 0)
    (plain_head : head_size (member w.file z block_type) ≡ 32) (roomy : 32 ≤ d.block_size) where
  -- the file afterwards
  extended_file : Bytes
  extended_file = (final w d ready plain z inside before free plain_head roomy).file

  size-extended : extended_file.size ≡ w.file.size + d.block_size
  unfolding extended_file
  size-extended = size-final w d ready plain z inside before free plain_head roomy

  zeros_behind_head :
      (i : ℕ) → w.file.size + 32 ≤ i → i < w.file.size + d.block_size → byte extended_file i ≡ 0
  unfolding extended_file final start
  zeros_behind_head i low high =
      let at_start = start-Ready w d ready plain z inside before in
      let size = size-appended (start w) d at_start plain roomy in
      let relinked_head = relinked w d ready plain z inside before free in
      byte-write_out (appended (start w) d).file z (read relinked_head 0 32) i (omega (arith, size))
        (inr (omega (arith, length-read relinked_head 0 32)))
      ∙ payload-appended (start w) d at_start plain roomy i low high

  module _ (multiple : z % chunk_of w.handle ≡ 0) (big : 72 ≤ chunk_of w.handle) where
    old_successors :
        (p : ℕ)
        → p % chunk_of w.handle ≡ 0
        → p + 72 ≤ w.file.size
        → (member extended_file p next_offset ≡ member w.file p next_offset)
          ⊎ (member extended_file p next_offset ≡ w.file.size)
    unfolding extended_file info_at
    old_successors p at_chunk fits = elim (place_of p z (chunk_of w.handle) at_chunk multiple big) [
      | inr (inl e) ↦ inr (
          ap (λ q. member extended_file q next_offset) e
          ∙ ap (λ b. b.next_block.offset)
              (info_at-final w d ready plain z inside before free plain_head roomy))
      | inl below ↦ inl (apart (λ i hi. inl (omega arith)))
      | inr (inr beyond) ↦ inl (apart (λ i hi. inr (omega arith)))
    ]
      where
        apart :
            ((i : ℕ) → i < 32 → (p + i < z) ⊎ (z + 32 ≤ p + i))
            → member extended_file p next_offset ≡ member w.file p next_offset
        apart out = member-Agree extended_file p w.file p 32 next_offset (omega arith) λ i hi.
            byte-final w d ready plain z inside before free plain_head roomy (p + i) (omega arith)
              (out i hi)

    -- A file stays one on which walks end: in a run without faults, with a valid handle with a
    -- chunk size of 72 or more, positions in the range of `off_t` and the file's end at a
    -- multiple of the chunk size, if what stands at a multiple of the chunk size has no successor
    -- or one at a later multiple, then it is so again after blocks_extend_chain of a block of
    -- whole chunks and of 32 bytes or more that is neither a table nor a file, at a link in the
    -- file and at a multiple of the chunk size that has a head of 32 bytes and no successor. The
    -- call succeeds, and the file ends at a multiple of the chunk size.
    pub extend_chain-Forward :
        d.block_size % chunk_of w.handle ≡ 0
        → Forward (chunk_of w.handle) w.file
        → Returns
            (λ (e, _) w'.
              (e ≡ success)
              × Forward (chunk_of w.handle) w'.file
              × (w'.file.size % chunk_of w.handle ≡ 0))
            (extend_chain z d (calm w))
    unfolding extended_file info_at
    extend_chain-Forward whole forward =
        let size = size-final w d ready plain z inside before free plain_head roomy in
        rw (extend_chain-final w d ready plain z inside before free plain_head roomy) (
          returns (
            refl,
            Forward-grown w.file extended_file (chunk_of w.handle) forward big ready.aligned
                old_successors
                (ap (λ b. b.next_block.offset)
                  (info_at-new w d ready plain z inside before free plain_head roomy))
                (λ i low high. zeros_behind_head i low (omega (arith, high, size-extended))),
            ap (λ n. n % chunk_of w.handle) size
                ∙ aligned_sum w.file.size d.block_size (chunk_of w.handle) ready.aligned whole,
          ))
