-- ===== src/Blocks/Append/Block.antt =====
-- `blocks_append_block` in a run without faults.
use recnodb.Stdio.Cases.{use_file-opened}
use recnodb.Base.{
  ℕ, ◌+◌, ◌-◌, ◌%◌, ◌^◌, ◌≤◌, ◌<◌, ◌≡◌, refl, ◌≢◌, sym, ap, ◌∙◌, Bool-cases, inl, inr, [], ◌∷◌,
  arith, ne→==, if◌then◌else◌, ◌==◌,
}
use native.Mathlib.Nat.{mod-add-mod}
use recnodb.Bytes.{Bytes, byte, zeros, read, write, Agree}
use recnodb.Bytes.Laws.{length-read, size-write, byte-write_out, Agree-write_before, Agree-trans}
use recnodb.Types.{success}
use recnodb.Stdio.{World, ok, and_then, aborted, undefined, Returns, returns, off_limit, minus_one}
use recnodb.Stdio.Calm.{calm, fseek_set-calm, fseek_end-calm, ftell-calm}
use recnodb.Blocks.Layout.{BlockDef, rbt_table, info_at}
use recnodb.Blocks.Validate.{head_size}
use recnodb.Blocks.Head.{set_info_block_struct}
use recnodb.Blocks.Head.Fields.{info_at-copy, size-copy}
use recnodb.Blocks.Head.Prepare.{info_at-base_head, head_size-other}
use recnodb.Blocks.Head.Members.{set_info_block-table}
use recnodb.Blocks.Head.Transfer.{write_block_head-calm}
use recnodb.Blocks.Append.{append_block, extend_file, write_new_head, restore}
use recnodb.Blocks.Append.NewHead.{
  IsPlain, new_head, fresh_info, plain_type, head_size-new_head, size-new_head, new_head-plain,
}
use recnodb.Blocks.Append.Extend.{
  IsValid, IsValid-primed, primed, chunk_of, chunk_of-primed, extended, extend_file-at,
  byte-write_zero,
}

-- what the caller of blocks_append_block has to see to: the handle is valid, the stream and the file
-- are where they can be, the file ends at a multiple of the chunk size, and it will not be empty
pub record Ready (w : World) (d : BlockDef) : Type 0 where
  pub valid : IsValid w.handle
  pub position : w.pos < off_limit
  pub room : w.file.size + d.block_size < off_limit
  pub aligned : w.file.size % chunk_of w.handle ≡ 0
  pub nonempty : w.file.size + d.block_size ≢ 0
  pub narrow : d.block_size < 2 ^ 32

pub aligned_sum : (a b c : ℕ) → a % c ≡ 0 → b % c ≡ 0 → (a + b) % c ≡ 0
aligned_sum a b c h k =
    sym (mod-add-mod a c b) ∙ (ap (λ x. (x + b) % c) h ∙ (ap (λ x. x % c) (omega arith) ∙ k))

-- the state when the stream is at the end of the file
abbrev pub at_end : World → World
at_end w = record w { pos = w.file.size; tick = w.tick + 1 + 1 + 1; handle = primed w.handle }

-- the state when the file has been extended by `n` bytes
abbrev pub grown : World → ℕ → World
grown w n = extended (at_end w) (w.file.size + n - 1)

-- the state after blocks_append_block
abbrev pub appended : World → BlockDef → World
appended w d = record (grown w d.block_size) {
  file = write (grown w d.block_size).file w.file.size (read (new_head d) 0 32);
  pos = w.pos;
  tick = (grown w d.block_size).tick + 1 + 1 + 1;
}

-- the block as its caller gets it back
abbrev pub placed : World → BlockDef → BlockDef
placed w d = record d { new_block = record { offset = w.file.size; size = d.block_size } }

module _ (w : World) (d : BlockDef) (ready : Ready w d) where
  open ready use {valid, position, room, aligned, nonempty, narrow}

  extend_file-ready :
      extend_file d.block_size (calm (at_end w)) ≡ ok success (calm (grown w d.block_size))
  extend_file-ready =
      extend_file-at (at_end w) (IsValid-primed w.handle valid) (omega arith) d.block_size
        (w.file.size + d.block_size - 1)
        (ap (λ c. w.file.size % c) (chunk_of-primed w.handle) ∙ aligned) (omega arith) (omega arith)

  -- blocks_append_block when the file has been extended
  pub append_block-head :
      append_block d (calm w)
      ≡ and_then (write_new_head w.file.size d (calm (grown w d.block_size))) (restore w.pos)
  unfolding append_block write_new_head restore
  append_block-head = rw (
    valid.1,
    use_file-opened (calm (record w { handle = primed w.handle })) valid.0,
    ftell-calm (record w { handle = primed w.handle }),
    ne→== w.pos minus_one (omega arith),
    fseek_end-calm (record w { tick = w.tick + 1; handle = primed w.handle }) 0 w.file.size
        (omega arith) (omega arith),
    ftell-calm (record w { pos = w.file.size; tick = w.tick + 1 + 1; handle = primed w.handle }),
    ne→== w.file.size minus_one (omega arith),
    extend_file-ready,
  )

  module _ (plain : IsPlain d) where
    open plain use {narrow_type, not_table, not_file}

    pub append_block-plain :
        append_block d (calm w) ≡ ok (success, placed w d) (calm (appended w d))
    unfolding write_new_head restore
    append_block-plain =
        append_block-head
        ∙ rw (
          plain_type d plain,
          head_size-other d.block_type not_table not_file,
          new_head-plain d plain (calm (grown w d.block_size)),
          write_block_head-calm (grown w d.block_size) w.file.size (omega arith) (new_head d) 32
              valid.0 (omega (arith, (head_size-new_head d plain)))
              (omega (arith, (size-new_head d plain))),
          fseek_set-calm
              (record (appended w d) {
                pos = w.file.size + 32;
                tick = (grown w d.block_size).tick + 1 + 1;
              })
              w.pos position,
        )

    -- the file when only its last byte has been written
    stretched : Bytes
    stretched = write w.file (w.file.size + d.block_size - 1) (0 ∷ [])

    size-stretched : stretched.size ≡ w.file.size + d.block_size
    unfolding stretched
    size-stretched = omega (arith, size-write w.file (w.file.size + d.block_size - 1) (0 ∷ []))

    pub le-size-appended : w.file.size + d.block_size ≤ (appended w d).file.size
    unfolding stretched
    le-size-appended =
        omega (arith, size-copy stretched w.file.size (new_head d) 0 32, size-stretched)

    pub Agree-appended :
        (n : ℕ)
        → n ≤ w.file.size
        → n < w.file.size + d.block_size
        → Agree (appended w d).file 0 w.file 0 n
    unfolding stretched
    Agree-appended n h k =
        Agree-trans (appended w d).file stretched w.file 0 0 0 n
          (Agree-write_before stretched w.file.size (read (new_head d) 0 32) 0 n (omega arith)
            (omega (arith, size-stretched)))
          (Agree-write_before w.file (w.file.size + d.block_size - 1) (0 ∷ []) 0 n (omega arith)
            (omega arith))

    pub info_at-appended : info_at (appended w d).file w.file.size ≡ fresh_info d
    unfolding stretched
    info_at-appended =
        info_at-copy stretched w.file.size (new_head d) 0 32 (omega arith)
        ∙ info_at-base_head (zeros 32) 32 (omega arith) (omega arith) 32 d.block_type d.block_size
            narrow_type (omega arith) narrow

    module _ (roomy : 32 ≤ d.block_size) where
      pub size-appended : (appended w d).file.size ≡ w.file.size + d.block_size
      unfolding stretched
      size-appended =
          omega (arith, size-copy stretched w.file.size (new_head d) 0 32, size-stretched)

      pub payload-appended :
          (i : ℕ)
          → w.file.size + 32 ≤ i
          → i < w.file.size + d.block_size
          → byte (appended w d).file i ≡ 0
      unfolding stretched
      payload-appended i h k =
          byte-write_out stretched w.file.size (read (new_head d) 0 32) i
            (omega (arith, size-stretched)) (inr (omega (arith, length-read (new_head d) 0 32)))
          ∙ byte-write_zero w.file (w.file.size + d.block_size - 1) i (inl (omega arith))

      -- In a run without faults, with a valid handle, positions in the range of `off_t` and the
      -- file's end at a multiple of the chunk size, for a block of 32 bytes or more that is
      -- neither a table nor a file, blocks_append_block succeeds: the caller gets the old end of
      -- the file as the block's place, the file is longer by the block, its old bytes stay, the
      -- block has a fresh head with no successor and a payload of zeros, the file still ends at a
      -- multiple of the chunk size if the block's size is one, and the stream stands where it
      -- stood.
      pub append_block-success :
          Returns
            (λ (e, d') w'.
              (e ≡ success)
              × (d' ≡ placed w d)
              × (w'.file.size ≡ w.file.size + d.block_size)
              × Agree w'.file 0 w.file 0 w.file.size
              × (info_at w'.file w.file.size ≡ fresh_info d)
              × ((i : ℕ)
                  → w.file.size + 32 ≤ i
                  → i < w.file.size + d.block_size
                  → byte w'.file i ≡ 0)
              × (d.block_size % chunk_of w.handle ≡ 0 → w'.file.size % chunk_of w.handle ≡ 0)
              × (w'.pos ≡ w.pos)
              × (w'.handle ≡ primed w.handle))
            (append_block d (calm w))
      append_block-success = rw append_block-plain (
          returns (
            refl,
            refl,
            size-appended,
            Agree-appended w.file.size (omega arith) (omega arith),
            info_at-appended,
            payload-appended,
            λ m.
                rw size-appended
                  (aligned_sum w.file.size d.block_size (chunk_of w.handle) aligned m),
            refl,
            refl,
          ))

  -- In a run without faults, with a valid handle, positions in the range of `off_t` and the
  -- file's end at a multiple of the chunk size, blocks_append_block of a table, the file and the
  -- block not both being empty, never returns: with chunk size 0 an assertion fails, and
  -- otherwise the run is undefined, the members of INFO_FILE being stored behind the end of the
  -- buffer.
  pub append_block-table :
      d.block_type ≡ rbt_table
      → append_block d (calm w) ≡ (if d.chunk_size == 0 then aborted else undefined)
  unfolding write_new_head set_info_block_struct head_size
  append_block-table table =
      append_block-head
      ∙ rw
          (
            table,
            set_info_block-table (zeros 64) 64 d.block_size d.rec_size d.chunk_size
                (calm (grown w d.block_size)) (omega arith) (omega arith) (omega arith),
          )
          (elim (Bool-cases (d.chunk_size == 0)) [ inl z ↦ rw z | inr nz ↦ rw nz ])
