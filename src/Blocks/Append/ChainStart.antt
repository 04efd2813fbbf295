-- ===== src/Blocks/Append/ChainStart.antt =====
-- `blocks_extend_chain` in a run without faults, up to the test for a successor.
use recnodb.Base.{ℕ, ◌+◌, ◌%◌, ◌≤◌, ◌<◌, ◌≡◌, ap, ◌∙◌, arith}
use recnodb.Bytes.{Bytes, zeros, read, write, Agree}
use recnodb.Bytes.Laws.{Agree-copy, Agree-trans, Agree-inside}
use recnodb.Types.{success}
use recnodb.Stdio.{World, ok, and_then, pure}
use recnodb.Stdio.Calm.{calm}
use recnodb.Blocks.Layout.{BlockDef, Field, member}
use recnodb.Blocks.Head.{set_info_block_struct}
use recnodb.Blocks.Head.Fields.{size-copy, member-Agree}
use recnodb.Blocks.Head.Prepare.{head_size-other}
use recnodb.Blocks.Head.Transfer.{read_block_head-calm}
use recnodb.Blocks.Append.{extend_chain, link_to}
use recnodb.Blocks.Append.Extend.{IsValid-primed, primed, chunk_of-primed}
use recnodb.Blocks.Append.Block.{
  Ready, appended, placed, append_block-plain, Agree-appended, le-size-appended,
}
use recnodb.Blocks.Append.NewHead.{IsPlain, new_head, new_head-plain, size-new_head, plain_type}

-- the state in which blocks_extend_chain appends the block
unfoldable pub start : World → World
start w = record w { handle = primed w.handle }

-- the head of the link at `chain_end`, as it is read into the buffer
unfoldable pub parent : World → BlockDef → ℕ → Bytes
unfolding start
parent w d chain_end = write (new_head d) 0 (read (appended (start w) d).file chain_end 32)

-- the state when the head has been read
unfoldable pub after_read : World → BlockDef → ℕ → World
unfolding start
after_read w d chain_end = record (appended (start w) d) {
  pos = chain_end + 32;
  tick = (appended (start w) d).tick + 1 + 1;
}

module _ (w : World) (d : BlockDef) (ready : Ready w d) (plain : IsPlain d) (chain_end : ℕ)
    (inside : chain_end + 32 ≤ w.file.size)
    (before : chain_end + 32 < w.file.size + d.block_size) where
  open ready use {position, room, nonempty, narrow}

  pub start-Ready : Ready (start w) d
  unfolding start
  start-Ready = record {
    valid = IsValid-primed w.handle ready.valid;
    position = position;
    room = room;
    aligned = ap (λ c. w.file.size % c) (chunk_of-primed w.handle) ∙ ready.aligned;
    nonempty = nonempty;
    narrow = narrow;
  }

  pub size-parent : (parent w d chain_end).size ≡ 32
  unfolding parent
  size-parent = omega (
    arith,
    size-copy (new_head d) 0 (appended (start w) d).file chain_end 32,
    size-new_head d plain,
  )

  pub Agree-parent : Agree (parent w d chain_end) 0 w.file chain_end 32
  unfolding parent start
  Agree-parent =
      Agree-trans (parent w d chain_end) (appended (start w) d).file w.file 0 chain_end chain_end 32
        (Agree-copy (new_head d) 0 (appended (start w) d).file chain_end 32)
        (Agree-inside (appended (start w) d).file w.file (chain_end + 32) 32 chain_end
          (Agree-appended (start w) d start-Ready plain (chain_end + 32) inside before)
          (omega arith))

  pub member-parent :
      (f : Field)
      → f.at + f.width ≤ 32
      → member (parent w d chain_end) 0 f ≡ member w.file chain_end f
  member-parent f h = member-Agree (parent w d chain_end) 0 w.file chain_end 32 f h Agree-parent

  new_head-placed :
      (v : World) → set_info_block_struct (zeros 32) 32 (placed (start w) d) v ≡ ok (new_head d) v
  unfolding set_info_block_struct
  new_head-placed v = new_head-plain d plain v

  -- blocks_extend_chain up to the test for a successor
  pub extend_chain-read :
      extend_chain chain_end d (calm w)
      ≡ and_then
          (link_to chain_end
            (placed w d)
            32
            (success, (parent w d chain_end))
            (calm (after_read w d chain_end)))
          (λ e. pure (e, placed w d))
  unfolding extend_chain start parent after_read
  extend_chain-read = rw (
    append_block-plain (start w) d start-Ready plain,
    plain_type d plain,
    head_size-other d.block_type plain.not_table plain.not_file,
    new_head-placed (calm (appended (start w) d)),
    read_block_head-calm (appended (start w) d) chain_end (omega arith) (new_head d) 32
        ready.valid.0 (omega arith) (omega (arith, le-size-appended (start w) d start-Ready plain)),
  )
