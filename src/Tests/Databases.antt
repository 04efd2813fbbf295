-- ===== src/Tests/Databases.antt =====
-- Tests of calls in a row, on a database of two blocks.
use recnodb.Base.{ℕ, ◌+◌, ◌%◌, ◌≤◌, ◌<◌, ◌≡◌, refl, ◌⊎◌, inl, inr, sym, List, [], ◌∷◌, ◌++◌, arith}
use mathlib.Core.Path.{subst}
use recnodb.Bytes.{byte, num, Agree}
use recnodb.Types.{success}
use recnodb.Stdio.{World, Returns}
use recnodb.Stdio.Calm.{calm}
use recnodb.Blocks.Layout.{BlockDef, rbt_file, next_offset, member}
use recnodb.Blocks.Validate.{handle_chunk_size, head_file_chunk_size, head_size}
use recnodb.Blocks.Append.{append_block, extend_chain}
use recnodb.Blocks.Append.Extend.{primed}
use recnodb.Blocks.Append.Block.{Ready, placed}
use recnodb.Blocks.Append.Chain.{final, extend_chain-final}
use recnodb.Blocks.Append.FileBlock.{head_at, append_block-file}
use recnodb.Blocks.Head.File.{IsFileHead}
use recnodb.Chains.{walk}
use recnodb.Chains.Last.{last_of}
use recnodb.Chains.Walk.{pure_viewer}
use recnodb.Chains.Safe.{WalkResult}
use recnodb.Chains.Forward.{Forward, walk-ends}
use recnodb.Chains.Equivalent.{SameEffect, append_and_link, extend_chain-append_and_link}
use recnodb.Database.{IsDatabase}
use recnodb.Database.Calls.{IsOpen, Fits}
use recnodb.Database.Steps.{Steps, none_yet, and_one, Step, Steps-IsOpen}
use recnodb.Database.Progress.{Suits, Adds, Adds-progress}
use recnodb.Tests.Data.{double, double_file, disk_full}
use recnodb.Tests.Blocks.{data_block, data_block-IsPlain, double-Ready, open_handle-IsValid}
use recnodb.Tests.Chains.{two_blocks, note_offset}

pub double-IsDatabase : IsDatabase double_file 128 (0 ∷ 128 ∷ [])
unfolding byte num last_of
double-IsDatabase = record {
  chain = two_blocks;
  aligned = (refl, (refl, tt));
  ends = refl;
  roomy = omega arith;
  long = omega arith;
  short = omega arith;
  type = omega arith;
  data_at = omega arith;
  block = omega arith;
  signature = refl;
  chunks = refl;
}

-- the head of a file, as another block
abbrev file_block : BlockDef
file_block = record data_block { block_type = rbt_file; rec_size = 7; chunk_size = 128 }

file_block-Ready : Ready double file_block
unfolding handle_chunk_size head_file_chunk_size byte num
file_block-Ready = record {
  valid = open_handle-IsValid;
  position = omega arith;
  room = omega arith;
  aligned = refl;
  nonempty = omega arith;
  narrow = omega arith;
}

append_block-file_example :
    Returns
      (λ (e, d') w'.
        (e ≡ success)
        × (d' ≡ placed double file_block)
        × (w'.file.size ≡ 384)
        × Agree w'.file 0 double.file 0 256
        × IsFileHead rbt_file 128 128 7 (head_at w'.file 256)
        × (w'.pos ≡ 0)
        × (w'.handle ≡ primed double.handle))
      (append_block file_block (calm double))
append_block-file_example = append_block-file double file_block file_block-Ready (record {
  file = refl;
  roomy = omega arith;
  chunked = omega arith;
  narrow_chunk = omega arith;
  narrow_rec = omega arith;
})

extend_chain-append_and_link_example :
    SameEffect
      (extend_chain 128 data_block (calm double))
      (append_and_link 128 data_block (calm double))
unfolding byte num head_size
extend_chain-append_and_link_example =
    extend_chain-append_and_link double data_block double-Ready data_block-IsPlain 128 (omega arith)
      (omega arith) refl refl

-- what holds of the successor at a multiple of 128
abbrev Ahead : ℕ → Type 0
Ahead p =
    (member double_file p next_offset ≡ 0)
    ⊎ ((p < member double_file p next_offset) × (member double_file p next_offset % 128 ≡ 0))

which_block : (p : ℕ) → p % 128 ≡ 0 → p + 72 ≤ 256 → (p ≡ 0) ⊎ (p ≡ 128)
which_block p h k = omega arith

pub double-Forward : Forward 128 double_file
unfolding byte num
double-Forward p at_chunk inside = elim (which_block p at_chunk inside) [
  | inl e ↦ subst Ahead (sym e) (inr (omega arith, refl))
  | inr e ↦ subst Ahead (sym e) (inl refl)
]

-- the second `fread` fails
walk-ends_example :
    Returns
      (λ (e, s') w'. (w'.file ≡ double.file) × WalkResult e w')
      (walk (pure_viewer note_offset) 4 0 [] (record double { faults = disk_full }))
walk-ends_example =
    walk-ends note_offset 128 3 (record double { faults = disk_full }) [] 0 refl double-Forward
      (omega arith) (omega arith)

double-IsOpen : IsOpen 128 (0 ∷ 128 ∷ []) (calm double)
unfolding handle_chunk_size head_file_chunk_size byte num
double-IsOpen = record {
  valid = open_handle-IsValid;
  chunks = refl;
  position = omega arith;
  small = omega arith;
  quiet = refl;
  database = double-IsDatabase;
}

data_block-Fits : Fits 128 (calm double) data_block
data_block-Fits = record {
  plain = data_block-IsPlain;
  long = omega arith;
  whole = omega arith;
  narrow = omega arith;
  room = omega arith;
}

pub at_128 : head_size (member double_file 128 (record { at = 0; width = 2 })) ≡ 32
unfolding byte num head_size
at_128 = refl

pub free_128 : member double_file 128 next_offset ≡ 0
unfolding byte num
free_128 = refl

-- the state when the chain has been extended
abbrev extended : World
extended = calm (
    final double data_block double-Ready data_block-IsPlain 128 (omega arith) (omega arith) free_128
      at_128 (omega arith))

one_step : Steps 128 (0 ∷ 128 ∷ []) (calm double) (0 ∷ 128 ∷ 256 ∷ []) extended
unfolding last_of
one_step = and_one none_yet (
    Step.extend {ps = 0 ∷ 128 ∷ []} data_block data_block-Fits at_128 (
      extend_chain-final double data_block double-Ready data_block-IsPlain 128 (omega arith)
        (omega arith) free_128 at_128 (omega arith)))

Steps-IsOpen_example :
    IsOpen 128 (0 ∷ 128 ∷ 256 ∷ []) extended
    × ((qs : List ℕ) × (0 ∷ 128 ∷ 256 ∷ [] ≡ (0 ∷ 128 ∷ []) ++ qs))
Steps-IsOpen_example = Steps-IsOpen double-IsOpen one_step

data_block-Suits : Suits 128 data_block
data_block-Suits = record {
  plain = data_block-IsPlain;
  long = omega arith;
  whole = omega arith;
  narrow = omega arith;
}

Adds-progress_example :
    (w' : World) × Adds data_block (0 ∷ 128 ∷ []) (calm double) (0 ∷ 128 ∷ 256 ∷ 384 ∷ 512 ∷ []) w'
    × IsOpen 128 (0 ∷ 128 ∷ 256 ∷ 384 ∷ 512 ∷ []) w'
    × (w'.file.size ≡ 640)
Adds-progress_example = Adds-progress data_block data_block-Suits 3 double-IsOpen (omega arith)
