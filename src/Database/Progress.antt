-- ===== src/Database/Progress.antt =====
-- An open database is never stuck: there are calls that give it any number of blocks more.
use recnodb.Base.{
  ℕ, zero, suc, ◌+◌, ◌*◌, ◌%◌, ◌^◌, ◌≤◌, ◌<◌, ◌≡◌, ap, ◌∙◌, List, [], ◌∷◌, ◌++◌, arith,
}
use mathlib.Core.Path.{subst}
use recnodb.Types.{success}
use recnodb.Stdio.{World, ok, off_limit}
use recnodb.Stdio.Calm.{calm, IsCalm-calm}
use recnodb.Blocks.Layout.{BlockLoc, BlockDef}
use recnodb.Blocks.Head.Fields.{size-copy}
use recnodb.Blocks.Append.{append_block}
use recnodb.Blocks.Append.NewHead.{IsPlain}
use recnodb.Blocks.Append.Block.{appended, placed, append_block-plain, size-appended}
use recnodb.Chains.{add_link}
use recnodb.Chains.Last.{last_of}
use recnodb.Chains.Grow.{last-IsHead, last-free}
use recnodb.Chains.Link.{with_link, relinked, add_link-with_link}
use recnodb.Database.Add.{appended-CanLink}
use recnodb.Database.Calls.{IsOpen, Fits, IsOpen-Ready}
use recnodb.Database.Steps.{append, link, none_yet, and_one, Steps-IsOpen}

-- The list with the places of `n` blocks of `size` bytes behind it, the first of which is at `from`.
abbrev pub lined_up : List ℕ → ℕ → ℕ → ℕ → List ℕ
lined_up ps from size zero = ps
lined_up ps from size (suc n) = lined_up ps from size n ++ (from + n * size) ∷ []

-- a kind of block that an open database takes as long as there is room
pub record Suits (chunk : ℕ) (d : BlockDef) : Type 0 where
  pub plain : IsPlain d
  pub long : 72 ≤ d.block_size
  pub whole : d.block_size % chunk ≡ 0
  pub narrow : d.block_size < 2 ^ 32

-- Calls of blocks_append_block of a block, each of which is followed by a call of chains_add_link
-- that links the new block to the last one. All of them succeed.
pub data Adds (d : BlockDef) : List ℕ → World → List ℕ → World → Type 0 where
  no_call : {ps : List ℕ} {w : World} → Adds d ps w ps w
  and_added :
      {ps qs : List ℕ} {v w u w' : World} {added : BlockDef}
      → Adds d ps v qs w
      → append_block d w ≡ ok (success, added) u
      → add_link (last_of qs) added.new_block u ≡ ok success w'
      → Adds d ps v (qs ++ added.new_block.offset ∷ []) w'

module _ {chunk : ℕ} (d : BlockDef) (suits : Suits chunk d) where
  -- A call of blocks_append_block and one of chains_add_link bring a block more.
  one_more :
      {ps qs : List ℕ} {v w : World}
      → Adds d ps v qs w
      → IsOpen chunk qs w
      → w.file.size + d.block_size < off_limit
      → (w' : World) × Adds d ps v (qs ++ w.file.size ∷ []) w'
        × IsOpen chunk (qs ++ w.file.size ∷ []) w'
        × (w'.file.size ≡ w.file.size + d.block_size)
  one_more {qs} {w} before o room =
      let fits : Fits chunk w d = record {
        plain = suits.plain;
        long = suits.long;
        whole = suits.whole;
        narrow = suits.narrow;
        room = room;
      } in
      let ready = IsOpen-Ready o fits in
      let a = appended w d in
      let loc : BlockLoc = record { offset = w.file.size; size = d.block_size } in
      let can = appended-CanLink w d chunk ready suits.plain suits.long suits.whole o.database in
      let h = last-IsHead can.database.chain in
      let first : append_block d w ≡ ok (success, placed w d) (calm a) =
        ap (append_block d) (IsCalm-calm o.quiet) ∙ append_block-plain w d ready suits.plain in
      let second =
        add_link-with_link a (last_of qs) loc h.positive (omega (arith, h.inside)) o.valid.0
          (last-free can.database.chain) in
      (
        calm (with_link a (last_of qs) loc),
        and_added before first second,
        (Steps-IsOpen o (and_one (and_one none_yet (append d fits first)) (link loc can second))).0,
        omega (
          arith,
          size-copy a.file (last_of qs) (relinked a (last_of qs) loc) 0 32,
          h.inside,
          size-appended w d ready suits.plain (omega (arith, suits.long)),
        ),
      )

  -- An open database of whole chunks is never stuck: in a run without faults, for every `n` and a
  -- block of 72 bytes or more and of whole chunks, with a size of 32 bits, that is neither a
  -- table nor a file, `n` times blocks_append_block of it and chains_add_link of the new block to
  -- the last one, nothing else being called, succeed and lead to an open database with `n` blocks
  -- more, each at the old end of the file and at the end of the list, as long as these blocks
  -- together fit the range of `off_t`; the file is longer by these blocks and by nothing else.
  pub Adds-progress :
      (n : ℕ) {ps : List ℕ} {w : World}
      → IsOpen chunk ps w
      → w.file.size + n * d.block_size < off_limit
      → (w' : World) × Adds d ps w (lined_up ps w.file.size d.block_size n) w'
        × IsOpen chunk (lined_up ps w.file.size d.block_size n) w'
        × (w'.file.size ≡ w.file.size + n * d.block_size)
  Adds-progress zero {w} o room = (w, no_call, o, omega arith)
  Adds-progress (suc n) {ps} {w} o room =
      let (v, calls, still, size) = Adds-progress n o (omega arith) in
      let (w', more, open_again, grown) = one_more calls still (omega (arith, size)) in
      let all =
        subst
          (λ z.
            let qs = lined_up ps w.file.size d.block_size n ++ z ∷ [] in
            Adds d ps w qs w' × IsOpen chunk qs w')
          size (more, open_again) in
      (w', all.0, all.1, omega (arith, size, grown))
