-- ===== src/Programs/BlockTests/Growth.antt =====
-- `add_block_file_user` of src/test_blocks.c adds a block to a database, in a run without faults.
use recnodb.Base.{
  ℕ, ◌+◌, ◌%◌, ◌≤◌, ◌<◌, ◌≡◌, ap, sym, ◌∙◌, true, false, List, [], ◌∷◌, ◌++◌, arith, length,
}
use mathlib.Core.Path.{subst}
use recnodb.Bytes.{Bytes}
use recnodb.Types.{is_success, live, null}
use recnodb.Stdio.{World, Cmd, Returns, returns, off_limit}
use recnodb.Stdio.Cases.{bind}
use recnodb.Stdio.Calm.{calm, IsCalm}
use recnodb.Blocks.Layout.{BlockDef, BlockLoc, rbt_data}
use recnodb.Blocks.Append.NewHead.{IsPlain}
use recnodb.Blocks.Append.Extend.{IsValid, chunk_of}
use recnodb.Blocks.Append.Block.{Ready, appended, append_block-plain, size-appended}
use recnodb.Blocks.Open.{file_use}
use recnodb.Blocks.Open.Load.{file_open-loaded}
use recnodb.Chains.{LastLink, last_link, last_link_viewer}
use recnodb.Chains.Walk.{walk-rounds}
use recnodb.Chains.Last.{last_link-found}
use recnodb.Database.{IsDatabase, loads, at_head}
use recnodb.Database.Stays.{first-IsHead}
use recnodb.Blocks.Open.Use.{used_well}
use recnodb.Database.Add.{CanLink, appended-CanLink, add_link-adds}
use recnodb.Programs.BlockTests.{plain_def, add_block_file_user, test_blocks_file_use}

-- the block that is added
abbrev pub bdef : BlockDef
bdef = plain_def rbt_data 4096

pub bdef-IsPlain : IsPlain bdef
bdef-IsPlain = record { narrow_type = omega arith; not_table = omega arith; not_file = omega arith }

module _ (fuel : ℕ) (ifile : LastLink) (space : 72 ≤ ifile.ib.size) (chunk : ℕ)
    (whole : 4096 % chunk ≡ 0) where
  -- one block more, at the end of the file, and at the end of the chain
  pub add_block_file_user-adds :
      (v : World) {ps : List ℕ}
      → IsValid v.handle
      → chunk_of v.handle ≡ chunk
      → v.pos < off_limit
      → IsDatabase v.file chunk ps
      → v.file.size + 4096 < off_limit
      → length ps ≤ fuel
      → Returns
          (λ _ w'.
            IsDatabase w'.file chunk (ps ++ v.file.size ∷ [])
            × (w'.file.size ≡ v.file.size + 4096)
            × (w'.handle.stream ≡ live)
            × IsCalm w')
          (add_block_file_user fuel ifile (calm v))
  unfolding add_block_file_user last_link
  add_block_file_user-adds v {ps} valid chunks position db room enough =
      let ready : Ready v bdef = record {
        valid = valid;
        position = position;
        room = room;
        aligned = ap (λ c. v.file.size % c) chunks ∙ db.ends;
        nonempty = omega arith;
        narrow = omega arith;
      } in
      let a = appended v bdef in
      let loc : BlockLoc = record { offset = v.file.size; size = 4096 } in
      let can = appended-CanLink v bdef chunk ready bdef-IsPlain (omega arith) whole db in
      let opened = valid.0 in
      let size = size-appended v bdef ready bdef-IsPlain (omega arith) in
      rw
        (
          append_block-plain v bdef ready bdef-IsPlain,
          walk-rounds last_link_viewer fuel 0 ifile (calm a) opened,
        )
        (bind
          (last_link-found fuel a ifile can.database.chain enough can.database.short
            (omega (arith, can.database.short)))
          λ r w2 (q, file, handle, quiet). rw q (
            bind
              (add_link-adds w2 loc chunk quiet (ap (λ h. h.stream) handle ∙ opened)
                (subst (λ f. CanLink f chunk ps loc) (sym file) can))
              λ e w3 (_, db', same, kept, quiet'). returns (
                db',
                same ∙ (ap (λ f. f.size) file ∙ size),
                ap (λ h. h.stream) kept ∙ (ap (λ h. h.stream) handle ∙ opened),
                quiet',
              )))

module _ (Q : Bytes → Type 0) (user : Cmd (Unit {0})) where
  -- test_blocks_file_use of a database, with a callback that comes back
  pub test_blocks_file_use-runs :
      (w : World) {chunk : ℕ} {ps : List ℕ}
      → IsDatabase w.file chunk ps
      → Returns
          (λ _ w'. Q w'.file × (w'.handle.stream ≡ live) × IsCalm w')
          (user (calm (at_head w)))
      → Returns
          (λ b w'. (b ≡ true) × Q w'.file × (w'.handle.stream ≡ null) × IsCalm w')
          (test_blocks_file_use user (calm w))
  unfolding test_blocks_file_use file_use
  test_blocks_file_use-runs w db run =
      let h = first-IsHead db.chain in
      rw (file_open-loaded false 0 0 w h.inside (loads db)) (
        bind (used_well (λ f _. Q f) user (calm (at_head w)) run)
          λ e w2 (s, q, closed, quiet). returns (ap is_success s, q, closed, quiet))
