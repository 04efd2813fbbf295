-- ===== src/Database/Add.antt =====
-- A block is appended to a database, and linked to the last one.
use recnodb.Base.{
  ℕ, ◌+◌, ◌%◌, ◌^◌, ◌≤◌, ◌<◌, ◌≡◌, refl, ◌≢◌, ap, sym, ◌⊎◌, inr, List, [], ◌∷◌, ◌++◌, arith,
}
use mathlib.Core.Path.{subst}
use recnodb.Bytes.{Bytes}
use recnodb.Blocks.Head.Fields.{size-copy}
use recnodb.Types.{success, live}
use recnodb.Stdio.{World, Returns, returns, off_limit}
use recnodb.Stdio.Cases.{Returns-ok}
use recnodb.Stdio.Calm.{IsCalm, IsCalm-calm}
use recnodb.Blocks.Layout.{BlockLoc, BlockDef, bytes_to_data, next_offset, info_at, member}
use recnodb.Blocks.Append.Block.{Ready, appended, Agree-appended, size-appended, info_at-appended}
use recnodb.Blocks.Append.NewHead.{IsPlain}
use recnodb.Chains.{add_link}
use recnodb.Chains.Last.{last_of}
use recnodb.Chains.Link.{relinked, with_link, add_link-with_link, add_link-links}
use recnodb.Chains.Grow.{add_link-Chain, last-IsHead, last-free}
use recnodb.Database.{IsDatabase}
use recnodb.Database.Stays.{IsDatabase-longer, IsDatabase-linked}

-- blocks_append_block of whole chunks leaves the blocks that are linked.
pub appended-IsDatabase :
    (w : World) (d : BlockDef) (chunk : ℕ) {ps : List ℕ}
    → Ready w d
    → IsPlain d
    → 72 ≤ d.block_size
    → d.block_size % chunk ≡ 0
    → IsDatabase w.file chunk ps
    → IsDatabase (appended w d).file chunk ps
appended-IsDatabase w d chunk {ps} ready plain long whole db =
    IsDatabase-longer w.file (appended w d).file chunk d.block_size ps db
      (Agree-appended w d ready plain w.file.size (omega arith) (omega arith))
      (size-appended w d ready plain (omega arith)) whole

-- what is needed of a block that is linked to the last one
pub record CanLink (f : Bytes) (chunk : ℕ) (ps : List ℕ) (loc : BlockLoc) : Type 0 where
  pub database : IsDatabase f chunk ps
  pub multiple : loc.offset % chunk ≡ 0
  pub apart : (loc.offset + 72 ≤ last_of ps) ⊎ (last_of ps + 32 ≤ loc.offset)
  pub inside : loc.offset + 72 ≤ f.size
  pub positive : loc.offset < off_limit
  pub nonzero : loc.offset ≢ 0
  pub free : member f loc.offset next_offset ≡ 0
  pub long : 32 ≤ member f loc.offset bytes_to_data
  pub short : member f loc.offset bytes_to_data ≤ 72
  pub narrow : loc.size < 2 ^ 64

-- the block that has just been appended
pub appended-CanLink :
    (w : World) (d : BlockDef) (chunk : ℕ) {ps : List ℕ}
    → Ready w d
    → IsPlain d
    → 72 ≤ d.block_size
    → d.block_size % chunk ≡ 0
    → IsDatabase w.file chunk ps
    → CanLink (appended w d).file chunk ps (record { offset = w.file.size; size = d.block_size })
unfolding info_at
appended-CanLink w d chunk {ps} ready plain long whole db =
    let h = last-IsHead db.chain in
    let info = info_at-appended w d ready plain in
    let at_data : member (appended w d).file w.file.size bytes_to_data ≡ 32 =
      ap (λ b. b.bytes_to_data) info in
    record {
      database = appended-IsDatabase w d chunk ready plain long whole db;
      multiple = db.ends;
      apart = inr (omega (arith, h.inside));
      inside = omega (arith, size-appended w d ready plain (omega arith));
      positive = omega (arith, ready.room);
      nonzero = omega (arith, h.inside);
      free = ap (λ b. b.next_block.offset) info;
      long = omega (arith, at_data);
      short = omega (arith, at_data);
      narrow = omega (arith, ready.narrow);
    }

-- chains_add_link at the last block puts the new one at the end of the list.
pub with_link-IsDatabase :
    (w : World) (loc : BlockLoc) (chunk : ℕ) {ps : List ℕ}
    → w.handle.stream ≡ live
    → CanLink w.file chunk ps loc
    → IsDatabase (with_link w (last_of ps) loc).file chunk (ps ++ loc.offset ∷ [])
with_link-IsDatabase w loc chunk {ps} opened can =
    let db = can.database in
    let h = last-IsHead db.chain in
    let z = last_of ps in
    let inside : last_of ps + 32 ≤ w.file.size = omega (arith, h.inside) in
    let run = add_link-with_link w z loc h.positive inside opened (last-free db.chain) in
    let (_, info, size, same) = Returns-ok (
      rw run at (
        add_link-links w z loc h.positive inside opened (last-free db.chain)
          (omega (arith, can.positive)) can.narrow)) in
    let (_, c) = Returns-ok (
      rw run at (
        add_link-Chain w loc chunk opened db.chain db.aligned (omega (arith, db.roomy))
          (record { positive = can.positive; inside = can.inside }) can.multiple can.free
          can.nonzero (omega (arith, can.apart)) can.narrow)) in
    IsDatabase-linked w.file (with_link w z loc).file z loc size info same (omega (arith, h.inside))
      loc.offset db refl c can.multiple can.apart can.inside can.long can.short

-- the run of it
pub add_link-adds :
    (w : World) (loc : BlockLoc) (chunk : ℕ) {ps : List ℕ}
    → IsCalm w
    → w.handle.stream ≡ live
    → CanLink w.file chunk ps loc
    → Returns
        (λ e w'.
          (e ≡ success)
          × IsDatabase w'.file chunk (ps ++ loc.offset ∷ [])
          × (w'.file.size ≡ w.file.size)
          × (w'.handle ≡ w.handle)
          × IsCalm w')
        (add_link (last_of ps) loc w)
add_link-adds w loc chunk {ps} quiet opened can =
    let h = last-IsHead can.database.chain in
    let inside : last_of ps + 32 ≤ w.file.size = omega (arith, h.inside) in
    subst
      (λ u.
        Returns
          (λ e w'.
            (e ≡ success)
            × IsDatabase w'.file chunk (ps ++ loc.offset ∷ [])
            × (w'.file.size ≡ w.file.size)
            × (w'.handle ≡ w.handle)
            × IsCalm w')
          (add_link (last_of ps) loc u))
      (sym (IsCalm-calm quiet))
      (rw
        (add_link-with_link w (last_of ps) loc h.positive inside opened
          (last-free can.database.chain))
        (returns (
          refl,
          with_link-IsDatabase w loc chunk opened can,
          omega (arith, size-copy w.file (last_of ps) (relinked w (last_of ps) loc) 0 32),
          refl,
          refl,
        )))
