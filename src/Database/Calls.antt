-- ===== src/Database/Calls.antt =====
-- The calls of the library on an open database, in a run without faults, as equations of states.
use recnodb.Base.{
  true, ℕ, ◌+◌, ◌%◌, ◌^◌, ◌≤◌, ◌<◌, ◌≡◌, refl, ap, sym, ◌∙◌, Bool, false, List, [], ◌∷◌, ◌++◌,
  arith, length,
}
use mathlib.Core.Path.{subst}
use recnodb.Bytes.{Bytes}
use recnodb.Blocks.Head.Fields.{size-copy}
use recnodb.Types.{Error}
use recnodb.Stdio.{World, Cmd, ◌>>◌, Returns, returns, off_limit}
use recnodb.Stdio.Cases.{bind, mono}
use recnodb.Stdio.Calm.{calm, IsCalm, IsCalm-calm}
use recnodb.Blocks.Layout.{BlockLoc, BlockDef, block_type, member}
use recnodb.Blocks.Validate.{head_size}
use recnodb.Blocks.Append.{append_block, extend_chain}
use recnodb.Blocks.Append.Extend.{IsValid, IsValid-primed, chunk_of, chunk_of-primed}
use recnodb.Blocks.Append.NewHead.{IsPlain}
use recnodb.Blocks.Append.Block.{Ready, placed, appended, append_block-plain, size-appended}
use recnodb.Blocks.Append.Chain.{extend_chain-final, final}
use recnodb.Blocks.Append.ChainStart.{start, after_read}
use recnodb.Chains.{walk, add_link}
use recnodb.Chains.Walk.{pure_viewer, walk-rounds, rounds-visits}
use recnodb.Chains.Last.{last_of}
use recnodb.Chains.Grow.{last-IsHead, last-free}
use recnodb.Chains.Link.{relinked, add_link-with_link}
use recnodb.Chains.Equivalent.{before, same_file, size-linked}
use recnodb.Blocks.Open.{file_open, file_close}
use recnodb.Blocks.Open.Load.{existing, file_open-loaded}
use recnodb.Blocks.Open.Use.{file_close-closes}
use recnodb.Database.{IsDatabase, loads, at_head-IsValid, chunk_of-at_head}
use recnodb.Database.Stays.{first-IsHead}
use recnodb.Database.Add.{CanLink, appended-IsDatabase, appended-CanLink, with_link-IsDatabase}

-- a process that has a database open, where no call fails
pub record IsOpen (chunk : ℕ) (ps : List ℕ) (w : World) : Type 0 where
  pub valid : IsValid w.handle
  pub chunks : chunk_of w.handle ≡ chunk
  pub position : w.pos < off_limit
  pub small : w.file.size < off_limit
  pub quiet : IsCalm w
  pub database : IsDatabase w.file chunk ps

-- a block that fits: neither a table nor a file, of whole chunks, in the range of `off_t`
pub record Fits (chunk : ℕ) (w : World) (d : BlockDef) : Type 0 where
  pub plain : IsPlain d
  pub long : 72 ≤ d.block_size
  pub whole : d.block_size % chunk ≡ 0
  pub narrow : d.block_size < 2 ^ 32
  pub room : w.file.size + d.block_size < off_limit

pub IsOpen-Ready :
    {chunk : ℕ} {ps : List ℕ} {w : World} {d : BlockDef}
    → IsOpen chunk ps w
    → Fits chunk w d
    → Ready w d
IsOpen-Ready {w} {d} open_one fits = record {
  valid = open_one.valid;
  position = open_one.position;
  room = fits.room;
  aligned = ap (λ c. w.file.size % c) open_one.chunks ∙ open_one.database.ends;
  nonempty = omega (arith, fits.long);
  narrow = fits.narrow;
}

-- the file is closed and opened again
abbrev pub reopen_file : Cmd Error
reopen_file = file_close true >> file_open (existing false) 0 0 true

pub append-IsOpen :
    {chunk : ℕ} {ps : List ℕ} (w : World) (d : BlockDef)
    → IsOpen chunk ps w
    → Fits chunk w d
    → Returns (λ _ w'. IsOpen chunk ps w') (append_block d (calm w))
append-IsOpen {chunk} w d o fits =
    let ready = IsOpen-Ready o fits in
    rw (append_block-plain w d ready fits.plain) (
      returns (record {
        valid = IsValid-primed w.handle o.valid;
        chunks = chunk_of-primed w.handle ∙ o.chunks;
        position = o.position;
        small =
            omega (arith, size-appended w d ready fits.plain (omega (arith, fits.long)), fits.room);
        quiet = refl;
        database = appended-IsDatabase w d chunk ready fits.plain fits.long fits.whole o.database;
      }))

pub extend-IsOpen :
    {chunk : ℕ} {ps : List ℕ} (w : World) (d : BlockDef)
    → IsOpen chunk ps w
    → Fits chunk w d
    → head_size (member w.file (last_of ps) block_type) ≡ 32
    → Returns
        (λ _ w'. IsOpen chunk (ps ++ w.file.size ∷ []) w')
        (extend_chain (last_of ps) d (calm w))
unfolding final start after_read
extend-IsOpen {chunk} {ps} w d o fits plain_head =
    let ready = IsOpen-Ready o fits in
    let h = last-IsHead o.database.chain in
    let z = last_of ps in
    let inside : z + 32 ≤ w.file.size = omega (arith, h.inside) in
    let roomy : 32 ≤ d.block_size = omega (arith, fits.long) in
    let free = last-free o.database.chain in
    let can = appended-CanLink w d chunk ready fits.plain fits.long fits.whole o.database in
    rw
      (extend_chain-final w d ready fits.plain z inside
        (before w d ready fits.plain z inside roomy free plain_head) free plain_head roomy)
      (returns (record {
        valid = IsValid-primed w.handle o.valid;
        chunks = chunk_of-primed w.handle ∙ o.chunks;
        position = omega (arith, h.positive, h.inside, fits.room);
        small =
            omega
              (arith, size-linked w d ready fits.plain z inside roomy free plain_head, fits.room);
        quiet = refl;
        database =
            subst (λ f. IsDatabase f chunk (ps ++ w.file.size ∷ []))
              (same_file w d ready fits.plain z inside roomy free plain_head)
              (with_link-IsDatabase (appended w d) (placed w d).new_block chunk o.valid.0 can);
      }))

pub link-IsOpen :
    {chunk : ℕ} {ps : List ℕ} (w : World) (loc : BlockLoc)
    → IsOpen chunk ps w
    → CanLink w.file chunk ps loc
    → Returns (λ _ w'. IsOpen chunk (ps ++ loc.offset ∷ []) w') (add_link (last_of ps) loc (calm w))
link-IsOpen {chunk} {ps} w loc o can =
    let h = last-IsHead o.database.chain in
    rw
      (add_link-with_link w (last_of ps) loc h.positive (omega (arith, h.inside)) o.valid.0
        (last-free o.database.chain))
      (returns (record {
        valid = o.valid;
        chunks = o.chunks;
        position = omega (arith, h.inside, o.small);
        small = omega (
          arith,
          o.small,
          size-copy w.file (last_of ps) (relinked w (last_of ps) loc) 0 32,
          h.inside,
        );
        quiet = refl;
        database = with_link-IsDatabase w loc chunk o.valid.0 can;
      }))

pub view-IsOpen :
    {chunk : ℕ} {ps : List ℕ} {S : Type 0} (step : Bytes → ℕ → S → Bool × S) (fuel : ℕ) (s : S)
    (w : World)
    → IsOpen chunk ps w
    → length ps ≤ fuel
    → Returns (λ _ w'. IsOpen chunk ps w') (walk (pure_viewer step) fuel 0 s (calm w))
view-IsOpen {chunk} {ps} step fuel s w o enough =
    rw (walk-rounds (pure_viewer step) fuel 0 s (calm w) o.valid.0) (
      mono (rounds-visits step fuel w s o.database.chain enough)
        λ r w' (_, _, file, handle, quiet, behind). record {
          valid = subst IsValid (sym handle) o.valid;
          chunks = ap chunk_of handle ∙ o.chunks;
          position = omega (arith, o.small);
          small = omega (arith, ap (λ f. f.size) file, o.small);
          quiet = quiet;
          database = subst (λ f. IsDatabase f chunk ps) (sym file) o.database;
        })

pub reopen-IsOpen :
    {chunk : ℕ} {ps : List ℕ} (w : World)
    → IsOpen chunk ps w
    → Returns (λ _ w'. IsOpen chunk ps w') (reopen_file (calm w))
reopen-IsOpen {chunk} {ps} w o =
    bind (file_close-closes (calm w) o.valid.0) λ _ w1 (file, _, same, _).
      let db = subst (λ f. IsDatabase f chunk ps) (sym file) o.database in
      subst (λ u. Returns (λ _ w'. IsOpen chunk ps w') (file_open (existing false) 0 0 true u))
        (sym (IsCalm-calm same))
        (rw (file_open-loaded false 0 0 w1 (first-IsHead db.chain).inside (loads db)) (
          returns (record {
            valid = at_head-IsValid w1 db;
            chunks = chunk_of-at_head w1 db;
            position = omega arith;
            small = omega (arith, ap (λ f. f.size) file, o.small);
            quiet = refl;
            database = db;
          })))
