-- ===== src/Database/Steps.antt =====
-- Calls of the library one after the other, as steps of the list of a database's blocks.
use recnodb.Base.{ℕ, ◌≤◌, ◌≡◌, refl, ap, sym, ◌∙◌, Bool, List, [], ◌∷◌, ◌++◌, length}
use mathlib.Core.Path.{subst}
use recnodb.Bytes.{Bytes}
use recnodb.Types.{Error}
use recnodb.Stdio.{World, Cmd, ok, Returns}
use recnodb.Stdio.Cases.{Returns-ok}
use recnodb.Stdio.Calm.{calm, IsCalm, IsCalm-calm}
use recnodb.Blocks.Layout.{BlockLoc, BlockDef, block_type, member}
use recnodb.Blocks.Validate.{head_size}
use recnodb.Blocks.Append.{append_block, extend_chain}
use recnodb.Chains.{walk, add_link}
use recnodb.Chains.Walk.{pure_viewer}
use recnodb.Chains.Last.{last_of}
use recnodb.Database.Add.{CanLink}
use mathlib.Core.List.{append-nil, append_assoc}
use recnodb.Database.Calls.{
  IsOpen, Fits, reopen_file, append-IsOpen, extend-IsOpen, link-IsOpen, view-IsOpen, reopen-IsOpen,
}

-- One call of the library, with the list of linked blocks before and after it.
pub data Step (chunk : ℕ) : List ℕ → World → List ℕ → World → Type 1 where
  append :
      {ps : List ℕ} {w w' : World} {r : Error × BlockDef} (d : BlockDef)
      → Fits chunk w d
      → append_block d w ≡ ok r w'
      → Step chunk ps w ps w'
  extend :
      {ps : List ℕ} {w w' : World} {r : Error × BlockDef} (d : BlockDef)
      → Fits chunk w d
      → head_size (member w.file (last_of ps) block_type) ≡ 32
      → extend_chain (last_of ps) d w ≡ ok r w'
      → Step chunk ps w (ps ++ w.file.size ∷ []) w'
  link :
      {ps : List ℕ} {w w' : World} {e : Error} (loc : BlockLoc)
      → CanLink w.file chunk ps loc
      → add_link (last_of ps) loc w ≡ ok e w'
      → Step chunk ps w (ps ++ loc.offset ∷ []) w'
  view :
      {ps : List ℕ} {w w' : World} {S : Type 0} {r : Error × S} (s : S)
      (step : Bytes → ℕ → S → Bool × S) (fuel : ℕ)
      → length ps ≤ fuel
      → walk (pure_viewer step) fuel 0 s w ≡ ok r w'
      → Step chunk ps w ps w'
  reopen :
      {ps : List ℕ} {w w' : World} {e : Error} → reopen_file w ≡ ok e w' → Step chunk ps w ps w'

-- any number of them
pub data Steps (chunk : ℕ) : List ℕ → World → List ℕ → World → Type 1 where
  none_yet : {ps : List ℕ} {w : World} → Steps chunk ps w ps w
  and_one :
      {ps ps' ps'' : List ℕ} {w w' w'' : World}
      → Steps chunk ps w ps' w'
      → Step chunk ps' w' ps'' w''
      → Steps chunk ps w ps'' w''

-- what a run from a quiet state has come to
reached :
    {A : Type 0} {P : A → World → Type 0} (m : Cmd A) {w w' : World} {a : A}
    → IsCalm w
    → Returns P (m (calm w))
    → m w ≡ ok a w'
    → P a w'
reached {P} m quiet run e =
    Returns-ok (subst (Returns P) e (subst (λ u. Returns P (m u)) (sym (IsCalm-calm quiet)) run))

-- one step
Step-IsOpen :
    {chunk : ℕ} {ps ps' : List ℕ} {w w' : World}
    → IsOpen chunk ps w
    → Step chunk ps w ps' w'
    → IsOpen chunk ps' w'
Step-IsOpen {w} o (append d fits e) = reached (append_block d) o.quiet (append-IsOpen w d o fits) e
Step-IsOpen {ps} {w} o (extend d fits h e) =
    reached (extend_chain (last_of ps) d) o.quiet (extend-IsOpen w d o fits h) e
Step-IsOpen {ps} {w} o (link loc can e) =
    reached (add_link (last_of ps) loc) o.quiet (link-IsOpen w loc o can) e
Step-IsOpen {w} o (view s step fuel enough e) =
    reached (walk (pure_viewer step) fuel 0 s) o.quiet (view-IsOpen step fuel s w o enough) e
Step-IsOpen {w} o (reopen e) = reached reopen_file o.quiet (reopen-IsOpen w o) e

Step-grows :
    {chunk : ℕ} {ps ps' : List ℕ} {w w' : World}
    → Step chunk ps w ps' w'
    → (qs : List ℕ) × (ps' ≡ ps ++ qs)
Step-grows {ps} (append d fits e) = ([], sym (append-nil ps))
Step-grows {ps} {w} (extend d fits h e) = (w.file.size ∷ [], refl)
Step-grows (link loc can e) = (loc.offset ∷ [], refl)
Step-grows {ps} (view s step fuel enough e) = ([], sym (append-nil ps))
Step-grows {ps} (reopen e) = ([], sym (append-nil ps))

-- Any sequence of calls without faults on an open database of whole chunks keeps it one:
-- blocks_append_block, and blocks_extend_chain at the last block if its head has 32 bytes, with
-- blocks that fit, chains_add_link at the last block with the place of another at a whole chunk,
-- not at 0, that has a readable head of 32 to 72 bytes and no successor and stands clear of the
-- last one, chains_walk with a viewer that only updates its closure, and closing and opening
-- again. The handle stays valid with the same chunk size, the file ends at a whole chunk, the
-- linked blocks are a chain of readable heads at multiples of the chunk size behind a head that
-- passes the check, and their list is that before with the new ones behind it.
pub Steps-IsOpen :
    {chunk : ℕ} {ps ps' : List ℕ} {w w' : World}
    → IsOpen chunk ps w
    → Steps chunk ps w ps' w'
    → IsOpen chunk ps' w' × ((qs : List ℕ) × (ps' ≡ ps ++ qs))
Steps-IsOpen {ps} o none_yet = (o, ([], sym (append-nil ps)))
Steps-IsOpen {ps} o (and_one steps one) =
    let (o', (qs, e)) = Steps-IsOpen o steps in
    let (rs, e') = Step-grows one in
    (Step-IsOpen o' one, (qs ++ rs, e' ∙ (ap (λ xs. xs ++ rs) e ∙ append_assoc ps qs rs)))
