-- ===== src/Chains/Walk.antt =====
-- `chains_walk` on the chains that stand in a file.
use recnodb.Base.{
  ℕ, zero, suc, ◌+◌, ◌≤◌, ◌<◌, ◌≡◌, refl, ◌≢◌, List, [], ◌∷◌, Bool, true, arith, Bool-cases, inl,
  inr, length, if◌then◌else◌, ne→==,
}
use recnodb.Bytes.{Bytes, zeros, read, write}
use recnodb.Types.{success, live}
use recnodb.Stdio.{World, ok, out_of_fuel, off_limit, Returns, returns}
use recnodb.Stdio.Cases.{mono, use_file-opened}
use recnodb.Stdio.Calm.{calm, IsCalm}
use recnodb.Blocks.Layout.{next_offset, member}
use recnodb.Blocks.Head.Fields.{member-copy}
use recnodb.Blocks.Head.Transfer.{seek_and_read-calm}
use recnodb.Chains.{BlockWalkView, walk, rounds}

-- A head that chains_walk can read stands at `p`.
pub record IsHead (f : Bytes) (p : ℕ) : Type 0 where
  pub positive : p < off_limit
  pub inside : p + 72 ≤ f.size

-- The successors of the block at an offset are those at the other offsets, and the last has none.
pub data Chain (f : Bytes) : ℕ → List ℕ → Type 0 where
  end : {p : ℕ} → IsHead f p → member f p next_offset ≡ 0 → Chain f p (p ∷ [])
  link :
      {p q : ℕ} {ps : List ℕ}
      → IsHead f p
      → member f p next_offset ≡ q
      → q ≢ 0
      → Chain f q ps
      → Chain f p (p ∷ ps)

-- the head as the viewer gets it
abbrev pub curblock : Bytes → ℕ → Bytes
curblock f p = write (zeros 72) 0 (read f p 72)

pub next-curblock :
    (f : Bytes) (p : ℕ) → member (curblock f p) 0 next_offset ≡ member f p next_offset
next-curblock f p = member-copy (zeros 72) 0 f p 72 next_offset (omega arith)

-- the state after one block has been read
abbrev pub seen : World → ℕ → World
seen w p = record w { pos = p + 72; tick = w.tick + 1 + 1 }

-- chains_walk on an open file is its rounds
pub walk-rounds :
    {S : Type 0} (viewer : BlockWalkView S) (fuel p : ℕ) (s : S) (w : World)
    → w.handle.stream ≡ live
    → walk viewer fuel p s w ≡ rounds viewer fuel p s w
unfolding walk
walk-rounds viewer fuel p s w opened = rw (use_file-opened w opened)

module _ {S : Type 0} (step : Bytes → ℕ → S → Bool × S) where
  -- a viewer that does no more than update its closure
  abbrev pub pure_viewer : BlockWalkView S
  pure_viewer ib offset s w = ok (step ib offset s) w

  -- What the viewer makes of the blocks at some offsets, in order, until it declines to go on.
  unfoldable pub visit : Bytes → List ℕ → S → S
  visit f [] s = s
  visit f (p ∷ ps) s =
      let (more, s') = step (curblock f p) p s in
      let rest = visit f ps s' in if more then rest else s'

  pub rounds-visits :
      (fuel : ℕ) (w : World) (s : S) {p : ℕ} {ps : List ℕ}
      → Chain w.file p ps
      → length ps ≤ fuel
      → Returns
          (λ (e, s') w'.
            (e ≡ success)
            × (s' ≡ visit w.file ps s)
            × (w'.file ≡ w.file)
            × (w'.handle ≡ w.handle)
            × IsCalm w'
            × (w'.pos ≤ w.file.size))
          (rounds pure_viewer fuel p s (calm w))
  unfolding rounds visit
  rounds-visits zero w s (end h e) enough = absurd (omega arith)
  rounds-visits zero w s (link h e ne c) enough = absurd (omega arith)
  rounds-visits (suc fuel) w s (end {p} h e) enough =
      rw (seek_and_read-calm w p h.positive 72 (omega arith) h.inside, next-curblock w.file p, e)
        (elim (Bool-cases (step (curblock w.file p) p s).0) [
          | inl m ↦ rw m (returns (refl, refl, refl, refl, refl, h.inside))
          | inr m ↦ rw m (returns (refl, refl, refl, refl, refl, h.inside))
        ])
  rounds-visits (suc fuel) w s (link {p} {q} {ps} h e ne c) enough =
      rw
        (
          seek_and_read-calm w p h.positive 72 (omega arith) h.inside,
          next-curblock w.file p,
          e,
          ne→== q 0 ne,
        )
        (elim (Bool-cases (step (curblock w.file p) p s).0) [
          | inl m ↦
              rw m (rounds-visits fuel (seen w p) (step (curblock w.file p) p s).1 c (omega arith))
          | inr m ↦ rw m (returns (refl, refl, refl, refl, refl, h.inside))
        ])

  -- In a run without faults, with an open handle, on a chain of readable heads, chains_walk with
  -- a viewer that does no more than update its closure shows the viewer each block once, in
  -- order, until the viewer declines or the chain ends, in as many rounds as there are blocks. It
  -- succeeds and leaves the file and the handle alone.
  pub walk-visits :
      (fuel : ℕ) (w : World) (s : S) {p : ℕ} {ps : List ℕ}
      → w.handle.stream ≡ live
      → Chain w.file p ps
      → length ps ≤ fuel
      → Returns
          (λ (e, s') w'.
            (e ≡ success) × (s' ≡ visit w.file ps s) × (w'.file ≡ w.file) × (w'.handle ≡ w.handle))
          (walk pure_viewer fuel p s (calm w))
  walk-visits fuel w s {p} opened c enough = rw (walk-rounds pure_viewer fuel p s (calm w) opened) (
      mono (rounds-visits fuel w s c enough)
        λ r w' (e, visited, file, handle, _, _). (e, visited, file, handle))

rounds-cycle :
    {S : Type 0} (view : Bytes → ℕ → S → S) (fuel : ℕ) (w : World) (s : S) (p : ℕ)
    → IsHead w.file p
    → member w.file p next_offset ≡ p
    → p ≢ 0
    → rounds (pure_viewer (λ ib o s. (true, view ib o s))) fuel p s (calm w) ≡ out_of_fuel
unfolding rounds
rounds-cycle view zero w s p h e ne = refl
rounds-cycle view (suc fuel) w s p h e ne =
    rw
      (
        seek_and_read-calm w p h.positive 72 (omega arith) h.inside,
        next-curblock w.file p,
        e,
        ne→== p 0 ne,
      )
      (rounds-cycle view fuel (seen w p) (view (curblock w.file p) p s) p h e ne)

-- In a run without faults, with an open handle, on a readable block that is its own successor
-- chains_walk with a viewer that always goes on does not end: no number of rounds is enough.
walk-cycle :
    {S : Type 0} (view : Bytes → ℕ → S → S) (fuel : ℕ) (w : World) (s : S) (p : ℕ)
    → w.handle.stream ≡ live
    → IsHead w.file p
    → member w.file p next_offset ≡ p
    → p ≢ 0
    → walk (pure_viewer (λ ib o s. (true, view ib o s))) fuel p s (calm w) ≡ out_of_fuel
walk-cycle view fuel w s p opened h e ne =
    rw (walk-rounds (pure_viewer (λ ib o s. (true, view ib o s))) fuel p s (calm w) opened)
      (rounds-cycle view fuel w s p h e ne)
