-- ===== src/Chains/Safe.antt =====
-- `chains_walk` in runs where calls of the C library fail.
use recnodb.Base.{
  ℕ, zero, suc, ◌+◌, ◌≤◌, ◌≡◌, refl, ◌⊎◌, Bool, arith, Bool-cases, inl, inr, length, ne→==, List,
}
use recnodb.Bytes.{Bytes}
use recnodb.Types.{Error, success, system_error, live}
use recnodb.Stdio.{World, Returns, returns, save_errno}
use recnodb.Blocks.Head.Faults.{seek_and_read-cases}
use recnodb.Chains.{walk, rounds, view_block}
use recnodb.Chains.Walk.{Chain, end, link, curblock, next-curblock, pure_viewer, walk-rounds}

-- how a walk may end
abbrev pub WalkResult : Error → World → Type 0
WalkResult e w = (e ≡ success) ⊎ ((e ≡ system_error) × (w.handle.sys_errno ≡ w.errno))

module _ {S : Type 0} (step : Bytes → ℕ → S → Bool × S) where
  rounds-safe :
      (fuel : ℕ) (w : World) (s : S) {p : ℕ} {ps : List ℕ}
      → Chain w.file p ps
      → length ps ≤ fuel
      → Returns
          (λ (e, s') w'. (w'.file ≡ w.file) × WalkResult e w')
          (rounds (pure_viewer step) fuel p s w)
  unfolding rounds view_block save_errno
  rounds-safe zero w s (end h e) enough = absurd (omega arith)
  rounds-safe zero w s (link h e ne c) enough = absurd (omega arith)
  rounds-safe (suc fuel) w s (end {p} h e) enough = elim (seek_and_read-cases w p 72) [
    | inl (_, _, _, q) ↦ rw q (returns (refl, inr (refl, refl)))
    | inr (_, _, q) ↦
        rw (q, next-curblock w.file p, e)
          (elim (Bool-cases (step (curblock w.file p) p s).0) [
            | inl m ↦ rw m (returns (refl, inl refl))
            | inr m ↦ rw m (returns (refl, inl refl))
          ])
  ]
  rounds-safe (suc fuel) w s (link {p} {q} h e ne c) enough = elim (seek_and_read-cases w p 72) [
    | inl (_, _, _, r) ↦ rw r (returns (refl, inr (refl, refl)))
    | inr (_, _, r) ↦
        rw (r, next-curblock w.file p, e, ne→== q 0 ne)
          (elim (Bool-cases (step (curblock w.file p) p s).0) [
            | inl m ↦ rw m (
                rounds-safe fuel (record w { tick = w.tick + 1 + 1; pos = p + 72 })
                  (step (curblock w.file p) p s).1 c (omega arith))
            | inr m ↦ rw m (returns (refl, inl refl))
          ])
  ]

  -- Whichever calls of the C library fail, chains_walk on a chain of readable heads, with an open
  -- handle and a viewer that does no more than update its closure, ends in as many rounds as
  -- there are blocks and leaves the file alone; the result is success, or RND_SYSTEM_ERROR with
  -- `errno` in `sys_errno`.
  pub walk-safe :
      (fuel : ℕ) (w : World) (s : S) {p : ℕ} {ps : List ℕ}
      → w.handle.stream ≡ live
      → Chain w.file p ps
      → length ps ≤ fuel
      → Returns
          (λ (e, s') w'. (w'.file ≡ w.file) × WalkResult e w')
          (walk (pure_viewer step) fuel p s w)
  walk-safe fuel w s {p} opened c enough =
      rw (walk-rounds (pure_viewer step) fuel p s w opened) (rounds-safe fuel w s c enough)
