-- ===== src/Chains/Forward.antt =====
-- Files in which every successor lies behind its block: `chains_walk` ends on them, damaged or not.
pub mod Kept
use recnodb.Base.{
  true, ℕ, zero, suc, ◌+◌, ◌*◌, ◌/◌, ◌%◌, ◌≤◌, ◌<◌, ◌≡◌, refl, ap, ◌⊎◌, Bool, arith, Bool-cases,
  inl, inr, ne→==,
}
use native.Mathlib.Nat.{div-add-mod'}
use mathlib.Core.Path.{subst}
use recnodb.Types.{live}
use recnodb.Bytes.{Bytes}
use recnodb.Stdio.{World, Returns, returns, save_errno}
use recnodb.Blocks.Layout.{next_offset, member}
use recnodb.Blocks.Head.Faults.{seek_and_read-cases}
use recnodb.Chains.{walk, rounds, view_block}
use recnodb.Chains.Walk.{curblock, next-curblock, pure_viewer, walk-rounds}
use recnodb.Chains.Safe.{WalkResult}

-- What stands at a multiple of the chunk size has no successor, or one at a later multiple.
abbrev pub Forward : ℕ → Bytes → Type 0
Forward chunk f =
    (p : ℕ)
    → p % chunk ≡ 0
    → p + 72 ≤ f.size
    → (member f p next_offset ≡ 0)
      ⊎ ((p < member f p next_offset) × (member f p next_offset % chunk ≡ 0))

step_up : (a b c : ℕ) → a < b → a * c + c ≤ b * c
step_up a b c h = grind arith

-- A later multiple is at least a chunk away.
pub later_multiple : (p q c : ℕ) → p % c ≡ 0 → q % c ≡ 0 → p < q → p + c ≤ q
later_multiple p q c hp hq h =
    let ep = div-add-mod' p c in
    let eq = div-add-mod' q c in
    elim (smaller (p / c) (q / c)) [
      | inl l ↦ omega (arith, ep, eq, step_up (p / c) (q / c) c l)
      | inr (inl g) ↦ absurd (omega (arith, ep, eq, step_up (q / c) (p / c) c g))
      | inr (inr e) ↦ absurd (omega (arith, ep, eq, ap (λ n. n * c) e))
    ]
  where
    smaller : (a b : ℕ) → (a < b) ⊎ (b < a) ⊎ (a ≡ b)
    smaller a b = omega arith

module _ {S : Type 0} (step : Bytes → ℕ → S → Bool × S) (chunk : ℕ) where
  rounds-ends :
      (more : ℕ) (w : World) (s : S) (p : ℕ)
      → Forward chunk w.file
      → p % chunk ≡ 0
      → w.file.size < p + more * chunk
      → Returns
          (λ (e, s') w'. (w'.file ≡ w.file) × WalkResult e w')
          (rounds (pure_viewer step) (suc more) p s w)
  unfolding rounds view_block save_errno
  rounds-ends zero w s p forward multiple enough = elim (seek_and_read-cases w p 72) [
    | inl (_, _, _, q) ↦ rw q (returns (refl, inr (refl, refl)))
    | inr (_, inside, q) ↦ absurd (omega arith)
  ]
  rounds-ends (suc more) w s p forward multiple enough = elim (seek_and_read-cases w p 72) [
    | inl (_, _, _, q) ↦ rw q (returns (refl, inr (refl, refl)))
    | inr (_, inside, q) ↦
        rw (q, next-curblock w.file p)
          (elim (Bool-cases (step (curblock w.file p) p s).0) [
            | inr m ↦ rw m (returns (refl, inl refl))
            | inl m ↦ elim (forward p multiple inside) [
              | inl free ↦ rw (m, free) (returns (refl, inl refl))
              | inr (later, at_chunk) ↦
                  let next = member w.file p next_offset in
                  let far = later_multiple p next chunk multiple at_chunk later in
                  rw (m, ne→== next 0 (omega arith))
                    (rounds-ends more (record w { tick = w.tick + 1 + 1; pos = p + 72 })
                      (step (curblock w.file p) p s).1 next forward at_chunk (omega arith))
            ]
          ])
  ]

  -- Whichever calls of the C library fail, and however the file ends, chains_walk from a multiple
  -- of the chunk size, with an open handle and a viewer that does no more than update its
  -- closure, ends, with one round more than a number of chunks that reaches from there beyond the
  -- end of the file, if what stands at a multiple of the chunk size has no successor or one at a
  -- later multiple. It leaves the file alone; the result is success, or RND_SYSTEM_ERROR with
  -- `errno` in `sys_errno`.
  pub walk-ends :
      (more : ℕ) (w : World) (s : S) (p : ℕ)
      → w.handle.stream ≡ live
      → Forward chunk w.file
      → p % chunk ≡ 0
      → w.file.size < p + more * chunk
      → Returns
          (λ (e, s') w'. (w'.file ≡ w.file) × WalkResult e w')
          (walk (pure_viewer step) (more + 1) p s w)
  walk-ends more w s p opened forward multiple enough =
      rw (walk-rounds (pure_viewer step) (more + 1) p s w opened) (
        subst
          (λ n.
            Returns (λ (e, s') w'. (w'.file ≡ w.file) × WalkResult e w')
              (rounds (pure_viewer step) n p s w))
          (omega arith) (rounds-ends more w s p forward multiple enough))
