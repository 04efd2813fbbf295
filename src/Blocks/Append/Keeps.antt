-- ===== src/Blocks/Append/Keeps.antt =====
-- `blocks_append_block` in runs where calls of the C library fail.
use recnodb.Base.{
  ℕ, ◌+◌, ◌-◌, ◌≤◌, ◌<◌, ◌≡◌, refl, ◌≢◌, sym, ap, ◌∙◌, Bool, true, false, Bool-cases, inl, inr, [],
  ◌∷◌, arith, ◌⊎◌, List, take, ◌==◌, ne→==,
}
use mathlib.Core.Path.{subst}
use recnodb.Bytes.{Bytes, read, write, Agree}
use recnodb.Bytes.Laws.{size-write, Agree-write_before, Agree-trans}
use recnodb.Types.{Error, success, system_error, invalid_block_location, live}
use recnodb.Stdio.{World, Returns, returns, off_limit, minus_one, save_errno}
use recnodb.Stdio.Cases.{use_file-opened, bind, mono, fseek_set-cases, fseek_end-cases, ftell-cases}
use recnodb.Blocks.Layout.{BlockDef}
use recnodb.Blocks.Head.{write_block_head}
use recnodb.Blocks.Head.Faults.{seek_and_write-cases}
use recnodb.Blocks.Head.Prepare.{head_size-other}
use recnodb.Blocks.Append.{
  save_positions, restore, write_new_head, append_at, append_from, append_block,
}
use recnodb.Blocks.Append.Extend.{IsValid, IsValid-primed, primed}
use recnodb.Blocks.Append.NewHead.{
  IsPlain, new_head, plain_type, head_size-new_head, size-new_head, new_head-plain,
}
use recnodb.Blocks.Append.Safe.{Stretched, extend_file-safe}

-- the old bytes stay, and no byte is lost
abbrev pub Kept : Bytes → Bytes → Type 0
Kept f f' = (f.size ≤ f'.size) × Agree f' 0 f 0 f.size

Kept-refl : (f : Bytes) → Kept f f
Kept-refl f = (omega arith, λ i h. refl)

Kept-write : (f : Bytes) (p : ℕ) (xs : List ℕ) → f.size ≤ p → Kept f (write f p xs)
Kept-write f p xs h = (
  omega (arith, size-write f p xs),
  Agree-write_before f p xs 0 f.size (omega arith) (omega arith),
)

Kept-write_past :
    (f g : Bytes) (p : ℕ) (xs : List ℕ) → Kept f g → f.size ≤ p → Kept f (write g p xs)
Kept-write_past f g p xs (le, a) h = (
  omega (arith, size-write g p xs),
  Agree-trans (write g p xs) g f 0 0 0 f.size
      (Agree-write_before g p xs 0 f.size (omega arith) (omega arith)) a,
)

Kept-Stretched : (f f' : Bytes) (n : ℕ) → n ≢ 0 → Stretched f (f.size + n - 1) f' → Kept f f'
Kept-Stretched f f' n ne (inl e) = subst (Kept f) (sym e) (Kept-refl f)
Kept-Stretched f f' n ne (inr e) =
    subst (Kept f) (sym e) (Kept-write f (f.size + n - 1) (0 ∷ []) (omega arith))

save_positions-keeps :
    (w : World)
    → w.file.size < off_limit
    → Returns
        (λ (bad, original, location) w'.
          (w'.file ≡ w.file)
          × (w'.handle ≡ w.handle)
          × ((bad ≡ true) ⊎ ((bad ≡ false) × (location ≡ w.file.size))))
        (save_positions w)
unfolding save_positions
save_positions-keeps w small = elim (ftell-cases w) [
  | inl (e, q) ↦ rw q (returns (refl, refl, inl refl))
  | inr q ↦ rw q (elim (Bool-cases (w.pos == minus_one)) [
    | inl t ↦ rw t (returns (refl, refl, inl refl))
    | inr t ↦
        rw t (elim (fseek_end-cases (record w { tick = w.tick + 1 }) 0 w.file.size (omega arith)) [
          | inl (e, q) ↦ rw q (returns (refl, refl, inl refl))
          | inr (_, q) ↦
              rw q (elim (ftell-cases (record w { tick = w.tick + 1 + 1; pos = w.file.size })) [
                | inl (e, q) ↦ rw q (returns (refl, refl, inl refl))
                | inr q ↦
                    rw q
                      (returns (refl, refl, inr (ne→== w.file.size minus_one (omega arith), refl)))
              ])
        ])
  ])
]

restore-keeps :
    (original : ℕ) (r : Error × BlockDef) (w : World)
    → Returns
        (λ r' w'. (r' ≡ r) × (w'.file ≡ w.file) × (w'.handle.stream ≡ w.handle.stream))
        (restore original r w)
unfolding restore
restore-keeps original r w = elim (fseek_set-cases w original) [
  | inl (e, q) ↦ rw q (returns (refl, refl, refl))
  | inr (_, q) ↦ rw q (returns (refl, refl, refl))
]

-- the results of blocks_append_block, with the block placed at `location` on success
abbrev pub Answer : BlockDef → ℕ → Error × BlockDef → Type 0
Answer d location (e, d') =
    ((e ≡ success)
      × (d' ≡ record d { new_block = record { offset = location; size = d.block_size } }))
    ⊎ (e ≡ system_error)
    ⊎ (e ≡ invalid_block_location)

module _ (d : BlockDef) (plain : IsPlain d) (f : Bytes) where
  write_new_head-keeps :
      (location : ℕ) (w : World)
      → w.handle.stream ≡ live
      → f.size ≤ location
      → Kept f w.file
      → Returns
          (λ r w'. Kept f w'.file × Answer d location r × (w'.handle.stream ≡ live))
          (write_new_head location d w)
  unfolding write_new_head write_block_head save_errno
  write_new_head-keeps location w o past kept =
      rw
        (
          plain_type d plain,
          head_size-other d.block_type plain.not_table plain.not_file,
          new_head-plain d plain w,
          use_file-opened w o,
          head_size-new_head d plain,
        )
        (elim (seek_and_write-cases w location (new_head d) 32
          (omega (arith, size-new_head d plain))) [
            | inl (e, p, t, q) ↦ rw q (returns (kept, inr (inl refl), o))
            | inr (inl (e, t, k, q)) ↦ rw q (
                returns (
                  Kept-write_past f w.file location (take k (read (new_head d) 0 32)) kept past,
                  inr (inl refl),
                  o,
                ))
            | inr (inr q) ↦ rw q (
                returns (
                  Kept-write_past f w.file location (read (new_head d) 0 32) kept past,
                  inl (refl, refl),
                  o,
                ))
          ])

append_at-keeps :
    (d : BlockDef)
    → IsPlain d
    → (w : World) → IsValid w.handle
    → d.block_size ≢ 0
    → w.file.size + d.block_size < off_limit
    → Returns
        (λ r w'. Kept w.file w'.file × Answer d w.file.size r × (w'.handle.stream ≡ live))
        (append_at w.file.size d w)
unfolding append_at
append_at-keeps d plain w valid ne room =
    bind (extend_file-safe w d.block_size valid ne room) λ e w1 (st, reported, same).
      let kept = Kept-Stretched w.file w1.file d.block_size ne st in
      let o = same ∙ valid.0 in
      elim reported [
        | inl (q, _) ↦ rw q (returns (kept, inr (inl refl), o))
        | inr (inr q, _) ↦ rw q (returns (kept, inr (inr refl), o))
        | inr (inl q, _) ↦
            rw q (write_new_head-keeps d plain w.file w.file.size w1 o (omega arith) kept)
      ]

append_from-keeps :
    (d : BlockDef)
    → IsPlain d
    → (bad : Bool) (original location : ℕ) (w : World) → IsValid w.handle
    → d.block_size ≢ 0
    → w.file.size + d.block_size < off_limit
    → (bad ≡ true) ⊎ ((bad ≡ false) × (location ≡ w.file.size))
    → Returns
        (λ r w'. Kept w.file w'.file × Answer d w.file.size r × (w'.handle.stream ≡ live))
        (append_from (bad, original, location) d w)
unfolding append_from save_errno
append_from-keeps d plain true original location w valid ne room outcome =
    elim (Bool-cases (original == 0)) [
      | inl z ↦ rw z (returns (Kept-refl w.file, inr (inl refl), valid.0))
      | inr nz ↦ rw nz (
          mono
            (restore-keeps original (system_error, d)
              (record w { handle = record w.handle { sys_errno = w.errno } }))
            λ r w' (e, file, o). (
              subst (Kept w.file) (sym file) (Kept-refl w.file),
              inr (inl (ap (λ x. x.0) e)),
              o ∙ valid.0,
            ))
    ]
append_from-keeps d plain false original location w valid ne room outcome = elim outcome [
  | inl x ↦ absurd (cc (x))
  | inr (_, at) ↦ rw at (
      bind (append_at-keeps d plain w valid ne room) λ r w2 (kept, answer, o).
        mono (restore-keeps original r w2) λ r' w' (e, file, o'). (
          subst (Kept w.file) (sym file) kept,
          subst (Answer d w.file.size) (sym e) answer,
          o' ∙ o,
        ))
]

-- Whichever calls of the C library fail, blocks_append_block with a valid handle, of a nonempty
-- block within the range of `off_t` that is neither a table nor a file, ends: no byte of the file
-- is lost and all old bytes stay. The result is success, with the block placed at the old end of
-- the file, RND_SYSTEM_ERROR or RND_INVALID_BLOCK_LOCATION. The handle stays open.
pub append_block-keeps :
    (d : BlockDef) (w : World)
    → IsPlain d
    → IsValid w.handle
    → d.block_size ≢ 0
    → w.file.size + d.block_size < off_limit
    → Returns
        (λ r w'. Kept w.file w'.file × Answer d w.file.size r × (w'.handle.stream ≡ live))
        (append_block d w)
unfolding append_block
append_block-keeps d w plain valid ne room =
    rw (valid.1, use_file-opened (record w { handle = primed w.handle }) valid.0)
      (bind (save_positions-keeps (record w { handle = primed w.handle }) (omega arith))
        λ (bad, original, location) w1 (same, handle, outcome).
          subst
            (λ g.
              Returns (λ r w'. Kept g w'.file × Answer d g.size r × (w'.handle.stream ≡ live))
                (append_from (bad, original, location) d w1))
            same
            (append_from-keeps d plain bad original location w1
              (subst IsValid (sym handle) (IsValid-primed w.handle valid)) ne
              (omega (arith, ap (λ b. b.size) same))
              (elim outcome [
                | inl x ↦ inl x
                | inr (x, at) ↦ inr (x, at ∙ ap (λ b. b.size) (sym same))
              ])))
