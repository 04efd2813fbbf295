-- ===== src/Programs/BlockTests/Safe.antt =====
-- `add_block_file_user` of src/test_blocks.c in runs where calls of the C library fail.
use recnodb.Blocks.Append.Extend.{IsValid}
use recnodb.Base.{
  true, false, ℕ, ◌+◌, ◌≤◌, ◌<◌, ◌≡◌, refl, ap, sym, ◌∙◌, ◌⊎◌, arith, inl, inr, length, List,
  Bool-cases,
}
use mathlib.Core.Path.{subst}
use recnodb.Bytes.{Bytes, byte}
use recnodb.Bytes.Laws.{Agree-byte}
use recnodb.Types.{is_success, live}
use recnodb.Stdio.{World, Returns, returns, off_limit}
use recnodb.Stdio.Cases.{bind}
use recnodb.Blocks.Layout.{bytes_to_data, member}
use recnodb.Blocks.Append.Keeps.{Kept, append_block-keeps}
use recnodb.Blocks.Append.ChainKeeps.{KeptOutside}
use recnodb.Blocks.Open.Use.{file_use-closes}
use recnodb.Chains.{LastLink}
use recnodb.Chains.Link.{add_link-safe}
use recnodb.Chains.Last.{last_of}
use recnodb.Chains.LastSafe.{last_link-Found}
use recnodb.Chains.Grow.{last-IsHead}
use recnodb.Database.{IsDatabase}
use recnodb.Database.Stays.{Chain-longer, member-shared}
use recnodb.Programs.BlockTests.{add_block_file_user, test_blocks_file_use}
use recnodb.Programs.BlockTests.Growth.{bdef, bdef-IsPlain}

KeptOutside-Kept : (z : ℕ) (f f' : Bytes) → Kept f f' → KeptOutside z f f'
KeptOutside-Kept z f f' (size, same) = (size, λ i h out. Agree-byte f' f f.size i same h)

module _ (fuel : ℕ) (ifile : LastLink) (space : 72 ≤ ifile.ib.size) where
  add_block_file_user-keeps :
      (v : World) {chunk : ℕ} {ps : List ℕ}
      → IsValid v.handle
      → IsDatabase v.file chunk ps
      → v.file.size + 4096 < off_limit
      → length ps ≤ fuel
      → Returns
          (λ _ w'. KeptOutside (last_of ps) v.file w'.file × (w'.handle.stream ≡ live))
          (add_block_file_user fuel ifile v)
  unfolding add_block_file_user
  add_block_file_user-keeps v {chunk} {ps} valid db room enough =
      let z = last_of ps in
      let f = v.file in
      bind (append_block-keeps bdef v bdef-IsPlain valid (omega arith) (omega arith))
        λ (e, d) w1 (kept, _, opened). elim (Bool-cases (is_success e)) [
          | inr failed ↦ rw failed (returns (KeptOutside-Kept z f w1.file kept, opened))
          | inl done ↦
              let h = last-IsHead db.chain in
              let at : member w1.file z bytes_to_data ≡ member f z bytes_to_data =
                member-shared f w1.file z bytes_to_data kept.1 (omega arith) h.inside in
              rw done (
                bind
                  (last_link-Found fuel w1 ifile opened
                    (Chain-longer f w1.file kept.1 kept.0 db.chain) enough
                    (omega (arith, at, db.short)) (omega (arith, at, db.short)))
                  λ (e2, s) w2 (file, o, how). elim how [
                    | inl lost ↦ rw lost (
                        returns (
                          subst (KeptOutside z f) (sym file) (KeptOutside-Kept z f w1.file kept),
                          o,
                        ))
                    | inr (found, where_it_is) ↦
                        rw (found, where_it_is)
                          (bind (add_link-safe w2 z d.new_block o) λ e3 w3 ((size, same), _, stays).
                            returns (
                              (
                                omega (arith, kept.0, ap (λ g. g.size) file, size),
                                λ i h out.
                                    same i (omega (arith, kept.0, ap (λ g. g.size) file)) out
                                    ∙ (ap (λ g. byte g i) file
                                        ∙ Agree-byte w1.file f f.size i kept.1 h),
                              ),
                              stays ∙ o,
                            ))
                  ])
        ]

  -- Whichever calls of the C library fail, the use of a database by add_block_file_user, within
  -- the range of `off_t`, with an object of 72 bytes for the last link and as many rounds as
  -- there are blocks, ends: no byte of the file is lost and all old bytes stay but those of the
  -- last link's head. Where it does not report success, the file is as it was.
  pub test_blocks_file_use-keeps :
      (w : World) {chunk : ℕ} {ps : List ℕ}
      → IsDatabase w.file chunk ps
      → w.file.size + 4096 < off_limit
      → length ps ≤ fuel
      → Returns
          (λ b w'.
            KeptOutside (last_of ps) w.file w'.file
            × ((b ≡ true) ⊎ ((b ≡ false) × (w'.file ≡ w.file))))
          (test_blocks_file_use (add_block_file_user fuel ifile) w)
  unfolding test_blocks_file_use
  test_blocks_file_use-keeps w {chunk} {ps} db room enough =
      let z = last_of ps in
      bind
        (file_use-closes (KeptOutside z w.file) (add_block_file_user fuel ifile) false 0 0 w
          (λ v same valid.
            subst
              (λ f.
                Returns (λ _ w'. KeptOutside z f w'.file × (w'.handle.stream ≡ live))
                  (add_block_file_user fuel ifile v))
              same
              (add_block_file_user-keeps v valid (subst (λ f. IsDatabase f chunk ps) (sym same) db)
                (omega (arith, ap (λ f. f.size) same)) enough)))
        λ e w1 used. elim used [
          | inl (q, kept, closed) ↦ rw q (returns (kept, inl refl))
          | inr (inl q, same) ↦ rw q (
              returns (
                subst (KeptOutside z w.file) (sym same) (omega arith, λ i h out. refl),
                inr (refl, same),
              ))
          | inr (inr q, same) ↦ rw q (
              returns (
                subst (KeptOutside z w.file) (sym same) (omega arith, λ i h out. refl),
                inr (refl, same),
              ))
        ]
