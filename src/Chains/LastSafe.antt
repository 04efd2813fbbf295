-- ===== src/Chains/LastSafe.antt =====
-- `chains_last_link` in runs where calls of the C library fail.
use recnodb.Base.{
  ℕ, zero, suc, ◌+◌, ◌≤◌, ◌≡◌, refl, ap, sym, ◌∙◌, ◌⊎◌, arith, inl, inr, length, ne→==, le→leb,
  List, ◌∷◌,
}
use recnodb.Bytes.{Bytes, zeros}
use recnodb.Stdio.Cases.{mono}
use recnodb.Types.{Error, success, system_error, live}
use recnodb.Stdio.{World, Returns, returns, save_errno}
use recnodb.Blocks.Layout.{bytes_to_data, member}
use recnodb.Blocks.Head.Fields.{member-copy, size-copy}
use recnodb.Blocks.Head.Faults.{seek_and_read-cases}
use recnodb.Chains.{LastLink, rounds, view_block, last_link, last_link_viewer}
use recnodb.Chains.Walk.{Chain, end, link, curblock, next-curblock, walk-rounds}
use recnodb.Chains.Last.{last_of, last_of-cons}

-- how the search for the last link of `ps` may end
abbrev pub Found : List ℕ → Bytes → Error × LastLink → World → Type 0
Found ps f r w =
    (w.file ≡ f)
    × (w.handle.stream ≡ live)
    × ((r.0 ≡ system_error) ⊎ ((r.0 ≡ success) × (r.1.offset_to_ib ≡ last_of ps)))

rounds-Found :
    (fuel : ℕ) (w : World) (s : LastLink) {p : ℕ} {ps : List ℕ}
    → w.handle.stream ≡ live
    → Chain w.file p ps
    → length ps ≤ fuel
    → member w.file (last_of ps) bytes_to_data ≤ 72
    → member w.file (last_of ps) bytes_to_data ≤ s.ib.size
    → Returns (Found ps w.file) (rounds last_link_viewer fuel p s w)
unfolding rounds view_block save_errno last_link_viewer last_of
rounds-Found zero w s opened (end h e) enough small fits = absurd (omega arith)
rounds-Found zero w s opened (link h e ne c) enough small fits = absurd (omega arith)
rounds-Found (suc fuel) w s opened (end {p} h e) enough small fits =
    elim (seek_and_read-cases w p 72) [
      | inl (_, _, _, q) ↦ rw q (returns (refl, opened, inl refl))
      | inr (_, _, q) ↦
          rw
            (
              q,
              next-curblock w.file p,
              e,
              member-copy (zeros 72) 0 w.file p 72 bytes_to_data (omega arith),
              le→leb (member w.file p bytes_to_data) (curblock w.file p).size
                  (omega (arith, size-copy (zeros 72) 0 w.file p 72)),
              le→leb (member w.file p bytes_to_data) s.ib.size fits,
            )
            (returns (refl, opened, inr (refl, refl)))
    ]
rounds-Found (suc fuel) w s opened (link {p} {q} {ps} h e ne c) enough small fits =
    elim (seek_and_read-cases w p 72) [
      | inl (_, _, _, r) ↦ rw r (returns (refl, opened, inl refl))
      | inr (_, _, r) ↦
          let at : last_of (p ∷ ps) ≡ last_of ps = last_of-cons w.file p c in
          rw (r, next-curblock w.file p, e, ne→== q 0 ne)
            (mono
              (rounds-Found fuel (record w { tick = w.tick + 1 + 1; pos = p + 72 }) s opened c
                (omega arith) (omega (arith, ap (λ z. member w.file z bytes_to_data) at))
                (omega (arith, ap (λ z. member w.file z bytes_to_data) at)))
              λ r w' (file, o, how).
                (file, o, elim how [ inl x ↦ inl x | inr (x, y) ↦ inr (x, y ∙ sym at) ]))
    ]

-- Whichever calls fail, the search ends, and leaves the file and the stream alone.
pub last_link-Found :
    (fuel : ℕ) (w : World) (s : LastLink) {p : ℕ} {ps : List ℕ}
    → w.handle.stream ≡ live
    → Chain w.file p ps
    → length ps ≤ fuel
    → member w.file (last_of ps) bytes_to_data ≤ 72
    → member w.file (last_of ps) bytes_to_data ≤ s.ib.size
    → Returns (Found ps w.file) (last_link fuel p s w)
unfolding last_link
last_link-Found fuel w s {p} opened c enough small fits =
    rw (walk-rounds last_link_viewer fuel p s w opened)
      (rounds-Found fuel w s opened c enough small fits)
