-- ===== src/Chains/Last.antt =====
-- `chains_last_link` on the chains that stand in a file.
use recnodb.Base.{
  ℕ, zero, suc, ◌≤◌, ◌≡◌, refl, ◌≢◌, ap, ◌∙◌, List, [], ◌∷◌, arith, length, ne→==, le→leb,
}
use recnodb.Bytes.{Bytes, zeros, read, write}
use recnodb.Types.{success, live}
use recnodb.Stdio.{World, ok, Returns, returns}
use recnodb.Stdio.Cases.{mono}
use recnodb.Stdio.Calm.{calm, IsCalm}
use recnodb.Blocks.Layout.{next_offset, bytes_to_data, info_at, member}
use recnodb.Blocks.Head.Fields.{member-copy, info_at-copy, size-copy}
use recnodb.Blocks.Head.Transfer.{seek_and_read-calm}
use recnodb.Chains.{rounds, LastLink, last_link, last_link_viewer}
use recnodb.Chains.Walk.{IsHead, Chain, end, link, curblock, next-curblock, seen, walk-rounds}

-- the last of the offsets `p ∷ ps`
unfoldable pub last_of : List ℕ → ℕ
last_of [] = 0
last_of (p ∷ []) = p
last_of (p ∷ q ∷ ps) = last_of (q ∷ ps)

pub last_of-cons :
    (f : Bytes) (p : ℕ) {q : ℕ} {ps : List ℕ} → Chain f q ps → last_of (p ∷ ps) ≡ last_of ps
unfolding last_of
last_of-cons f p (end h e) = refl
last_of-cons f p (link h e ne c) = refl

-- what chains_last_link leaves in its closure when it stops at the block at `z`
abbrev pub found : Bytes → LastLink → ℕ → LastLink
found f s z = record {
  ib = write s.ib 0 (read (curblock f z) 0 (member f z bytes_to_data));
  offset_to_ib = z;
}

last_link-end :
    (fuel : ℕ) (w : World) (s : LastLink) (p : ℕ)
    → IsHead w.file p
    → member w.file p next_offset ≡ 0
    → member w.file p bytes_to_data ≤ 72
    → member w.file p bytes_to_data ≤ s.ib.size
    → rounds last_link_viewer (suc fuel) p s (calm w)
      ≡ ok (success, found w.file s p) (calm (seen w p))
unfolding rounds last_link_viewer
last_link-end fuel w s p h e small fits = rw (
  seek_and_read-calm w p h.positive 72 (omega arith) h.inside,
  next-curblock w.file p,
  e,
  member-copy (zeros 72) 0 w.file p 72 bytes_to_data (omega arith),
  le→leb (member w.file p bytes_to_data) (curblock w.file p).size
      (omega (arith, size-copy (zeros 72) 0 w.file p 72)),
  le→leb (member w.file p bytes_to_data) s.ib.size fits,
)

last_link-link :
    (fuel : ℕ) (w : World) (s : LastLink) (p q : ℕ)
    → IsHead w.file p
    → member w.file p next_offset ≡ q
    → q ≢ 0
    → rounds last_link_viewer (suc fuel) p s (calm w)
      ≡ rounds last_link_viewer fuel q s (calm (seen w p))
unfolding rounds last_link_viewer
last_link-link fuel w s p q h e ne = rw (
  seek_and_read-calm w p h.positive 72 (omega arith) h.inside,
  next-curblock w.file p,
  e,
  ne→== q 0 ne,
)

pub last_link-found :
    (fuel : ℕ) (w : World) (s : LastLink) {p : ℕ} {ps : List ℕ}
    → Chain w.file p ps
    → length ps ≤ fuel
    → member w.file (last_of ps) bytes_to_data ≤ 72
    → member w.file (last_of ps) bytes_to_data ≤ s.ib.size
    → Returns
        (λ r w'.
          (r ≡ (success, found w.file s (last_of ps)))
          × (w'.file ≡ w.file)
          × (w'.handle ≡ w.handle)
          × IsCalm w')
        (rounds last_link_viewer fuel p s (calm w))
unfolding last_of
last_link-found zero w s (end h e) enough small fits = absurd (omega arith)
last_link-found zero w s (link h e ne c) enough small fits = absurd (omega arith)
last_link-found (suc fuel) w s (end {p} h e) enough small fits =
    rw (last_link-end fuel w s p h e small fits) (returns (refl, refl, refl, refl))
last_link-found (suc fuel) w s (link {p} {q} {ps} h e ne c) enough small fits =
    rw (last_link-link fuel w s p q h e ne, last_of-cons w.file p c)
      (last_link-found fuel (seen w p) s c (omega arith)
        (omega (arith, ap (λ z. member w.file z bytes_to_data) (last_of-cons w.file p c)))
        (omega (arith, ap (λ z. member w.file z bytes_to_data) (last_of-cons w.file p c))))

-- In a run without faults, with an open handle, on a chain of readable heads whose last head is
-- no longer than RND_HEAD_FILE and the caller's object, and no shorter than INFO_BLOCK,
-- chains_last_link succeeds in as many rounds as there are blocks: the caller gets the offset of
-- the last block and its INFO_BLOCK. The file stays.
pub last_link-last :
    (fuel : ℕ) (w : World) (s : LastLink) {p : ℕ} {ps : List ℕ}
    → w.handle.stream ≡ live
    → Chain w.file p ps
    → length ps ≤ fuel
    → 32 ≤ member w.file (last_of ps) bytes_to_data
    → member w.file (last_of ps) bytes_to_data ≤ 72
    → member w.file (last_of ps) bytes_to_data ≤ s.ib.size
    → Returns
        (λ (e, s') w'.
          (e ≡ success)
          × (s'.offset_to_ib ≡ last_of ps)
          × (info_at s'.ib 0 ≡ info_at w.file (last_of ps))
          × (w'.file ≡ w.file))
        (last_link fuel p s (calm w))
unfolding last_link
last_link-last fuel w s {p} {ps} opened c enough long small fits =
    rw (walk-rounds last_link_viewer fuel p s (calm w) opened) (
      mono (last_link-found fuel w s c enough small fits) λ r w' (e, same, _, _). (
        ap (λ x. x.0) e,
        ap (λ x. x.1.offset_to_ib) e,
        ap (λ x. info_at x.1.ib 0) e
            ∙ (info_at-copy s.ib 0 (curblock w.file (last_of ps)) 0
                  (member w.file (last_of ps) bytes_to_data) long
                ∙ info_at-copy (zeros 72) 0 w.file (last_of ps) 72 (omega arith)),
        same,
      ))
