-- ===== src/Tests/Chains.antt =====
-- Tests of src/chains.c.
use recnodb.Base.{ℕ, ◌+◌, ◌≡◌, refl, Bool, true, [], ◌∷◌, arith, List}
use recnodb.Bytes.{Bytes, byte, num, zeros}
use recnodb.Types.{success, live}
use recnodb.Stdio.{Returns}
use recnodb.Stdio.Calm.{calm}
use recnodb.Blocks.Layout.{BlockLoc, info_at}
use recnodb.Chains.{add_link, walk, last_link, LastLink}
use recnodb.Chains.Link.{SameOutside, LinkResult, add_link-safe}
use recnodb.Chains.Walk.{Chain, end, link, pure_viewer, visit, walk-visits}
use recnodb.Chains.Last.{last_of, last_link-last}
use recnodb.Tests.Data.{double, double_file, disk_full}

abbrev beyond : BlockLoc
beyond = record { offset = 256; size = 128 }

add_link-safe_example :
    Returns
      (λ e w'. SameOutside 128 32 double.file w'.file × LinkResult e w' × (w'.handle.stream ≡ live))
      (add_link 128 beyond (record double { faults = disk_full }))
add_link-safe_example = add_link-safe (record double { faults = disk_full }) 128 beyond refl

pub two_blocks : Chain double_file 0 (0 ∷ 128 ∷ [])
unfolding byte num
two_blocks =
    link {q = 128} (record { positive = omega arith; inside = omega arith }) refl (omega arith)
      (end (record { positive = omega arith; inside = omega arith }) refl)

-- a viewer that notes the offsets it sees, the last one first
abbrev pub note_offset : Bytes → ℕ → List ℕ → Bool × List ℕ
note_offset ib offset s = (true, offset ∷ s)

visit-two_blocks : visit note_offset double_file (0 ∷ 128 ∷ []) [] ≡ 128 ∷ 0 ∷ []
unfolding visit
visit-two_blocks = refl

walk-visits_example :
    Returns
      (λ (e, s') w'.
        (e ≡ success)
        × (s' ≡ visit note_offset double_file (0 ∷ 128 ∷ []) [])
        × (w'.file ≡ double.file)
        × (w'.handle ≡ double.handle))
      (walk (pure_viewer note_offset) 2 0 [] (calm double))
walk-visits_example = walk-visits note_offset 2 double [] refl two_blocks (omega arith)

-- nothing found yet
abbrev nothing : LastLink
nothing = record { ib = zeros 32; offset_to_ib = 0 }

last_link-last_example :
    Returns
      (λ (e, s') w'.
        (e ≡ success)
        × (s'.offset_to_ib ≡ 128)
        × (info_at s'.ib 0 ≡ info_at double.file 128)
        × (w'.file ≡ double.file))
      (last_link 2 0 nothing (calm double))
unfolding last_of byte num
last_link-last_example =
    last_link-last 2 double nothing refl two_blocks (omega arith) (omega arith) (omega arith)
      (omega arith)

abbrev count : Bytes → ℕ → ℕ → ℕ
count ib offset n = n + 1
