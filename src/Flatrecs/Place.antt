-- ===== src/Flatrecs/Place.antt =====
-- Where the offsets of flatrecs_make_offset_to_recno point: into the first block for its records, and
-- beside the place of the records of the other blocks.
use recnodb.Base.{
  ℕ, zero, suc, refl, ◌+◌, ◌-◌, ◌*◌, ◌/◌, ◌%◌, ◌^◌, ◌≤◌, ◌<◌, ◌≡◌, ◌≢◌, sym, ap, ◌∙◌, arith, lt→ltb,
}
use native.Mathlib.Nat.{div-add-mod'}
use recnodb.Bytes.{Bytes}
use recnodb.Bytes.Numbers.{num-lt}
use recnodb.Types.{Error, success, live}
use recnodb.Stdio.{ok, World, Returns, returns}
use recnodb.Stdio.Cases.{mono}
use recnodb.Stdio.Calm.{calm}
use recnodb.Blocks.Layout.{BlockLoc, bytes_to_data, block_size, member}
use recnodb.Flatrecs.{
  find_block, full_recsize, get_record_capacity, record_offset, make_offset_to_recno,
}
use recnodb.Flatrecs.Search.{Lies, make_offset_to_recno-Lies}

-- A block at `o` is large enough for its head and does not reach beyond the range of `off_t`.
pub record IsSound (o : ℕ) (b : Bytes) : Type 0 where
  pub head_fits : member b 0 bytes_to_data ≤ member b 0 block_size
  pub in_range : o + 2 ^ 32 ≤ 2 ^ 63

-- where record number `l` of the block at `o` stands
abbrev pub place : ℕ → Bytes → ℕ → ℕ → ℕ
place o b l recsize = o + member b 0 bytes_to_data + l * recsize

mul_mono : (a b r : ℕ) → a ≤ b → a * r ≤ b * r
mul_mono a b r h = grind arith

-- what fits is a number of whole records
div_room : (l total r : ℕ) → l < total / r → l * r + r ≤ total
div_room l total r h =
    omega (arith, div-add-mod' total r, mul_mono (l + 1) (total / r) r (omega arith))

-- The record capacity holds what it says.
capacity_room :
    (htable b : Bytes) (l : ℕ)
    → 0 < full_recsize htable
    → member b 0 bytes_to_data ≤ member b 0 block_size
    → l < get_record_capacity htable b
    → member b 0 bytes_to_data + l * full_recsize htable + full_recsize htable
      ≤ member b 0 block_size
unfolding get_record_capacity
capacity_room htable b l pos fits h =
    let top : member b 0 block_size < 2 ^ 32 = num-lt b 4 4 in
    let total = (member b 0 block_size + 2 ^ 32 - member b 0 bytes_to_data) % 2 ^ 32 in
    omega (
      arith,
      top,
      div_room l total (full_recsize htable) (rw (lt→ltb 0 (full_recsize htable) pos) at h),
    )

-- Without wrapping, the computed offset is the distance in the record's block from the table's head.
record_offset-exact :
    (bloc : BlockLoc) (htable b : Bytes) (l : ℕ)
    → 0 < full_recsize htable
    → IsSound bloc.offset b
    → l < get_record_capacity htable b
    → record_offset bloc b l (full_recsize htable) ≡ place bloc.offset b l (full_recsize htable)
unfolding record_offset
record_offset-exact bloc htable b l pos sound h =
    let room = capacity_room htable b l pos sound.head_fits h in
    let top : member b 0 block_size < 2 ^ 32 = num-lt b 4 4 in omega (arith, room)

-- A record that fits the first block, as an equation.
pub make_offset_to_recno-fits :
    (bloc : BlockLoc) (htable : Bytes) (l rounds : ℕ) (w : World)
    → 0 < full_recsize htable
    → IsSound bloc.offset htable
    → l + 1 < 2 ^ 32
    → l < get_record_capacity htable htable
    → make_offset_to_recno bloc htable (l + 1) (suc rounds) w
      ≡ ok (success, place bloc.offset htable l (full_recsize htable)) w
unfolding make_offset_to_recno find_block
make_offset_to_recno-fits bloc htable l rounds w pos sound small fits =
    let i : (l + 1 + 2 ^ 32 - 1) % 2 ^ 32 ≡ l = omega arith in
    rw (
      i,
      lt→ltb l (get_record_capacity htable htable) fits,
      record_offset-exact bloc htable htable l pos sound fits,
    )

module _ (bloc : BlockLoc) (htable : Bytes) (pos : 0 < full_recsize htable) where
  -- A record that the table's own block has room for, the block being no shorter than its head
  -- and in the range of `off_t` and a record's size not being zero, is found in one round without
  -- a change of the file: the offset is the record's place, and the record with its prefix lies
  -- between the head and the end of the block.
  pub make_offset_to_recno-first :
      (recno fuel : ℕ) (w : World)
      → IsSound bloc.offset htable
      → 1 ≤ recno
      → recno < 2 ^ 32
      → recno ≤ get_record_capacity htable htable
      → 1 ≤ fuel
      → Returns
          (λ (e, offset) w'.
            (e ≡ success)
            × (offset ≡ place bloc.offset htable (recno - 1) (full_recsize htable))
            × (bloc.offset + member htable 0 bytes_to_data ≤ offset)
            × (offset + full_recsize htable ≤ bloc.offset + member htable 0 block_size)
            × (w'.file ≡ w.file))
          (make_offset_to_recno bloc htable recno fuel (calm w))
  make_offset_to_recno-first zero fuel w sound one small enough rounds = absurd (omega arith)
  make_offset_to_recno-first (suc l) zero w sound one small enough rounds = absurd (omega arith)
  make_offset_to_recno-first (suc l) (suc more) w sound one small enough rounds =
      let room = capacity_room htable htable l pos sound.head_fits (omega arith) in
      let n : suc l ≡ l + 1 = omega arith in
      let k : l + 1 - 1 ≡ l = omega arith in
      rw
        (
          n,
          make_offset_to_recno-fits bloc htable l more (calm w) pos sound (omega arith)
              (omega arith),
        )
        (returns (
          refl,
          ap (λ i. place bloc.offset htable i (full_recsize htable)) (sym k),
          omega arith,
          omega (arith, room),
          refl,
        ))

  -- In a run without faults, with an open handle, a record that lies in another block of the
  -- table's chain than the first is found, but, a record's size not being zero and that block
  -- being no shorter than its head and in the range of `off_t`, flatrecs_make_offset_to_recno
  -- gives an offset that is not its place.
  pub make_offset_to_recno-misplaced :
      (recno fuel : ℕ) (w : World) {rounds : ℕ} {b : Bytes} {o l : ℕ}
      → w.handle.stream ≡ live
      → recno < 2 ^ 32
      → IsSound bloc.offset b
      → o ≢ bloc.offset
      → l < get_record_capacity htable b
      → Lies w.file htable recno 1 htable bloc.offset rounds b o l
      → rounds < fuel
      → Returns
          (λ (e, offset) w'. (e ≡ success) × (offset ≢ place o b l (full_recsize htable)))
          (make_offset_to_recno bloc htable recno fuel (calm w))
  make_offset_to_recno-misplaced recno fuel w {b} {l} opened small sound apart h lies enough =
      mono (make_offset_to_recno-Lies bloc htable recno small fuel w opened lies enough)
        λ r w' (e, same, _).
          let o = ap (λ x. x.1) e ∙ record_offset-exact bloc htable b l pos sound h in
          (ap (λ x. x.0) e, λ q. apart (omega (arith, o, q)))

record_offset-same :
    (bloc : BlockLoc) (b b' : Bytes) (l recsize : ℕ)
    → member b 0 bytes_to_data ≡ member b' 0 bytes_to_data
    → record_offset bloc b l recsize ≡ record_offset bloc b' l recsize
unfolding record_offset
record_offset-same bloc b b' l recsize e =
    ap (λ n. (bloc.offset + n + l * recsize % 2 ^ 32) % 2 ^ 64) e

-- In a run without faults, with an open handle, two records that have the same number within
-- their blocks of the table's chain, the heads of these being of one size, get the same result
-- from flatrecs_make_offset_to_recno.
make_offset_to_recno-collide :
    (bloc : BlockLoc) (htable : Bytes) (recno recno' fuel : ℕ) (w : World) {rounds rounds' : ℕ}
    {b b' : Bytes} {o o' l : ℕ}
    → w.handle.stream ≡ live
    → recno < 2 ^ 32
    → recno' < 2 ^ 32
    → Lies w.file htable recno 1 htable bloc.offset rounds b o l
    → Lies w.file htable recno' 1 htable bloc.offset rounds' b' o' l
    → member b 0 bytes_to_data ≡ member b' 0 bytes_to_data
    → rounds < fuel
    → rounds' < fuel
    → (found : Error × ℕ) × Returns
        (λ r w'. r ≡ found)
        (make_offset_to_recno bloc htable recno fuel (calm w))
      × Returns (λ r w'. r ≡ found) (make_offset_to_recno bloc htable recno' fuel (calm w))
make_offset_to_recno-collide bloc htable recno recno' fuel w {b} {b'} {l} opened h h' lies lies'
      same e e' =
    (
      (success, record_offset bloc b l (full_recsize htable)),
      mono (make_offset_to_recno-Lies bloc htable recno h fuel w opened lies e) (λ r w' p. p.0),
      mono (make_offset_to_recno-Lies bloc htable recno' h' fuel w opened lies' e') (λ r w' p.
          p.0
          ∙ ap (λ x. (success, x))
              (record_offset-same bloc b' b l (full_recsize htable) (sym same))),
    )
