-- ===== src/Programs/RecordTests/Callback.antt =====
-- The callback of src/test_flatrecs.c on a table with room for its records, and what is printed.
use recnodb.Base.{
  ℕ, suc, ◌+◌, ◌*◌, ◌%◌, ◌^◌, ◌≤◌, ◌<◌, ◌≡◌, refl, true, false, arith, ne→==, lt→ltb, List, [], ◌∷◌,
  ◌++◌, ◌/◌,
}
use native.Mathlib.Nat.{div-add-mod'}
use recnodb.Bytes.{Bytes}
use recnodb.Stdio.{World, ok, Returns, returns, stat_size, print}
use mathlib.Core.List.{append_assoc}
use recnodb.Stdio.Calm.{calm}
use recnodb.Blocks.Layout.{block_size, member}
use recnodb.Blocks.Validate.{block_payload_size}
use recnodb.Flatrecs.{full_recsize, get_record_capacity}
use recnodb.Flatrecs.Place.{IsSound, place, make_offset_to_recno-fits}
use recnodb.Programs.{get_file_size}
use recnodb.Programs.RecordTests.{
  test_get_record_capacity, fake_file_table, callback_for_test_get_next_offset,
}

remainder-lt : (a b : ℕ) → 0 < b → a % b < b
remainder-lt a b h = grind arith

-- With a record's size that is not zero, the numbers that test_get_record_capacity prints fit
-- together: the records that flatrecs_get_record_capacity gives, each with its prefix, and the bytes
-- left over, which are fewer than one record has, fill the payload of blocks_block_payload_size.
test_get_record_capacity-divides :
    (h : Bytes) (w : World)
    → 0 < full_recsize h
    → (reccap : ℕ) × (payload : ℕ) × (leftover : ℕ) × (reccap * full_recsize h + leftover ≡ payload)
      × (leftover < full_recsize h)
      × Returns
          (λ _ w'.
            w'.printed ≡ w.printed ++ reccap ∷ payload ∷ reccap ∷ full_recsize h ∷ leftover ∷ [])
          (test_get_record_capacity h w)
unfolding test_get_record_capacity get_record_capacity block_payload_size print
test_get_record_capacity-divides h w pos = (
  block_payload_size h / full_recsize h,
  block_payload_size h,
  block_payload_size h % full_recsize h,
  div-add-mod' (block_payload_size h) (full_recsize h),
  remainder-lt (block_payload_size h) (full_recsize h) pos,
  rw (ne→== (full_recsize h) 0 (omega arith), lt→ltb 0 (full_recsize h) pos) (returns refl),
)

-- what fake_file_table prints of record `l + 1` of a table at the start of a file of `size` bytes
abbrev pub record_shown : Bytes → ℕ → ℕ → List ℕ
record_shown head size l =
    place 0 head l (full_recsize head)
    ∷ (l + 1)
    ∷ (full_recsize head * (l + 1) % 2 ^ 32)
    ∷ size
    ∷ []

-- what callback_for_test_get_next_offset prints
abbrev pub callback_shown : Bytes → ℕ → ℕ → List ℕ
callback_shown head size offset =
    offset
    ∷ (record_shown head size 19
        ++ (record_shown head size 79
            ++ (record_shown head size 999 ++ record_shown head size 1499)))

module _ (rounds : ℕ) (head : Bytes) (pos : 0 < full_recsize head) (sound : IsSound 0 head) where
  -- a record that the first block has room for
  pub fake_file_table-fits :
      (l : ℕ) (w : World)
      → l + 1 < 2 ^ 32
      → l < get_record_capacity head head
      → fake_file_table (suc rounds) head (l + 1) (calm w)
        ≡ ok true (
            calm (record w {
              tick = w.tick + 1;
              printed = w.printed ++ record_shown head w.file.size l;
            }))
  unfolding fake_file_table get_file_size stat_size print
  fake_file_table-fits l w small fits = rw (
    make_offset_to_recno-fits (record { offset = 0; size = member head 0 block_size }) head l rounds
        (calm w) pos sound small fits,
    append_assoc,
  )

  module _ (room : 1500 ≤ get_record_capacity head head) where
    pub callback-fits :
        (offset : ℕ) (w : World)
        → callback_for_test_get_next_offset (suc rounds) head offset tt (calm w)
          ≡ ok
              (false, head, tt)
              (calm (record w {
                tick = w.tick + 1 + 1 + 1 + 1;
                printed = w.printed ++ callback_shown head w.file.size offset;
              }))
    unfolding callback_for_test_get_next_offset print
    callback-fits offset w =
        let z = w.file.size in
        let p0 = w.printed ++ offset ∷ [] in
        let p1 = p0 ++ record_shown head z 19 in
        let p2 = p1 ++ record_shown head z 79 in
        let p3 = p2 ++ record_shown head z 999 in
        let t = w.tick in
        rw
          (
            fake_file_table-fits 19 (record w { printed = p0 }) (omega arith) (omega arith),
            fake_file_table-fits 79 (record w { tick = t + 1; printed = p1 }) (omega arith)
                (omega arith),
            fake_file_table-fits 999 (record w { tick = t + 1 + 1; printed = p2 }) (omega arith)
                (omega arith),
            fake_file_table-fits 1499 (record w { tick = t + 1 + 1 + 1; printed = p3 })
                (omega arith) (omega arith),
          )
          (simp append_assoc)
