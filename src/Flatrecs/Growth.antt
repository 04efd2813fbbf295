-- ===== src/Flatrecs/Growth.antt =====
-- `flatrecs_make_offset_to_recno` when a block has been added for the record: it is found there.
use recnodb.Base.{
  ℕ, suc, ◌+◌, ◌-◌, ◌*◌, ◌/◌, ◌%◌, ◌^◌, ◌≤◌, ◌<◌, ◌≡◌, ap, sym, ◌∙◌, ◌⊎◌, inl, inr, arith, lt→ltb,
}
use native.Mathlib.Nat.{div-add-mod', mod-lt}
use mathlib.Core.Path.{subst}
use recnodb.Bytes.{Bytes, byte, zeros}
use recnodb.Types.{Error, success, live}
use recnodb.Stdio.{World, ok, Returns}
use recnodb.Stdio.Cases.{mono, Returns-ok}
use recnodb.Stdio.Calm.{calm}
use recnodb.Blocks.Layout.{
  BlockLoc, BlockDef, block_type, bytes_to_data, block_size, next_offset, chunk_size, info_at,
  member,
}
use recnodb.Blocks.Validate.{head_size}
use recnodb.Blocks.Head.Fields.{info_at-copy}
use recnodb.Blocks.Head.Transfer.{read_block_head-calm}
use recnodb.Blocks.Append.{extend_chain}
use recnodb.Blocks.Append.Block.{Ready, placed}
use recnodb.Blocks.Append.NewHead.{IsPlain, fresh_info}
use recnodb.Blocks.Append.Link.{linked}
use recnodb.Blocks.Append.ChainStart.{start, after_read}
use recnodb.Blocks.Append.Chain.{final, extend_chain-final, extend_chain-links}
use recnodb.Flatrecs.{
  full_recsize, get_record_capacity, new_data_block, record_offset, find_block, enter_new_block,
}
use recnodb.Flatrecs.Search.{newblock, here, find_block-Lies}

-- the block that is added for records from number `next` on
abbrev pub grown_by : World → Bytes → ℕ → ℕ → BlockDef
grown_by w htable recno next =
    new_data_block (full_recsize htable) recno next (member w.handle.head_file 0 chunk_size)

pub grown_by-IsPlain :
    (w : World) (htable : Bytes) (recno next : ℕ) → IsPlain (grown_by w htable recno next)
unfolding new_data_block
grown_by-IsPlain w htable recno next = record {
  narrow_type = omega arith;
  not_table = omega arith;
  not_file = omega arith;
}

mul_mono : (a b r : ℕ) → a ≤ b → a * r ≤ b * r
mul_mono a b r h = grind arith

lt_or_le : (a b : ℕ) → (a < b) ⊎ (b ≤ a)
lt_or_le a b = omega arith

-- what leaves room for one record more counts
lt_quotient : (l t r : ℕ) → 0 < r → l * r + r ≤ t → l < t / r
lt_quotient l t r pos h = elim (lt_or_le l (t / r)) [
  | inl p ↦ p
  | inr p ↦ absurd (omega (arith, div-add-mod' t r, mod-lt t pos, mul_mono (t / r) l r p))
]

-- What has been grown: the link, the new head, and what stays.
abbrev pub Grew : World → ℕ → BlockDef → Bytes → Type 0
Grew w z d f =
    (f.size ≡ w.file.size + d.block_size)
    × (info_at f z
        ≡ linked (info_at w.file z) (record { offset = w.file.size; size = d.block_size }))
    × (info_at f w.file.size ≡ fresh_info d)
    × ((i : ℕ) → i < w.file.size → (i < z) ⊎ (z + 32 ≤ i) → byte f i ≡ byte w.file i)

-- what is returned for a record of the new block, and what has become of the file
abbrev pub Placed : BlockLoc → Bytes → ℕ → World → ℕ → ℕ → Error × ℕ → World → Type 0
Placed bloc htable recno w z next r w' =
    (r.0 ≡ success)
    × (r.1 ≡ (bloc.offset + 32 + (recno - next) * full_recsize htable % 2 ^ 32) % 2 ^ 64)
    × Grew w z (grown_by w htable recno next) w'.file

module _ (bloc : BlockLoc) (htable : Bytes) (recno : ℕ) (small : recno < 2 ^ 32)
    (pos : 0 < full_recsize htable) where
  -- a record in the new block
  capacity-new :
      (d : BlockDef) (b : Bytes) (l : ℕ)
      → info_at b 0 ≡ fresh_info d
      → d.block_size < 2 ^ 32
      → l * full_recsize htable + full_recsize htable + 32 ≤ d.block_size
      → l < get_record_capacity htable b
  unfolding get_record_capacity info_at
  capacity-new d b l info narrow room =
      let at_data : member b 0 bytes_to_data ≡ 32 = ap (λ i. i.bytes_to_data) info in
      let at_size : member b 0 block_size ≡ d.block_size = ap (λ i. i.block_size) info in
      let total : (member b 0 block_size + 2 ^ 32 - member b 0 bytes_to_data) % 2 ^ 32
          ≡ d.block_size - 32 =
        omega arith in
      rw (lt→ltb 0 (full_recsize htable) pos, total)
        (lt_quotient l (d.block_size - 32) (full_recsize htable) pos (omega arith))

  module _ (w : World) (z next : ℕ) (ready : Ready w (grown_by w htable recno next))
      (inside : z + 32 ≤ w.file.size) (free : member w.file z next_offset ≡ 0)
      (plain_head : head_size (member w.file z block_type) ≡ 32) (before : next ≤ recno)
      (room : (recno - next) * full_recsize htable + full_recsize htable + 32
        ≤ (grown_by w htable recno next).block_size) where
    pub long : 32 ≤ (grown_by w htable recno next).block_size
    long = omega arith

    -- the state when it has been added
    pub after : World
    after =
        final w (grown_by w htable recno next) ready (grown_by-IsPlain w htable recno next) z inside
          (omega arith) free plain_head long

    pub run :
        extend_chain z (grown_by w htable recno next) (calm w)
        ≡ ok (success, placed w (grown_by w htable recno next)) (calm after)
    unfolding after
    run =
        extend_chain-final w (grown_by w htable recno next) ready
          (grown_by-IsPlain w htable recno next) z inside (omega arith) free plain_head long

    after-Grew : Grew w z (grown_by w htable recno next) after.file
    after-Grew =
        let (_, _, size, old, fresh, same) = Returns-ok (
          rw run at (
            extend_chain-links w (grown_by w htable recno next) ready
              (grown_by-IsPlain w htable recno next) z inside (omega arith) free plain_head
              long)) in
        (size, old, fresh, same)

    record_offset-new :
        (nb : Bytes)
        → info_at nb 0 ≡ fresh_info (grown_by w htable recno next)
        → record_offset bloc nb (recno - next) (full_recsize htable)
          ≡ (bloc.offset + 32 + (recno - next) * full_recsize htable % 2 ^ 32) % 2 ^ 64
    unfolding record_offset info_at
    record_offset-new nb info =
        ap
          (λ i.
            (bloc.offset + i.bytes_to_data + (recno - next) * full_recsize htable % 2 ^ 32)
            % 2 ^ 64)
          info

    after-opened : after.handle.stream ≡ live
    unfolding after final after_read start
    after-opened = ready.valid.0

    -- the loop goes on with the new block, and ends there
    pub enter-found :
        (fuel : ℕ) (b : Bytes)
        → Returns (Placed bloc htable recno w z next) (
            enter_new_block
              (find_block bloc htable recno (suc fuel))
              next
              b
              z
              (success, placed w (grown_by w htable recno next))
              (calm after))
    unfolding enter_new_block
    enter-found fuel b =
        let (size, old, fresh, same) = after-Grew in
        let f = after.file in
        let nb = newblock f w.file.size in
        let info : info_at nb 0 ≡ fresh_info (grown_by w htable recno next) =
          info_at-copy (zeros 32) 0 f w.file.size 32 (omega arith) ∙ fresh in
        rw
          (read_block_head-calm after w.file.size (omega (arith, ready.room)) (zeros 32) 32
            after-opened (omega arith) (omega (arith, size)))
          (mono
            (find_block-Lies bloc htable recno small (suc fuel)
              (record after { pos = w.file.size + 32; tick = after.tick + 1 + 1 }) after-opened
              (here {start = next} {b = nb} {o = w.file.size} {l = recno - next} (omega arith) (
                capacity-new (grown_by w htable recno next) nb (recno - next) info ready.narrow
                  (omega arith)))
              (omega arith))
            λ r w' (e, file, _). (
              ap (λ x. x.0) e,
              ap (λ x. x.1) e ∙ record_offset-new nb info,
              subst (λ g. Grew w z (grown_by w htable recno next) g) (sym file) after-Grew,
            ))
