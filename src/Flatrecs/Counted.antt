-- ===== src/Flatrecs/Counted.antt =====
-- The head of a table when `flatrecs_get_next_offset` has been called with a callback that counts the
-- record in it.
use recnodb.Base.{
  ℕ, ◌+◌, ◌-◌, ◌*◌, ◌/◌, ◌%◌, ◌^◌, ◌≤◌, ◌<◌, ◌≡◌, ap, ap₂, ◌∙◌, ◌⊎◌, inr, Bool, true, List, [], ◌∷◌,
  ◌++◌, arith, lt→ltb,
}
use native.Mathlib.Nat.{div-add-mod'}
use recnodb.Bytes.{Bytes, byte, zeros, read}
use recnodb.Bytes.Laws.{byte-write_out, length-read}
use recnodb.Stdio.{World}
use recnodb.Blocks.Layout.{
  Field, bytes_to_data, block_size, rec_size, last_recno, member, with_member,
}
use recnodb.Blocks.Head.Fields.{
  member-copy, member-with_member_self, member-with_member_other, size-copy,
}
use recnodb.Flatrecs.{full_recsize, get_record_capacity}
use recnodb.Flatrecs.Place.{place}
use recnodb.Flatrecs.Next.{locked_head, counted}

-- The callback counts the record and notes its place.
abbrev pub count_record : Bytes → ℕ → List ℕ → Bool × Bytes × List ℕ
count_record htable offset noted =
    (true, with_member htable 0 last_recno (member htable 0 last_recno + 1), noted ++ offset ∷ [])

-- a head with these sizes and this number of records
pub record IsTable (head : Bytes) (data_at size recsize last : ℕ) : Type 0 where
  pub at : member head 0 bytes_to_data ≡ data_at
  pub block : member head 0 block_size ≡ size
  pub record_size : full_recsize head ≡ recsize
  pub records : member head 0 last_recno ≡ last

-- how many records there is room for
abbrev pub capacity : ℕ → ℕ → ℕ → ℕ
capacity data_at size recsize = (size + 2 ^ 32 - data_at) % 2 ^ 32 / recsize

mul_mono : (a b r : ℕ) → a ≤ b → a * r ≤ b * r
mul_mono a b r h = grind arith

-- Whole records fit.
pub capacity-fits :
    (n data_at size recsize : ℕ)
    → data_at ≤ size
    → size < 2 ^ 32
    → n ≤ capacity data_at size recsize
    → data_at + n * recsize ≤ size
capacity-fits n data_at size recsize fits top room =
    let q = (size + 2 ^ 32 - data_at) % 2 ^ 32 in
    omega (arith, div-add-mod' q recsize, mul_mono n (q / recsize) recsize room)

pub capacity-IsTable :
    {head : Bytes} {data_at size recsize last : ℕ}
    → IsTable head data_at size recsize last
    → 0 < recsize
    → get_record_capacity head head ≡ capacity data_at size recsize
unfolding get_record_capacity
capacity-IsTable {head} {recsize} t pos =
    rw (t.record_size, lt→ltb 0 recsize pos)
      (ap₂ (λ z a. (z + 2 ^ 32 - a) % 2 ^ 32 / recsize) t.block t.at)

pub place-IsTable :
    (table_head : ℕ) {head : Bytes} {data_at size recsize last : ℕ}
    → IsTable head data_at size recsize last
    → place table_head head (member head 0 last_recno) (full_recsize head)
      ≡ table_head + data_at + last * recsize
place-IsTable table_head t = rw (t.at, t.records, t.record_size)

module _ (rounds table_head : ℕ) (noted : List ℕ) (w : World) where
  -- the world when one record more has been counted
  abbrev after_one : World
  after_one = counted count_record rounds table_head noted w

  -- the members of the head then
  member-after_one :
      (g : Field)
      → g.at + g.width ≤ 64
      → member (locked_head after_one table_head) 0 g
        ≡ member
            (with_member
              (locked_head w table_head)
              0
              last_recno
              (member (locked_head w table_head) 0 last_recno + 1))
            0
            g
  member-after_one g h =
      let head = locked_head w table_head in
      member-copy (zeros 64) 0 after_one.file table_head 64 g h
      ∙ member-copy w.file table_head (with_member head 0 last_recno (member head 0 last_recno + 1))
          0 64 g h

  -- The members before the last one stay.
  member-stays :
      (g : Field)
      → g.at + g.width ≤ 60
      → member (locked_head after_one table_head) 0 g ≡ member (locked_head w table_head) 0 g
  member-stays g h =
      let head = locked_head w table_head in
      member-after_one g (omega arith)
      ∙ member-with_member_other head 0 last_recno (member head 0 last_recno + 1) g (inr h)
          (omega (arith, size-copy (zeros 64) 0 w.file table_head 64))

  pub counted-IsTable :
      {data_at size recsize last : ℕ}
      → IsTable (locked_head w table_head) data_at size recsize last
      → last + 1 < 2 ^ 32
      → IsTable (locked_head after_one table_head) data_at size recsize (last + 1)
  unfolding full_recsize
  counted-IsTable t small =
      let head = locked_head w table_head in
      record {
        at = member-stays bytes_to_data (omega arith) ∙ t.at;
        block = member-stays block_size (omega arith) ∙ t.block;
        record_size =
            ap (λ n. (n + 1) % 2 ^ 32) (member-stays rec_size (omega arith)) ∙ t.record_size;
        records =
            member-after_one last_recno (omega arith)
            ∙ (member-with_member_self head 0 last_recno (member head 0 last_recno + 1)
                  (omega (arith, t.records))
                ∙ ap (λ n. n + 1) t.records);
      }

-- bytes of the file that no head of 64 bytes at `table_head` has
abbrev pub SameBeside : ℕ → Bytes → Bytes → Type 0
SameBeside table_head f f' =
    (f'.size ≡ f.size)
    × ((i : ℕ) → i < f.size → (i < table_head) ⊎ (table_head + 64 ≤ i) → byte f' i ≡ byte f i)

pub counted-SameBeside :
    (rounds table_head : ℕ) (noted : List ℕ) (w : World)
    → table_head + 64 ≤ w.file.size
    → SameBeside table_head w.file (counted count_record rounds table_head noted w).file
counted-SameBeside rounds table_head noted w inside =
    let head = locked_head w table_head in
    let b = with_member head 0 last_recno (member head 0 last_recno + 1) in
    (
      omega (arith, size-copy w.file table_head b 0 64),
      λ i h out.
          byte-write_out w.file table_head (read b 0 64) i h (omega (arith, length-read b 0 64)),
    )
