-- ===== src/Flatrecs/Series.antt =====
-- `flatrecs_get_next_offset` several times in a row, each time with a callback that counts the record
-- in the table's head.
use recnodb.Base.{
  ℕ, zero, suc, ◌+◌, ◌*◌, ◌^◌, ◌≤◌, ◌<◌, ◌≡◌, refl, ap, sym, ◌∙◌, true, List, [], ◌∷◌, ◌++◌, arith,
  if◌then◌else◌,
}
use mathlib.Core.Path.{subst}
use mathlib.Core.List.{append_assoc, append-nil}
use recnodb.Bytes.Numbers.{num-lt}
use recnodb.Types.{Error, success, is_success, live}
use recnodb.Stdio.{World, Cmd, pure, ◌>>=◌, Returns, returns, off_limit}
use recnodb.Stdio.Cases.{mono}
use recnodb.Stdio.Calm.{calm}
use recnodb.Blocks.Layout.{last_recno, member}
use recnodb.Flatrecs.{full_recsize, get_next_offset}
use recnodb.Flatrecs.Place.{IsSound, place}
use recnodb.Flatrecs.Next.{locked_head, pure_user, counted, get_next_offset-counted}
use recnodb.Flatrecs.Counted.{
  count_record, IsTable, capacity, capacity-fits, capacity-IsTable, place-IsTable, counted-IsTable,
  SameBeside, counted-SameBeside,
}

-- `n` records, with the places noted
unfoldable pub next_records : ℕ → ℕ → ℕ → List ℕ → Cmd (Error × List ℕ)
next_records rounds table_head zero noted = pure (success, noted)
next_records rounds table_head (suc n) noted = do
  (e, noted) ← get_next_offset rounds (pure_user count_record) true table_head noted
  let rest = next_records rounds table_head n noted
  if is_success e then rest else pure (e, noted)

-- the places of `n` records from number `l` on, side by side, where the first one is at `start`
abbrev pub side_by_side : ℕ → ℕ → ℕ → ℕ → List ℕ
side_by_side start recsize l zero = []
side_by_side start recsize l (suc n) = (start + l * recsize) ∷ side_by_side start recsize (l + 1) n

module _ (rounds table_head data_at size recsize : ℕ) (pos : 0 < recsize) (fits : data_at ≤ size)
    (range : table_head + 2 ^ 32 ≤ 2 ^ 63) where
  next_records-listed :
      (n : ℕ) (noted : List ℕ) (w : World) (last : ℕ)
      → w.handle.stream ≡ live
      → w.pos < off_limit
      → table_head + 64 ≤ w.file.size
      → IsTable (locked_head w table_head) data_at size recsize last
      → last + n < 2 ^ 32
      → last + n ≤ capacity data_at size recsize
      → Returns
          (λ (e, all) w'.
            (e ≡ success)
            × (all ≡ noted ++ side_by_side (table_head + data_at) recsize last n)
            × IsTable (locked_head w' table_head) data_at size recsize (last + n)
            × SameBeside table_head w.file w'.file
            × (w'.pos ≡ w.pos))
          (next_records (suc rounds) table_head n noted (calm w))
  unfolding next_records
  next_records-listed zero noted w last opened hp inside t small room = returns (
    refl,
    sym (append-nil noted),
    subst (IsTable (locked_head w table_head) data_at size recsize) (omega arith) t,
    (refl, λ i h out. refl),
    refl,
  )
  next_records-listed (suc n) noted w last opened hp inside t small room =
      let head = locked_head w table_head in
      let next = counted count_record rounds table_head noted w in
      let start = table_head + data_at in
      let kept = counted-SameBeside rounds table_head noted w inside in
      let sound : IsSound table_head head = record {
        head_fits = omega (arith, t.at, t.block);
        in_range = range;
      } in
      rw
        (get_next_offset-counted count_record rounds table_head noted w opened hp inside
          (omega (arith, t.record_size)) sound (omega (arith, t.records))
          (omega (arith, t.records, capacity-IsTable t pos)))
        (mono
          (next_records-listed n
            (noted ++ place table_head head (member head 0 last_recno) (full_recsize head) ∷ [])
            next (last + 1) opened hp (omega (arith, kept.0))
            (counted-IsTable rounds table_head noted w t (omega arith)) (omega arith) (omega arith))
          λ (e, all) w' (done, listed, table, (same_size, same), stands). (
            done,
            listed
                ∙ (append_assoc noted _ _
                    ∙ ap (λ x. noted ++ x ∷ side_by_side start recsize (last + 1) n)
                        (place-IsTable table_head t)),
            subst (IsTable (locked_head w' table_head) data_at size recsize) (omega arith) table,
            (
              omega (arith, same_size, kept.0),
              λ i h out. same i (omega (arith, kept.0)) out ∙ kept.1 i h out,
            ),
            stands,
          ))

  -- Records that are asked for one after the other lie side by side: in a run without faults on
  -- an open file, in which a head of 64 bytes says how large the table's block and its head are
  -- and how many records there are, a record's size not being zero, the block no shorter than its
  -- head and in the range of `off_t`, `n` calls of flatrecs_get_next_offset, with a callback that
  -- counts the record in the head and notes its place, and one round or more for each, all
  -- succeed if the block has room for `n` records more. The places noted are those of the next
  -- `n` records, each a record's size behind the one before it, and end within the block. The
  -- head in the file then says that there are `n` records more, with the same sizes; no byte of
  -- the file outside the head has changed, and the stream stands where it stood.
  pub next_records-side_by_side :
      (n : ℕ) (noted : List ℕ) (w : World) (last : ℕ)
      → w.handle.stream ≡ live
      → w.pos < off_limit
      → table_head + 64 ≤ w.file.size
      → IsTable (locked_head w table_head) data_at size recsize last
      → last + n < 2 ^ 32
      → last + n ≤ capacity data_at size recsize
      → Returns
          (λ (e, all) w'.
            (e ≡ success)
            × (all ≡ noted ++ side_by_side (table_head + data_at) recsize last n)
            × (table_head + data_at + (last + n) * recsize ≤ table_head + size)
            × IsTable (locked_head w' table_head) data_at size recsize (last + n)
            × SameBeside table_head w.file w'.file
            × (w'.pos ≡ w.pos))
          (next_records (suc rounds) table_head n noted (calm w))
  next_records-side_by_side n noted w last opened hp inside t small room =
      let top : size < 2 ^ 32 = omega (arith, t.block, num-lt (locked_head w table_head) 4 4) in
      mono (next_records-listed n noted w last opened hp inside t small room)
        λ (e, all) w' (done, listed, table, same, stands). (
          done,
          listed,
          omega (arith, capacity-fits (last + n) data_at size recsize fits top room),
          table,
          same,
          stands,
        )
