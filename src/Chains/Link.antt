-- ===== src/Chains/Link.antt =====
-- `chains_add_link`: the new successor, the refusal, and what it leaves alone whichever calls fail.
use recnodb.Base.{
  ℕ, ◌+◌, ◌^◌, ◌≤◌, ◌<◌, ◌≡◌, refl, ◌≢◌, ap, ◌∙◌, ◌⊎◌, inl, inr, arith, Bool-cases, ne→==, length,
  length-take, take, List, ◌==◌,
}
use recnodb.Bytes.{Bytes, byte, zeros, read, write}
use recnodb.Bytes.Laws.{byte-write_out, length-read, size-write}
use recnodb.Types.{Error, success, system_error, attempt_to_orphan_block, live}
use recnodb.Stdio.{World, ok, off_limit, Returns, returns, save_errno}
use recnodb.Stdio.Cases.{use_file-opened}
use recnodb.Stdio.Calm.{calm}
use recnodb.Blocks.Layout.{BlockLoc, next_offset, info_at, member}
use recnodb.Blocks.Head.Fields.{member-copy, info_at-copy, size-copy}
use recnodb.Blocks.Head.Transfer.{seek_and_read-calm, seek_and_write-calm}
use recnodb.Blocks.Head.Faults.{seek_and_read-cases, seek_and_write-cases}
use recnodb.Blocks.Append.{update_link_with_child}
use recnodb.Blocks.Append.Link.{linked, info_at-update_link, size-update_link}
use recnodb.Chains.{add_link, write_back}

-- the parent's head in memory
abbrev pub ib_parent : World → ℕ → Bytes
ib_parent w parent = write (zeros 32) 0 (read w.file parent 32)

size-ib_parent : (w : World) (parent : ℕ) → (ib_parent w parent).size ≡ 32
size-ib_parent w parent = omega (arith, size-copy (zeros 32) 0 w.file parent 32)

next-ib_parent :
    (w : World) (parent : ℕ)
    → member (ib_parent w parent) 0 next_offset ≡ member w.file parent next_offset
next-ib_parent w parent = member-copy (zeros 32) 0 w.file parent 32 next_offset (omega arith)

-- the head that is written back
abbrev pub relinked : World → ℕ → BlockLoc → Bytes
relinked w parent loc = update_link_with_child (ib_parent w parent) loc

size-relinked : (w : World) (parent : ℕ) (loc : BlockLoc) → (relinked w parent loc).size ≡ 32
size-relinked w parent loc =
    size-update_link (ib_parent w parent) loc (omega (arith, size-ib_parent w parent))
    ∙ size-ib_parent w parent

-- the state when the link has been written
abbrev pub with_link : World → ℕ → BlockLoc → World
with_link w parent loc = record w {
  file = write w.file parent (read (relinked w parent loc) 0 32);
  pos = parent + 32;
  tick = w.tick + 1 + 1 + 1 + 1;
}

module _ (w : World) (parent : ℕ) (loc : BlockLoc) (positive : parent < off_limit)
    (inside : parent + 32 ≤ w.file.size) (opened : w.handle.stream ≡ live) where
  -- In a run without faults, with an open handle, a block in the file, in the range of `off_t`,
  -- that has a successor keeps it: chains_add_link refuses and leaves the file as it is.
  add_link-orphan :
      member w.file parent next_offset ≢ 0
      → Returns
          (λ e w'. (e ≡ attempt_to_orphan_block) × (w'.file ≡ w.file))
          (add_link parent loc (calm w))
  unfolding add_link
  add_link-orphan taken =
      rw
        (
          use_file-opened (calm w) opened,
          seek_and_read-calm w parent positive 32 (omega arith) inside,
          next-ib_parent w parent,
          ne→== _ 0 taken,
        )
        (returns (refl, refl))

  pub add_link-with_link :
      member w.file parent next_offset ≡ 0
      → add_link parent loc (calm w) ≡ ok success (calm (with_link w parent loc))
  unfolding add_link
  add_link-with_link free = rw (
    use_file-opened (calm w) opened,
    seek_and_read-calm w parent positive 32 (omega arith) inside,
    next-ib_parent w parent,
    free,
    seek_and_write-calm (record w { pos = parent + 32; tick = w.tick + 1 + 1 }) parent positive
        (relinked w parent loc) 32 (omega (arith, size-relinked w parent loc)),
  )

  -- In a run without faults, with an open handle, a block in the file, in the range of `off_t`,
  -- that has no successor gets the new one from chains_add_link; the rest of its head, the size
  -- of the file and every byte outside that head stay.
  pub add_link-links :
      member w.file parent next_offset ≡ 0
      → loc.offset < 2 ^ 64
      → loc.size < 2 ^ 64
      → Returns
          (λ e w'.
            (e ≡ success)
            × (info_at w'.file parent ≡ linked (info_at w.file parent) loc)
            × (w'.file.size ≡ w.file.size)
            × ((i : ℕ)
                → i < w.file.size
                → (i < parent) ⊎ (parent + 32 ≤ i)
                → byte w'.file i ≡ byte w.file i))
          (add_link parent loc (calm w))
  add_link-links free ho hs = rw (add_link-with_link free) (
      returns (
        refl,
        info_at-copy w.file parent (relinked w parent loc) 0 32 (omega arith)
            ∙ (info_at-update_link (ib_parent w parent) loc (omega (arith, size-ib_parent w parent))
                  ho hs
                ∙ ap (λ b. linked b loc)
                    (info_at-copy (zeros 32) 0 w.file parent 32 (omega arith))),
        omega (arith, size-copy w.file parent (relinked w parent loc) 0 32),
        λ i h out.
            byte-write_out w.file parent (read (relinked w parent loc) 0 32) i h
              (omega (arith, length-read (relinked w parent loc) 0 32)),
      ))

-- what stays of a file if bytes are stored in the `n` bytes from `p` on
abbrev pub SameOutside : ℕ → ℕ → Bytes → Bytes → Type 0
SameOutside p n f f' =
    (f'.size ≡ f.size) × ((i : ℕ) → i < f.size → (i < p) ⊎ (p + n ≤ i) → byte f' i ≡ byte f i)

SameOutside-refl : (p n : ℕ) (f : Bytes) → SameOutside p n f f
SameOutside-refl p n f = (refl, λ i h out. refl)

SameOutside-write :
    (p n : ℕ) (f : Bytes) (xs : List ℕ)
    → length xs ≤ n
    → p + n ≤ f.size
    → SameOutside p n f (write f p xs)
SameOutside-write p n f xs h k =
    (omega (arith, size-write f p xs), λ i hi out. byte-write_out f p xs i hi (omega arith))

abbrev pub LinkResult : Error → World → Type 0
LinkResult e w =
    ((e ≡ system_error) × (w.handle.sys_errno ≡ w.errno))
    ⊎ (e ≡ success)
    ⊎ (e ≡ attempt_to_orphan_block)

write_back-safe :
    (w : World) (parent : ℕ) (b : Bytes)
    → b.size ≡ 32
    → parent + 32 ≤ w.file.size
    → Returns
        (λ e w'.
          SameOutside parent 32 w.file w'.file
          × LinkResult e w'
          × (w'.handle.stream ≡ w.handle.stream))
        (write_back parent b w)
unfolding write_back save_errno
write_back-safe w parent b size fits = elim (seek_and_write-cases w parent b 32 (omega arith)) [
  | inl (e, p, t, q) ↦ rw q (returns (SameOutside-refl parent 32 w.file, inl (refl, refl), refl))
  | inr (inl (e, t, k, q)) ↦
      let small : length (take k (read b 0 32)) ≤ 32 =
        omega (arith, length-take k (read b 0 32), length-read b 0 32) in
      rw q (
        returns (
          SameOutside-write parent 32 w.file (take k (read b 0 32)) small fits,
          inl (refl, refl),
          refl,
        ))
  | inr (inr q) ↦
      let small : length (read b 0 32) ≤ 32 = omega (arith, length-read b 0 32) in
      rw q (
        returns (SameOutside-write parent 32 w.file (read b 0 32) small fits, inr (inl refl), refl))
]

-- Whichever calls of the C library fail, chains_add_link with an open handle ends with success,
-- RND_ATTEMPT_TO_ORPHAN_BLOCK or RND_SYSTEM_ERROR, `errno` then being in `sys_errno`; the file
-- keeps its size, and all its bytes but those of the parent's head. The handle stays open.
pub add_link-safe :
    (w : World) (parent : ℕ) (loc : BlockLoc)
    → w.handle.stream ≡ live
    → Returns
        (λ e w'.
          SameOutside parent 32 w.file w'.file
          × LinkResult e w'
          × (w'.handle.stream ≡ w.handle.stream))
        (add_link parent loc w)
unfolding add_link save_errno
add_link-safe w parent loc opened =
    rw (use_file-opened w opened) (elim (seek_and_read-cases w parent 32) [
      | inl (e, p, t, q) ↦
          rw q (returns (SameOutside-refl parent 32 w.file, inl (refl, refl), refl))
      | inr (small, fits, q) ↦
          rw (q, next-ib_parent w parent)
            (elim (Bool-cases (member w.file parent next_offset == 0)) [
              | inr taken ↦
                  rw taken (returns (SameOutside-refl parent 32 w.file, inr (inr refl), refl))
              | inl free ↦ rw free (
                  write_back-safe (record w { tick = w.tick + 1 + 1; pos = parent + 32 }) parent
                    (relinked w parent loc) (size-relinked w parent loc) fits)
            ])
    ])
