-- ===== src/Blocks/Append/Extend.antt =====
-- `blocks_extend_file`: how the file grows, and what happens when nothing is asked.
use recnodb.Stdio.Cases.{use_file-opened}
use recnodb.Base.{
  ℕ, ◌+◌, ◌-◌, ◌%◌, ◌^◌, ◌≤◌, ◌<◌, ◌≡◌, refl, ◌≢◌, ◌∙◌, true, false, inl, inr, some, [], ◌∷◌, arith,
  eq→==, ne→==, lt→ltb, ◌⊎◌,
}
use recnodb.Bytes.{Bytes, byte, write, Agree}
use recnodb.Bytes.Laws.{size-write, Agree-write_before}
use recnodb.Types.{success, invalid_block_location, is_success, Handle, live}
use recnodb.Stdio.{World, ok, Returns, returns, off_limit}
use recnodb.Stdio.Calm.{calm, fseek_set-calm, fseek_end-calm, ftell-calm, fwrite-calm}
use recnodb.Blocks.Validate.{validate_handle, validate_new_block_location, handle_chunk_size}
use recnodb.Blocks.Append.{write_end, extend_from, extend_file}

-- the handle passes `blocks_validate_handle`, and its stream has not been closed
abbrev pub IsValid : Handle → Type 0
IsValid h = (h.stream ≡ live) × (is_success (validate_handle (some h)) ≡ true)

abbrev pub primed : Handle → Handle
primed h = record h { sys_errno = 0 }

pub IsValid-primed : (h : Handle) → IsValid h → IsValid (primed h)
unfolding validate_handle
IsValid-primed h v = v

-- the chunk size that the handle has
abbrev pub chunk_of : Handle → ℕ
chunk_of h = handle_chunk_size (some h)

pub chunk_of-primed : (h : Handle) → chunk_of (primed h) ≡ chunk_of h
unfolding handle_chunk_size
chunk_of-primed h = refl

-- a zero byte, and behind it the end of the file
pub byte-write_zero :
    (f : Bytes) (last i : ℕ) → (f.size ≤ i) ⊎ (i ≡ last) → byte (write f last (0 ∷ [])) i ≡ 0
unfolding byte write
byte-write_zero f last i h = ground arith

-- the state after `blocks_extend_file` has written its byte at `last`
abbrev pub extended : World → ℕ → World
extended w last = record w {
  file = write w.file last (0 ∷ []);
  pos = w.file.size;
  tick = w.tick + 1 + 1 + 1 + 1 + 1;
  handle = primed w.handle;
}

module _ (w : World) (valid : IsValid w.handle) (small : w.file.size < off_limit) where
  -- the stream is at the end of the file when the location is checked
  extend_file-at_end :
      (n : ℕ)
      → extend_file n (calm w)
        ≡ extend_from n w.file.size
            (calm (record w { pos = w.file.size; tick = w.tick + 1 + 1; handle = primed w.handle }))
  unfolding extend_file
  extend_file-at_end n = rw (
    valid.1,
    use_file-opened (calm (record w { handle = primed w.handle })) valid.0,
    fseek_end-calm (record w { handle = primed w.handle }) 0 w.file.size (omega arith) small,
    ftell-calm (record w { pos = w.file.size; tick = w.tick + 1; handle = primed w.handle }),
  )

  location_aligned :
      w.file.size % chunk_of w.handle ≡ 0
      → validate_new_block_location (some (primed w.handle)) w.file.size ≡ true
  unfolding validate_new_block_location
  location_aligned e = rw (lt→ltb w.file.size off_limit small) (eq→== _ 0 e)

  location_misaligned :
      w.file.size % chunk_of w.handle ≢ 0
      → validate_new_block_location (some (primed w.handle)) w.file.size ≡ false
  unfolding validate_new_block_location
  location_misaligned e = rw (lt→ltb w.file.size off_limit small) (ne→== _ 0 e)

  pub extend_file-at :
      (n last : ℕ)
      → w.file.size % chunk_of w.handle ≡ 0
      → (w.file.size + (n + 2 ^ 64 - 1) % 2 ^ 64) % 2 ^ 64 ≡ last
      → last < off_limit
      → extend_file n (calm w) ≡ ok success (calm (extended w last))
  unfolding extend_from write_end
  extend_file-at n last aligned e h =
      extend_file-at_end n
      ∙ rw (
        location_aligned aligned,
        fseek_end-calm
            (record w { pos = w.file.size; tick = w.tick + 1 + 1; handle = primed w.handle })
            ((n + 2 ^ 64 - 1) % 2 ^ 64) last e h,
        fwrite-calm (record w { pos = last; tick = w.tick + 1 + 1 + 1; handle = primed w.handle })
            (0 ∷ []),
        fseek_set-calm
            (record w {
              file = write w.file last (0 ∷ []);
              pos = last + 1;
              tick = w.tick + 1 + 1 + 1 + 1;
              handle = primed w.handle;
            })
            w.file.size small,
      )

  -- In a run without faults, with a valid handle, asked for some bytes, all positions in the
  -- range of `off_t`, and with the end of the file at a multiple of the chunk size,
  -- blocks_extend_file succeeds: the file is that much longer, its old bytes stay and the new
  -- ones are zero, and the stream stands at the old end.
  pub extend_file-grows :
      (n : ℕ)
      → n ≢ 0
      → w.file.size + n < off_limit
      → w.file.size % chunk_of w.handle ≡ 0
      → Returns
          (λ e w'.
            (e ≡ success)
            × (w'.file.size ≡ w.file.size + n)
            × Agree w'.file 0 w.file 0 w.file.size
            × ((i : ℕ) → w.file.size ≤ i → byte w'.file i ≡ 0)
            × (w'.pos ≡ w.file.size)
            × (w'.handle ≡ primed w.handle))
          (extend_file n (calm w))
  extend_file-grows n ne room aligned =
      let last = w.file.size + n - 1 in
      rw (extend_file-at n last aligned (omega arith) (omega arith)) (
        returns (
          refl,
          omega (arith, size-write w.file last (0 ∷ [])),
          Agree-write_before w.file last (0 ∷ []) 0 w.file.size (omega arith) (omega arith),
          λ i hi. byte-write_zero w.file last i (inl hi),
          refl,
          refl,
        ))

  -- In a run without faults, with a valid handle, positions in the range of `off_t` and the end
  -- of the file at no multiple of the chunk size, blocks_extend_file reports
  -- RND_INVALID_BLOCK_LOCATION and changes nothing in the file.
  extend_file-misaligned :
      (n : ℕ)
      → w.file.size % chunk_of w.handle ≢ 0
      → Returns
          (λ e w'. (e ≡ invalid_block_location) × (w'.file ≡ w.file) × (w'.pos ≡ w.file.size))
          (extend_file n (calm w))
  unfolding extend_from
  extend_file-misaligned n ne =
      rw (extend_file-at_end n, location_misaligned ne) (returns (refl, refl, refl))

  -- In a run without faults, with a valid handle, positions in the range of `off_t` and a
  -- nonempty file that ends at a multiple of the chunk size, blocks_extend_file asked for no
  -- bytes succeeds with the size as it was, but it clears the last byte of the file and keeps the
  -- others.
  extend_file-zero :
      w.file.size ≢ 0
      → w.file.size % chunk_of w.handle ≡ 0
      → Returns
          (λ e w'.
            (e ≡ success)
            × (w'.file.size ≡ w.file.size)
            × (byte w'.file (w.file.size - 1) ≡ 0)
            × Agree w'.file 0 w.file 0 (w.file.size - 1))
          (extend_file 0 (calm w))
  extend_file-zero ne aligned =
      let last = w.file.size - 1 in
      rw (extend_file-at 0 last aligned (omega arith) (omega arith)) (
        returns (
          refl,
          omega (arith, size-write w.file last (0 ∷ [])),
          byte-write_zero w.file last last (inr refl),
          Agree-write_before w.file last (0 ∷ []) 0 last (omega arith) (omega arith),
        ))
