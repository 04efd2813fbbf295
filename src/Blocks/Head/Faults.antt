-- ===== src/Blocks/Head/Faults.antt =====
-- The ways in which a read or a write at a position can end, whichever calls fail.
use recnodb.Base.{ℕ, ◌+◌, ◌≤◌, ◌<◌, ◌≡◌, ◌⊎◌, inl, inr, true, false, none, some, le→leb, take}
use recnodb.Bytes.{Bytes, read, write}
use recnodb.Bytes.Laws.{length-read}
use recnodb.Types.{success, system_error, live}
use recnodb.Stdio.{World, ok, off_limit, save_errno}
use recnodb.Stdio.Cases.{use_file-opened, fseek_set-cases, fread-cases, fwrite-cases}
use recnodb.Blocks.Head.{seek_and_read, seek_and_write, receive, read_block_head}

-- the state after a failure that may have moved the stream
abbrev pub lost : World → ℕ → ℕ → ℕ → World
lost w e p t = record w { tick = t; errno = e; pos = p }

module _ (w : World) (offset : ℕ) where
  pub seek_and_read-cases :
      (n : ℕ)
      → ((e : ℕ) × (p : ℕ) × (t : ℕ) × (seek_and_read offset n w ≡ ok none (lost w e p t)))
        ⊎ ((offset < off_limit)
            × (offset + n ≤ w.file.size)
            × (seek_and_read offset n w
                ≡ ok
                    (some (read w.file offset n))
                    (record w { tick = w.tick + 1 + 1; pos = offset + n })))
  unfolding seek_and_read
  seek_and_read-cases n = elim (fseek_set-cases w offset) [
    | inl (e, q) ↦ inl (e, w.pos, w.tick + 1, rw q)
    | inr (small, q) ↦ elim (fread-cases (record w { tick = w.tick + 1; pos = offset }) n) [
      | inl (e, p, r) ↦ inl (e, p, w.tick + 1 + 1, rw (q, r))
      | inr (_, fits, r) ↦ inr (small, fits, rw (q, r))
    ]
  ]

  -- A write that fails has put out the first `k` bytes, perhaps none.
  pub seek_and_write-cases :
      (object : Bytes) (len : ℕ)
      → len ≤ object.size
      → ((e : ℕ) × (p : ℕ) × (t : ℕ) × (seek_and_write offset object len w
            ≡ ok true (lost w e p t)))
        ⊎ ((e : ℕ) × (t : ℕ) × (k : ℕ) × (seek_and_write offset object len w
              ≡ ok true (record (lost w e offset t) {
                file = write w.file offset (take k (read object 0 len));
              })))
        ⊎ (seek_and_write offset object len w
            ≡ ok false (record w {
              tick = w.tick + 1 + 1;
              file = write w.file offset (read object 0 len);
              pos = offset + len;
            }))
  unfolding seek_and_write
  seek_and_write-cases object len fits = elim (fseek_set-cases w offset) [
    | inl (e, q) ↦ inl (e, w.pos, w.tick + 1, rw q)
    | inr (small, q) ↦
        elim (fwrite-cases (record w { tick = w.tick + 1; pos = offset }) (read object 0 len)) [
          | inl (e, r) ↦ inl (e, offset, w.tick + 1 + 1, rw (q, le→leb len object.size fits, r))
          | inr (inl (e, k, _, r)) ↦
              inr (inl (e, w.tick + 1 + 1, k, rw (q, le→leb len object.size fits, r)))
          | inr (inr r) ↦ inr (inr (rw (q, le→leb len object.size fits, r, length-read)))
        ]
  ]

  pub read_block_head-cases :
      (object : Bytes)
      → w.handle.stream ≡ live
      → ((e : ℕ) × (p : ℕ) × (t : ℕ) × (read_block_head offset object 32 w
            ≡ ok
                (system_error, object)
                (record (lost w e p t) { handle = record w.handle { sys_errno = e } })))
        ⊎ (read_block_head offset object 32 w
            ≡ ok
                (success, write object 0 (read w.file offset 32))
                (record w { tick = w.tick + 1 + 1; pos = offset + 32 }))
  unfolding read_block_head receive save_errno
  read_block_head-cases object o = elim (seek_and_read-cases 32) [
    | inl (e, p, t, q) ↦ inl (e, p, t, rw (use_file-opened w o, q))
    | inr (_, _, q) ↦ inr (rw (use_file-opened w o, q))
  ]
