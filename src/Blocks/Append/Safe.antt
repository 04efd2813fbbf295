-- ===== src/Blocks/Append/Safe.antt =====
-- `blocks_extend_file` in runs where calls of the C library fail.
use recnodb.Base.{
  ℕ, ◌+◌, ◌-◌, ◌%◌, ◌^◌, ◌<◌, ◌≡◌, refl, ◌≢◌, ap, inl, inr, some, [], ◌∷◌, arith, ◌⊎◌, take,
  Bool-cases, zero, suc,
}
use recnodb.Bytes.{Bytes, write}
use recnodb.Types.{Error, success, system_error, invalid_block_location}
use recnodb.Stdio.{World, Returns, returns, off_limit, minus_one, save_errno}
use recnodb.Stdio.Cases.{
  failed, fseek_set-cases, fseek_end-cases, ftell-cases, fwrite-cases, use_file-opened,
}
use recnodb.Blocks.Validate.{validate_new_block_location}
use recnodb.Blocks.Append.{write_end, extend_from, extend_file}
use recnodb.Blocks.Append.Extend.{IsValid, primed}

-- what a run of blocks_extend_file may leave of the file, given the position of the byte it writes
abbrev pub Stretched : Bytes → ℕ → Bytes → Type 0
Stretched f last f' = (f' ≡ f) ⊎ (f' ≡ write f last (0 ∷ []))

abbrev pub Reported : Error → World → Type 0
Reported e w =
    ((e ≡ system_error) × (w.handle.sys_errno ≡ w.errno))
    ⊎ (((e ≡ success) ⊎ (e ≡ invalid_block_location)) × (w.handle.sys_errno ≡ 0))

take_one : (n x : ℕ) → n ≢ 0 → take n (x ∷ []) ≡ x ∷ []
take_one zero x h = absurd (h refl)
take_one (suc zero) x h = refl
take_one (suc (suc n)) x h = refl

-- the state after the byte at `last` is written
abbrev after_byte : World → ℕ → World
after_byte w last = record w {
  tick = w.tick + 1 + 1;
  file = write w.file last (0 ∷ []);
  pos = last + 1;
}

write_end-safe :
    (w : World) (n location : ℕ)
    → w.handle.sys_errno ≡ 0
    → w.file.size + n < off_limit
    → n ≢ 0
    → Returns
        (λ e w'.
          Stretched w.file (w.file.size + n - 1) w'.file
          × Reported e w'
          × (w'.handle.stream ≡ w.handle.stream))
        (write_end n location w)
unfolding write_end save_errno
write_end-safe w n location clear room ne =
    let last = w.file.size + n - 1 in
    elim (fseek_end-cases w ((n + 2 ^ 64 - 1) % 2 ^ 64) last (omega arith)) [
      | inl (e, q) ↦ rw q (returns (inl refl, inl (refl, refl), refl))
      | inr (_, q) ↦ rw q (
          let w1 = record w { tick = w.tick + 1; pos = last } in
          elim (fwrite-cases w1 (0 ∷ [])) [
            | inl (e, q) ↦ rw q (returns (inl refl, inl (refl, refl), refl))
            | inr (inl (e, k, nz, q)) ↦
                rw q
                  (returns (inr (ap (write w.file last) (take_one k 0 nz)), inl (refl, refl), refl))
            | inr (inr q) ↦ rw q (elim (fseek_set-cases (after_byte w last) location) [
              | inl (e, q) ↦ rw q (returns (inr refl, inl (refl, refl), refl))
              | inr (_, q) ↦ rw q (returns (inr refl, inr (inl refl, clear), refl))
            ])
          ])
    ]

extend_from-safe :
    (w : World) (n location : ℕ)
    → w.handle.sys_errno ≡ 0
    → w.file.size + n < off_limit
    → n ≢ 0
    → Returns
        (λ e w'.
          Stretched w.file (w.file.size + n - 1) w'.file
          × Reported e w'
          × (w'.handle.stream ≡ w.handle.stream))
        (extend_from n location w)
unfolding extend_from
extend_from-safe w n location clear room ne =
    elim (Bool-cases (validate_new_block_location (some w.handle) location)) [
      | inl t ↦ rw t (write_end-safe w n location clear room ne)
      | inr t ↦ rw t (returns (inl refl, inr (inr refl, clear), refl))
    ]

-- Whichever calls of the C library fail, blocks_extend_file with a valid handle, asked for some
-- bytes within the range of `off_t`, ends. The file is as it was, or has got its one new byte at
-- the new end; the result is RND_SYSTEM_ERROR, with `errno` in `sys_errno`, or else success or
-- RND_INVALID_BLOCK_LOCATION, with `sys_errno` 0. The handle stays open.
pub extend_file-safe :
    (w : World) (n : ℕ)
    → IsValid w.handle
    → n ≢ 0
    → w.file.size + n < off_limit
    → Returns
        (λ e w'.
          Stretched w.file (w.file.size + n - 1) w'.file
          × Reported e w'
          × (w'.handle.stream ≡ w.handle.stream))
        (extend_file n w)
unfolding extend_file save_errno
extend_file-safe w n valid ne room =
    rw (valid.1, use_file-opened (record w { handle = primed w.handle }) valid.0)
      (elim (fseek_end-cases (record w { handle = primed w.handle }) 0 w.file.size (omega arith)) [
        | inl (e, q) ↦ rw q (returns (inl refl, inl (refl, refl), refl))
        | inr (_, q) ↦ rw q (
            let w1 = record w { tick = w.tick + 1; pos = w.file.size; handle = primed w.handle } in
            elim (ftell-cases w1) [
              | inl (e, q) ↦ rw q (extend_from-safe (failed w1 e) n minus_one refl room ne)
              | inr q ↦
                  rw q
                    (extend_from-safe (record w1 { tick = w1.tick + 1 }) n w.file.size refl room ne)
            ])
      ])
