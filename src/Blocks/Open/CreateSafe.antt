-- ===== src/Blocks/Open/CreateSafe.antt =====
-- Opening with RND_CREATE in runs where calls of the C library fail.
use recnodb.Base.{ℕ, ◌+◌, ◌-◌, ◌%◌, ◌^◌, ◌<◌, ◌≡◌, refl, ◌⊎◌, inl, inr, true, [], ◌∷◌, ap}
use recnodb.Bytes.{zeros, read, write}
use recnodb.Types.{Error, success, system_error, null}
use recnodb.Stdio.{World, Returns, returns, save_errno, fclose, closed}
use recnodb.Stdio.Cases.{bind, mono, fopen-cases, fseek_set-cases, fwrite-cases}
use recnodb.Blocks.Head.File.{prepared, prep_head_file-prepared}
use recnodb.Blocks.Open.{cleared_handle, file_open, set_head_file, create_file, finish_open}
use recnodb.Blocks.Open.Load.{Opened, finish_open-Opened}
use recnodb.Blocks.Open.Create.{creating}

-- the first block is there, or a call has failed
abbrev Created : Error → World → Type 0
Created e w =
    (e ≡ success) ⊎ ((e ≡ system_error) × (w.handle.stream ≡ null) × (w.handle.sys_errno ≡ w.errno))

module _ (chunk rec : ℕ) (positive : 0 < chunk) where
  head_written : (w : World) → w.handle.stream ≡ null → Returns Created (create_file chunk rec w)
  unfolding create_file set_head_file save_errno
  head_written w o =
      let p = (chunk + 2 ^ 32 - 1) % 2 ^ 32 in
      let f = write w.file p (48 ∷ []) in
      let h = prepared chunk chunk rec in
      elim (fseek_set-cases w p) [
        | inl (e, q) ↦ rw q (returns (inr (refl, o, refl)))
        | inr (_, q) ↦
            rw q (elim (fwrite-cases (record w { tick = w.tick + 1; pos = p }) (48 ∷ [])) [
              | inl (e, q) ↦ rw q (returns (inr (refl, o, refl)))
              | inr (inl (e, k, _, q)) ↦ rw q (returns (inr (refl, o, refl)))
              | inr (inr q) ↦
                  rw q
                    (elim (fseek_set-cases
                      (record w { tick = w.tick + 1 + 1; file = f; pos = p + 1 }) 0) [
                        | inl (e, q) ↦ rw q (returns (inr (refl, o, refl)))
                        | inr (_, q) ↦
                            rw
                              (
                                q,
                                prep_head_file-prepared chunk chunk rec
                                    (record w { tick = w.tick + 1 + 1 + 1; file = f; pos = 0 })
                                    positive,
                              )
                              (elim (fwrite-cases
                                (record w {
                                  tick = w.tick + 1 + 1 + 1;
                                  file = f;
                                  pos = 0;
                                  handle = record w.handle { head_file = h };
                                })
                                (read h 0 72)) [
                                  | inl (e, q) ↦ rw q (returns (inr (refl, o, refl)))
                                  | inr (inl (e, k, _, q)) ↦ rw q (returns (inr (refl, o, refl)))
                                  | inr (inr q) ↦ rw q (returns (inl refl))
                                ])
                      ])
            ])
      ]

  -- Whichever calls of the C library fail, blocks_file_open with RND_CREATE and a chunk size from
  -- 1 on ends. After success the handle is valid; RND_INVALID_HEAD_FILE comes of a head that does
  -- not pass, and leaves the closed stream in the handle; after RND_SYSTEM_ERROR the handle has
  -- no stream, and holds `errno` in `sys_errno`.
  pub file_open-create_safe : (w : World) → Returns Opened (file_open creating chunk rec true w)
  unfolding file_open finish_open fclose save_errno
  file_open-create_safe w = elim (fopen-cases (record w { handle = cleared_handle }) true) [
    | inl (e, q) ↦ rw q (returns (inr (inr (refl, refl, refl))))
    | inr q ↦ rw q (
        bind
          (head_written
            (record w { tick = w.tick + 1; file = zeros 0; pos = 0; handle = cleared_handle }) refl)
          λ e w1 made. elim made [
            | inl ok ↦ rw ok (mono (finish_open-Opened w1) λ e' w2 (same, opened). opened)
            | inr (bad, o, s) ↦ rw bad (returns (inr (inr (refl, ap closed o, s))))
          ])
  ]
