-- ===== src/Blocks/Open/Create.antt =====
-- Opening with RND_CREATE, and opening the file that this left again.
use recnodb.Base.{ℕ, ◌+◌, ◌-◌, ◌%◌, ◌^◌, ◌≤◌, ◌<◌, ◌≡◌, refl, Bool, true, false, [], ◌∷◌, arith}
use recnodb.Bytes.{Bytes, zeros, read, write}
use recnodb.Bytes.Laws.{Agree-copy, Agree-trans, length-read, size-write}
use recnodb.Types.{Error, success, Flags, live, null}
use recnodb.Stdio.{World, Run, ok, Returns, returns, ◌>>◌, fclose, use_file}
use recnodb.Stdio.Calm.{calm, fopen-calm, fseek_set-calm, fwrite-calm}
use recnodb.Blocks.Validate.{validate_handle}
use recnodb.Blocks.Head.File.{
  prepared, prep_head_file-prepared, IsPrepared, prepared-IsPrepared, IsFileHead-Agree,
  validate-IsFileHead,
}
use recnodb.Blocks.Open.{
  cleared_handle, file_open, set_head_file, create_file, finish_open, file_close,
}
use recnodb.Blocks.Open.Load.{loaded, existing, file_open-loaded}

-- RND_CREATE
abbrev pub creating : Flags
creating = record { create = true; readonly = false }

-- what is in the file after it has been created
abbrev pub created_file : ℕ → ℕ → Bytes
created_file chunk rec =
    write (write (zeros 0) (chunk - 1) (48 ∷ [])) 0 (read (prepared chunk chunk rec) 0 72)

-- the state after that
abbrev pub created : ℕ → ℕ → World → World
created chunk rec w = record w {
  file = created_file chunk rec;
  pos = 72;
  tick = w.tick + 1 + 1 + 1 + 1 + 1;
  handle = record { stream = live; sys_errno = 0; head_file = prepared chunk chunk rec };
}

module _ (chunk rec : ℕ) (w : World) (positive : 0 < chunk) (small : chunk < 2 ^ 32)
    (narrow : rec < 2 ^ 32) where
  abbrev opened : World
  opened = record w { file = zeros 0; pos = 0; tick = w.tick + 1; handle = cleared_handle }

  -- With RND_CREATE, a chunk size from 1 on and no faults, blocks_file_open succeeds and leaves
  -- an open handle with the prepared head, the stream behind the head, and the file that storing
  -- the character 0 as the last byte of the chunk, and then the head in the first 72 bytes, makes
  -- of an empty one.
  pub file_open-create :
      file_open creating chunk rec true (calm w) ≡ ok success (calm (created chunk rec w))
  unfolding file_open set_head_file create_file finish_open validate_handle
  file_open-create =
      let e : (chunk + 2 ^ 32 - 1) % 2 ^ 32 ≡ chunk - 1 = omega arith in
      rw (
        fopen-calm (record w { handle = cleared_handle }) true,
        e,
        fseek_set-calm opened (chunk - 1) (omega arith),
        fwrite-calm (record opened { pos = chunk - 1; tick = w.tick + 1 + 1 }) (48 ∷ []),
        fseek_set-calm
            (record opened {
              file = write (zeros 0) (chunk - 1) (48 ∷ []);
              pos = chunk - 1 + 1;
              tick = w.tick + 1 + 1 + 1;
            })
            0 (omega arith),
        prep_head_file-prepared chunk chunk rec
            (calm (record opened {
              file = write (zeros 0) (chunk - 1) (48 ∷ []);
              pos = 0;
              tick = w.tick + 1 + 1 + 1 + 1;
            }))
            positive,
        fwrite-calm
            (record opened {
              file = write (zeros 0) (chunk - 1) (48 ∷ []);
              pos = 0;
              tick = w.tick + 1 + 1 + 1 + 1;
              handle = record cleared_handle { head_file = prepared chunk chunk rec };
            })
            (read (prepared chunk chunk rec) 0 72),
        length-read (prepared chunk chunk rec) 0 72,
        validate-IsFileHead (prepared chunk chunk rec)
            (prepared-IsPrepared chunk chunk rec small small narrow) (omega arith)
            (λ z. absurd (omega arith)) (λ z. absurd (omega arith)),
      )

-- The head is stored in the file, and loading it takes it back.
loaded-created :
    (chunk rec : ℕ)
    → chunk < 2 ^ 32
    → rec < 2 ^ 32
    → IsPrepared chunk chunk rec (loaded (created_file chunk rec))
loaded-created chunk rec small narrow =
    let h = prepared chunk chunk rec in
    let f = created_file chunk rec in
    IsFileHead-Agree (loaded f) h
      (Agree-trans (loaded f) f h 0 0 0 72 (Agree-copy (zeros 72) 0 f 0 72)
        (Agree-copy (write (zeros 0) (chunk - 1) (48 ∷ [])) 0 h 0 72))
      (prepared-IsPrepared chunk chunk rec small small narrow)

created-roomy : (chunk rec : ℕ) → 72 ≤ (created_file chunk rec).size
created-roomy chunk rec = omega (
  arith,
  size-write (write (zeros 0) (chunk - 1) (48 ∷ [])) 0 (read (prepared chunk chunk rec) 0 72),
  length-read (prepared chunk chunk rec) 0 72,
)

-- the state when the file is closed
abbrev closed : ℕ → ℕ → World → World
closed chunk rec w = record (created chunk rec w) {
  locked = λ _. false;
  handle = record { stream = null; sys_errno = 0; head_file = prepared chunk chunk rec };
}

-- a file is created, closed, and opened again
abbrev pub reopen : Bool → ℕ → ℕ → ℕ → ℕ → World → Run Error
reopen readonly chunk rec chunk' rec' =
    file_open creating chunk rec true
    >> file_close true
    >> file_open (existing readonly) chunk' rec' true

-- A file that blocks_file_open created, with a chunk size from 1 on, and blocks_file_close closed
-- opens again, with whatever sizes are passed then, where no call of the C library fails. The
-- handle has the sizes of the chunk and of the record that the file was created with, no
-- successor and no record yet.
pub file_open-reopen :
    (readonly : Bool) (chunk rec chunk' rec' : ℕ) (w : World)
    → 0 < chunk
    → chunk < 2 ^ 32
    → rec < 2 ^ 32
    → Returns
        (λ e w'.
          (e ≡ success)
          × (w'.handle.stream ≡ live)
          × (w'.file ≡ created_file chunk rec)
          × IsPrepared chunk chunk rec w'.handle.head_file)
        (reopen readonly chunk rec chunk' rec' (calm w))
unfolding file_close fclose use_file
file_open-reopen readonly chunk rec chunk' rec' w positive small narrow =
    let l = loaded-created chunk rec small narrow in
    rw
      (
        file_open-create chunk rec w positive small narrow,
        file_open-loaded readonly chunk' rec' (closed chunk rec w) (created-roomy chunk rec) (
            validate-IsFileHead (loaded (created_file chunk rec)) l (omega arith)
              (λ z. absurd (omega arith)) (λ z. absurd (omega arith))),
      )
      (returns (refl, refl, refl, l))
