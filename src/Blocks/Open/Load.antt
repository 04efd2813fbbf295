-- ===== src/Blocks/Open/Load.antt =====
-- Opening a file that exists: its head is checked, and its bytes are left alone.
use recnodb.Blocks.Append.Extend.{IsValid}
use recnodb.Base.{
  ℕ, ◌+◌, ◌≤◌, ◌≡◌, refl, ◌⊎◌, ◌∙◌, Bool, true, false, inl, inr, some, arith, not, ◌||◌, ◌==◌,
  if◌then◌else◌, ap,
}
use recnodb.Bytes.{Bytes, zeros, read, write}
use recnodb.Types.{
  Error, success, system_error, invalid_head_file, Flags, live, null, dangling, is_success,
}
use recnodb.Stdio.{World, ok, Returns, returns, fclose, save_errno}
use recnodb.Stdio.Cases.{fopen-cases, fread-cases}
use recnodb.Stdio.Calm.{calm, fopen-calm, fread-calm}
use recnodb.Blocks.Layout.{
  magic, chunk_size, block_type, bytes_to_data, block_size, magic_bytes, member,
}
use recnodb.Blocks.Validate.{validate_handle, validate_head_file}
use recnodb.Blocks.Open.{cleared_handle, file_open, load_file, finish_open}

-- the head of a file as it is loaded
abbrev pub loaded : Bytes → Bytes
loaded f = write (zeros 72) 0 (read f 0 72)

-- no RND_CREATE
abbrev pub existing : Bool → Flags
existing readonly = record { create = false; readonly = readonly }

-- the state when the head has been loaded
abbrev with_head : World → World
with_head w = record w {
  pos = 72;
  tick = w.tick + 1 + 1;
  handle = record cleared_handle { head_file = loaded w.file };
}

file_open-load :
    (readonly : Bool) (chunk rec : ℕ) (w : World)
    → 72 ≤ w.file.size
    → file_open (existing readonly) chunk rec true (calm w)
      ≡ finish_open success (calm (with_head w))
unfolding file_open load_file
file_open-load readonly chunk rec w h = rw (
  fopen-calm (record w { handle = cleared_handle }) false,
  fread-calm (record w { pos = 0; tick = w.tick + 1; handle = cleared_handle }) 72 (omega arith) h,
)

-- A head that passes blocks_validate_head_file opens the handle with the head of the file.
pub file_open-loaded :
    (readonly : Bool) (chunk rec : ℕ) (w : World)
    → 72 ≤ w.file.size
    → validate_head_file (some (loaded w.file)) ≡ success
    → file_open (existing readonly) chunk rec true (calm w)
      ≡ ok success (
          calm (record w {
            pos = 72;
            tick = w.tick + 1 + 1;
            handle = record { stream = live; sys_errno = 0; head_file = loaded w.file };
          }))
unfolding finish_open validate_handle
file_open-loaded readonly chunk rec w h valid = file_open-load readonly chunk rec w h ∙ rw valid

-- In a run without faults, for a file of 72 bytes or more whose head does not pass,
-- blocks_file_open reports RND_INVALID_HEAD_FILE, closes the file and keeps its bytes, but leaves
-- the pointer to the closed stream in the handle.
pub file_open-invalid :
    (readonly : Bool) (chunk rec : ℕ) (w : World)
    → 72 ≤ w.file.size
    → validate_head_file (some (loaded w.file)) ≡ invalid_head_file
    → Returns
        (λ e w'.
          (e ≡ invalid_head_file)
          × (w'.file ≡ w.file)
          × (w'.handle.stream ≡ dangling)
          × ((i : ℕ) → w'.locked i ≡ false))
        (file_open (existing readonly) chunk rec true (calm w))
unfolding finish_open validate_handle fclose
file_open-invalid readonly chunk rec w h invalid =
    rw (file_open-load readonly chunk rec w h, invalid) (returns (refl, refl, refl, λ i. refl))

-- what a run of blocks_file_open reports, and what it leaves of the handle
abbrev pub Opened : Error → World → Type 0
Opened e w =
    ((e ≡ success) × IsValid w.handle)
    ⊎ ((e ≡ invalid_head_file)
        × (validate_head_file (some w.handle.head_file) ≡ invalid_head_file)
        × (w.handle.stream ≡ dangling))
    ⊎ ((e ≡ system_error) × (w.handle.stream ≡ null) × (w.handle.sys_errno ≡ w.errno))

either :
    (b : Bool)
    → ((if b then invalid_head_file else success) ≡ success)
      ⊎ ((if b then invalid_head_file else success) ≡ invalid_head_file)
either true = inr refl
either false = inl refl

validate_head_file-cases :
    (h : Bytes)
    → (validate_head_file (some h) ≡ success) ⊎ (validate_head_file (some h) ≡ invalid_head_file)
unfolding validate_head_file
validate_head_file-cases h = either (
    (member h 0 chunk_size == 0)
    || not (member h 0 magic == magic_bytes)
    || (member h 0 block_type == 0)
    || (member h 0 bytes_to_data == 0)
    || (member h 0 block_size == 0))

pub finish_open-Opened :
    (w : World) → Returns (λ e w'. (w'.file ≡ w.file) × Opened e w') (finish_open success w)
unfolding finish_open fclose validate_handle
finish_open-Opened w = elim (validate_head_file-cases w.handle.head_file) [
  | inl q ↦ rw q (returns (refl, inl (refl, (refl, ap is_success q))))
  | inr q ↦ rw q (returns (refl, inr (inl (refl, q, refl))))
]

-- Whichever calls of the C library fail, blocks_file_open of an existing file ends and keeps the
-- file's bytes. After success the handle is valid; RND_INVALID_HEAD_FILE comes of a head that
-- does not pass, and leaves the closed stream in the handle; after RND_SYSTEM_ERROR the handle
-- has no stream, and holds `errno` in `sys_errno`.
pub file_open-keeps :
    (readonly : Bool) (chunk rec : ℕ) (w : World)
    → Returns
        (λ e w'. (w'.file ≡ w.file) × Opened e w')
        (file_open (existing readonly) chunk rec true w)
unfolding file_open load_file save_errno fclose
file_open-keeps readonly chunk rec w =
    elim (fopen-cases (record w { handle = cleared_handle }) false) [
      | inl (e, q) ↦ rw q (returns (refl, inr (inr (refl, refl, refl))))
      | inr q ↦
          rw q
            (elim (fread-cases (record w { tick = w.tick + 1; pos = 0; handle = cleared_handle })
              72) [
                | inl (e, p, r) ↦ rw r (returns (refl, inr (inr (refl, refl, refl))))
                | inr (_, _, r) ↦ rw r (
                    finish_open-Opened (record w {
                      pos = 72;
                      tick = w.tick + 1 + 1;
                      handle = record cleared_handle { head_file = loaded w.file };
                    }))
              ])
    ]
