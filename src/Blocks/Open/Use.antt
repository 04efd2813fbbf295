-- ===== src/Blocks/Open/Use.antt =====
-- `blocks_file_use`: an existing file is opened for a callback, and closed behind it.
use recnodb.Blocks.Append.Extend.{IsValid}
use recnodb.Base.{List, ◌∙◌, ℕ, ◌≡◌, refl, sym, ◌⊎◌, inl, inr, Bool, true, if◌then◌else◌}
use mathlib.Core.Path.{subst, subst₂}
use recnodb.Bytes.{Bytes}
use recnodb.Types.{Error, success, system_error, invalid_head_file, is_success, null, live}
use recnodb.Stdio.{World, Cmd, Returns, returns, fclose, ◌>>◌, pure, use_file}
use recnodb.Stdio.Calm.{IsCalm}
use recnodb.Stdio.Cases.{bind, mono}
use recnodb.Blocks.Open.{file_close, file_use, set_stream}
use recnodb.Blocks.Open.Load.{existing, Opened, file_open-keeps}

pub file_close-closes :
    (w : World)
    → w.handle.stream ≡ live
    → Returns
        (λ _ w'.
          (w'.file ≡ w.file)
          × (w'.handle.stream ≡ null)
          × (w'.faults ≡ w.faults)
          × (w'.printed ≡ w.printed))
        (file_close true w)
unfolding file_close fclose set_stream use_file
file_close-closes w opened = rw opened (returns (refl, refl, refl, refl))

module _ (Q : Bytes → List ℕ → Type 0) (user : Cmd (Unit {0})) where
  -- the callback between opening and closing, where no call fails
  used :
      (v : World)
      → Returns (λ _ w'. Q w'.file w'.printed × (w'.handle.stream ≡ live) × IsCalm w') (user v)
      → Returns
          (λ _ w'. Q w'.file w'.printed × (w'.handle.stream ≡ null) × IsCalm w')
          ((user >> file_close true) v)
  used v run = bind run λ _ w1 (q, opened, quiet).
      mono (file_close-closes w1 opened)
        λ _ w2 (file, closed, same, kept). (subst₂ Q (sym file) (sym kept) q, closed, same ∙ quiet)

  pub used_well :
      (v : World)
      → Returns (λ _ w'. Q w'.file w'.printed × (w'.handle.stream ≡ live) × IsCalm w') (user v)
      → Returns
          (λ e w'. (e ≡ success) × Q w'.file w'.printed × (w'.handle.stream ≡ null) × IsCalm w')
          ((user >> file_close true >> pure success) v)
  used_well v run = bind (used v run) λ _ w2 (q, closed, quiet). returns (refl, q, closed, quiet)

-- The callback comes back from a valid handle on the file `f`, leaves it open, and leaves a file with
-- a property.
abbrev pub Establishes : (Bytes → Type 0) → Bytes → Cmd (Unit {0}) → Type 0
Establishes P f user =
    (v : World)
    → v.file ≡ f
    → IsValid v.handle
    → Returns (λ _ v'. P v'.file × (v'.handle.stream ≡ live)) (user v)

-- what the caller finds when the file has been used
abbrev pub Used : (Bytes → Type 0) → Bytes → Error → World → Type 0
Used P f e w =
    ((e ≡ success) × P w.file × (w.handle.stream ≡ null))
    ⊎ (((e ≡ invalid_head_file) ⊎ (e ≡ system_error)) × (w.file ≡ f))

module _ (P : Bytes → Type 0) (user : Cmd (Unit {0})) where
  used_and_closed :
      (f : Bytes) (w : World)
      → Establishes P f user
      → w.file ≡ f
      → IsValid w.handle
      → Returns (λ _ w'. P w'.file × (w'.handle.stream ≡ null)) ((user >> file_close true) w)
  used_and_closed f w establishes same valid = bind (establishes w same valid) λ _ w1 (p, still).
      mono (file_close-closes w1 still) λ _ w2 (file, closed, _, _). (subst P (sym file) p, closed)

  -- the callback between opening and closing
  pub after_open :
      (f : Bytes) (e : Error) (w : World)
      → Establishes P f user
      → w.file ≡ f
      → Opened e w
      → Returns (Used P f) ((if is_success e then user >> file_close true >> pure e else pure e) w)
  after_open f e w establishes same (inl (q, valid)) = rw q (
      bind (used_and_closed f w establishes same valid)
        λ _ w2 (p, closed). returns (inl (refl, p, closed)))
  after_open f e w establishes same (inr (inl (q, _, _))) = rw q (returns (inr (inl refl, same)))
  after_open f e w establishes same (inr (inr (q, _, _))) = rw q (returns (inr (inr refl, same)))

  -- Whichever calls of the C library fail, blocks_file_use of an existing file, with a callback
  -- that comes back from a valid handle on that file, leaves the handle open and leaves a file
  -- with some property, ends: with success, the file then having the property and the handle
  -- having no stream; or with RND_INVALID_HEAD_FILE or RND_SYSTEM_ERROR, the file then being as
  -- it was.
  pub file_use-closes :
      (readonly : Bool) (chunk rec : ℕ) (w : World)
      → Establishes P w.file user
      → Returns (Used P w.file) (file_use (existing readonly) chunk rec user w)
  unfolding file_use
  file_use-closes readonly chunk rec w establishes =
      bind (file_open-keeps readonly chunk rec w)
        λ e w1 (same, opened). after_open w.file e w1 establishes same opened
