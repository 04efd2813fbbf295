-- ===== src/Api/Strerror.antt =====
-- `rnd_strerror`: every error has a text of its own.
use Prim.Native.String.{String}
use package.text.Mathlib.Text.{◌==◌}
use recnodb.Base.{ℕ, ◌≡◌, refl, ◌≢◌, ap, sym, ◌∙◌, Option, none, some, List, [], ◌∷◌, if◌then◌else◌}
use recnodb.Types.{
  Error, success, fail, system_error, invalid_recnodb_file, bad_parameter, missing_fhead,
  file_already_open, file_not_open, extinct_record, attempt_to_orphan_block,
  reached_end_of_block_chain, lock_failed, unlock_failed, lock_read_failed, unlock_write_failed,
  incomplete_read, incomplete_write, invalid_block_size, invalid_block_location, invalid_head_file,
  code,
}
use recnodb.Api.{Message, text, strerror, error_strings, out_of_range, rnd_strerror}

-- the errors in the order of the enumeration
abbrev errors : List Error
errors =
    success ∷ fail ∷ system_error ∷ invalid_recnodb_file ∷ bad_parameter ∷ missing_fhead
    ∷ file_already_open ∷ file_not_open ∷ extinct_record ∷ attempt_to_orphan_block
    ∷ reached_end_of_block_chain ∷ lock_failed ∷ unlock_failed ∷ lock_read_failed
    ∷ unlock_write_failed ∷ incomplete_read ∷ incomplete_write ∷ invalid_block_size
    ∷ invalid_block_location ∷ invalid_head_file ∷ []

-- the error that a text is of, the texts being searched in order
abbrev search : String → List String → List Error → Option Error
search t [] es = none
search t (s ∷ ss) [] = none
search t (s ∷ ss) (e ∷ es) = let rest = search t ss es in if t == s then some e else rest

abbrev recovered : Message → Option Error
recovered (text t) = search t error_strings errors
recovered (strerror n) = some system_error

recover-rnd_strerror :
    (e : Error) (handle : Option ℕ) (errno : ℕ)
    → e ≢ system_error
    → recovered (rnd_strerror (code e) handle errno) ≡ some e
unfolding rnd_strerror code
recover-rnd_strerror success handle errno h = refl
recover-rnd_strerror system_error handle errno h = absurd (h refl)
recover-rnd_strerror fail handle errno h = refl
recover-rnd_strerror invalid_recnodb_file handle errno h = refl
recover-rnd_strerror bad_parameter handle errno h = refl
recover-rnd_strerror missing_fhead handle errno h = refl
recover-rnd_strerror file_already_open handle errno h = refl
recover-rnd_strerror file_not_open handle errno h = refl
recover-rnd_strerror extinct_record handle errno h = refl
recover-rnd_strerror attempt_to_orphan_block handle errno h = refl
recover-rnd_strerror reached_end_of_block_chain handle errno h = refl
recover-rnd_strerror lock_failed handle errno h = refl
recover-rnd_strerror unlock_failed handle errno h = refl
recover-rnd_strerror lock_read_failed handle errno h = refl
recover-rnd_strerror unlock_write_failed handle errno h = refl
recover-rnd_strerror incomplete_read handle errno h = refl
recover-rnd_strerror incomplete_write handle errno h = refl
recover-rnd_strerror invalid_block_size handle errno h = refl
recover-rnd_strerror invalid_block_location handle errno h = refl
recover-rnd_strerror invalid_head_file handle errno h = refl

some-inj : {a b : Error} → some a ≡ some b → a ≡ b
some-inj {a} p = ap (λ o. elim o [ some e ↦ e | none ↦ a ]) p

-- Every error but RND_SYSTEM_ERROR has a text of its own, whatever `handle` and `errno` are: two
-- of these errors for which rnd_strerror gives the same text are one, and none gets the text for
-- numbers out of range.
pub rnd_strerror-distinct :
    (e e' : Error) (handle handle' : Option ℕ) (errno errno' : ℕ)
    → e ≢ system_error
    → e' ≢ system_error
    → (rnd_strerror (code e) handle errno ≡ rnd_strerror (code e') handle' errno' → e ≡ e')
      × (rnd_strerror (code e) handle errno ≢ text out_of_range)
rnd_strerror-distinct e e' handle handle' errno errno' h h' = (
  λ p. some-inj (
      sym (recover-rnd_strerror e handle errno h)
      ∙ (ap recovered p ∙ recover-rnd_strerror e' handle' errno' h')),
  λ p.
      let q : some e ≡ none = sym (recover-rnd_strerror e handle errno h) ∙ ap recovered p in
      cc (q),
)
