-- ===== src/Stdio/Cases.antt =====
-- The ways in which each call of the C library can end, whichever calls fail: the result with the new
-- state. A proof about all runs splits on these.
use recnodb.Base.{
  ℕ, ◌+◌, ◌%◌, ◌^◌, ◌≤◌, ◌<◌, ◌≡◌, refl, ap, ◌≢◌, ◌⊎◌, inl, inr, max, Bool, true, false, Option,
  none, some, List, arith, Bool-cases, ltb, leb, ◌==◌, if◌then◌else◌, length, take,
}
use recnodb.Types.{live, is_live}
use recnodb.Bytes.{read, write, zeros}
use recnodb.Stdio.{
  World, Run, ok, Cmd, and_then, Returns, returns, off_limit, einval, minus_one, covers, fseek_set,
  fseek_end, ftell, fread, fwrite, set_lock, fopen, use_file, within,
}

pub bind :
    {A B : Type 0} {P : A → World → Type 0} {Q : B → World → Type 0} {r : Run A} {k : A → Cmd B}
    → Returns P r
    → ((a : A) (w : World) → P a w → Returns Q (k a w))
    → Returns Q (and_then r k)
bind (returns p) next = next _ _ p

pub mono :
    {A : Type 0} {P Q : A → World → Type 0} {r : Run A}
    → Returns P r
    → ((a : A) (w : World) → P a w → Q a w)
    → Returns Q r
mono (returns p) weaken = returns (weaken _ _ p)

-- what holds of a run's end
pub Returns-ok :
    {A : Type 0} {P : A → World → Type 0} {a : A} {w : World} → Returns P (ok a w) → P a w
Returns-ok (returns p) = p

-- a run that returns, as an equation
pub result :
    {A : Type 0} {P : A → World → Type 0} {r : Run A}
    → Returns P r
    → (a : A) × (w : World) × (r ≡ ok a w) × P a w
result (returns {a} {w} p) = (a, w, refl, p)

pub Option-cases : {A : Type 0} (o : Option A) → (o ≡ none) ⊎ ((a : A) × (o ≡ some a))
Option-cases none = inl refl
Option-cases (some a) = inr (a, refl)

-- the state after a call that fails with the error number `e`
abbrev pub failed : World → ℕ → World
failed w e = record w { tick = w.tick + 1; errno = e }

module _ (w : World) where
  pub fseek_set-cases :
      (p : ℕ)
      → ((e : ℕ) × (fseek_set p w ≡ ok true (failed w e)))
        ⊎ ((p < off_limit) × (fseek_set p w ≡ ok false (record w { tick = w.tick + 1; pos = p })))
  unfolding fseek_set
  fseek_set-cases p = elim (Option-cases (w.faults w.tick)) [
    | inr (f, e) ↦ inl (f.errno_code, rw e)
    | inl e ↦ elim (Bool-cases (ltb p off_limit)) [
      | inl t ↦ inr (ground arith, rw (e, t))
      | inr t ↦ inl (einval, rw (e, t))
    ]
  ]

  pub fseek_end-cases :
      (d p : ℕ)
      → (w.file.size + d) % 2 ^ 64 ≡ p
      → ((e : ℕ) × (fseek_end d w ≡ ok true (failed w e)))
        ⊎ ((p < off_limit) × (fseek_end d w ≡ ok false (record w { tick = w.tick + 1; pos = p })))
  unfolding fseek_end
  fseek_end-cases d p at = elim (Option-cases (w.faults w.tick)) [
    | inr (f, e) ↦ inl (f.errno_code, rw e)
    | inl e ↦ elim (Bool-cases (ltb p off_limit)) [
      | inl t ↦ inr (ground arith, rw (e, at, t))
      | inr t ↦ inl (einval, rw (e, at, t))
    ]
  ]

  pub ftell-cases :
      ((e : ℕ) × (ftell w ≡ ok minus_one (failed w e)))
      ⊎ (ftell w ≡ ok w.pos (record w { tick = w.tick + 1 }))
  unfolding ftell
  ftell-cases = elim (Option-cases (w.faults w.tick)) [
    | inr (f, e) ↦ inl (f.errno_code, rw e)
    | inl e ↦ inr (rw e)
  ]

  -- A read that fails may have moved the stream, to the end of the file.
  pub fread-cases :
      (n : ℕ)
      → ((e : ℕ) × (p : ℕ) × (fread n w ≡ ok none (record (failed w e) { pos = p })))
        ⊎ ((n ≢ 0)
            × (w.pos + n ≤ w.file.size)
            × (fread n w
                ≡ ok
                    (some (read w.file w.pos n))
                    (record w { tick = w.tick + 1; pos = w.pos + n })))
  unfolding fread
  fread-cases n = elim (Option-cases (w.faults w.tick)) [
    | inr (f, e) ↦ inl (f.errno_code, w.pos, rw e)
    | inl e ↦ elim (Bool-cases (n == 0)) [
      | inl z ↦ inl (w.errno, w.pos, rw (e, z))
      | inr nz ↦ elim (Bool-cases (leb (w.pos + n) w.file.size)) [
        | inl t ↦ inr (ground arith, ground arith, rw (e, nz, t))
        | inr t ↦ inl (w.errno, max w.pos w.file.size, rw (e, nz, t))
      ]
    ]
  ]

  -- A write that fails may have put out some first bytes.
  pub fwrite-cases :
      (xs : List ℕ)
      → ((e : ℕ) × (fwrite xs w ≡ ok false (failed w e)))
        ⊎ ((e : ℕ) × (n : ℕ) × (n ≢ 0)
            × (fwrite xs w
                ≡ ok false (record (failed w e) { file = write w.file w.pos (take n xs) })))
        ⊎ (fwrite xs w
            ≡ ok true (record w {
              tick = w.tick + 1;
              file = write w.file w.pos xs;
              pos = w.pos + length xs;
            }))
  unfolding fwrite
  fwrite-cases xs = elim (Option-cases (w.faults w.tick)) [
    | inl e ↦ inr (inr (rw e))
    | inr (f, e) ↦ elim (Bool-cases (f.written == 0)) [
      | inl z ↦ inl (f.errno_code, rw (e, z))
      | inr nz ↦ inr (inl (f.errno_code, f.written, ground arith, rw (e, nz)))
    ]
  ]

  pub set_lock-cases :
      (on : Bool) (start len : ℕ)
      → ((e : ℕ) × (set_lock on start len w ≡ ok true (failed w e)))
        ⊎ (set_lock on start len w
            ≡ ok false (record w {
              tick = w.tick + 1;
              locked = λ i. if covers start len i then on else w.locked i;
            }))
  unfolding set_lock
  set_lock-cases on start len = elim (Option-cases (w.faults w.tick)) [
    | inr (f, e) ↦ inl (f.errno_code, rw e)
    | inl e ↦ inr (rw e)
  ]

  pub fopen-cases :
      (truncate : Bool)
      → ((e : ℕ) × (fopen truncate w ≡ ok false (failed w e)))
        ⊎ (fopen truncate w
            ≡ ok true (record w {
              tick = w.tick + 1;
              file = if truncate then zeros 0 else w.file;
              pos = 0;
            }))
  unfolding fopen
  fopen-cases truncate = elim (Option-cases (w.faults w.tick)) [
    | inr (f, e) ↦ inl (f.errno_code, rw e)
    | inl e ↦ inr (rw e)
  ]

within-true : (b : Bool) (w : World) → b ≡ true → within b w ≡ ok tt w
within-true true w h = refl
within-true false w h = cc (h)

-- The handle has a stream.
pub use_file-opened : (w : World) → w.handle.stream ≡ live → use_file w ≡ ok tt w
unfolding use_file
use_file-opened w h = within-true (is_live w.handle.stream) w (ap is_live h)
