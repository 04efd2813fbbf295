-- ===== src/Stdio/Calm.antt =====
-- The calls of the C library in a run without faults, each as an equation.
use recnodb.Base.{
  ℕ, ◌+◌, ◌%◌, ◌^◌, ◌≤◌, ◌<◌, ◌≡◌, refl, ap, ◌≢◌, Bool, true, false, none, some, List, lt→ltb,
  le→leb, ne→==, if◌then◌else◌, length,
}
use recnodb.Bytes.{zeros, read, write}
use recnodb.Stdio.{
  World, ok, off_limit, covers, fseek_set, fseek_end, ftell, fread, fwrite, set_lock, fopen,
}

-- the same state, in which no call fails
abbrev pub calm : World → World
calm w = record w { faults = λ _. none }

-- no call fails from here on
abbrev pub IsCalm : World → Type 0
IsCalm w = w.faults ≡ (λ _. none)

pub IsCalm-calm : {w : World} → IsCalm w → w ≡ calm w
IsCalm-calm {w} q = ap (λ f. record w { faults = f }) q

module _ (w : World) where
  pub fseek_set-calm :
      (p : ℕ)
      → p < off_limit
      → fseek_set p (calm w) ≡ ok false (calm (record w { pos = p; tick = w.tick + 1 }))
  unfolding fseek_set
  fseek_set-calm p h = rw (lt→ltb p off_limit h)

  pub fseek_end-calm :
      (d p : ℕ)
      → (w.file.size + d) % 2 ^ 64 ≡ p
      → p < off_limit
      → fseek_end d (calm w) ≡ ok false (calm (record w { pos = p; tick = w.tick + 1 }))
  unfolding fseek_end
  fseek_end-calm d p e h = rw (e, lt→ltb p off_limit h)

  pub ftell-calm : ftell (calm w) ≡ ok w.pos (calm (record w { tick = w.tick + 1 }))
  unfolding ftell
  ftell-calm = refl

  pub fread-calm :
      (n : ℕ)
      → n ≢ 0
      → w.pos + n ≤ w.file.size
      → fread n (calm w)
        ≡ ok (some (read w.file w.pos n)) (calm (record w { pos = w.pos + n; tick = w.tick + 1 }))
  unfolding fread
  fread-calm n h s = rw (ne→== n 0 h, le→leb _ _ s)

  pub fwrite-calm :
      (xs : List ℕ)
      → fwrite xs (calm w)
        ≡ ok true (
            calm (record w {
              file = write w.file w.pos xs;
              pos = w.pos + length xs;
              tick = w.tick + 1;
            }))
  unfolding fwrite
  fwrite-calm xs = refl

  pub set_lock-calm :
      (on : Bool) (start len : ℕ)
      → set_lock on start len (calm w)
        ≡ ok false (
            calm (record w {
              locked = λ i. if covers start len i then on else w.locked i;
              tick = w.tick + 1;
            }))
  unfolding set_lock
  set_lock-calm on start len = refl

  pub fopen-calm :
      (truncate : Bool)
      → fopen truncate (calm w)
        ≡ ok true (
            calm (record w {
              file = if truncate then zeros 0 else w.file;
              pos = 0;
              tick = w.tick + 1;
            }))
  unfolding fopen
  fopen-calm truncate = refl
