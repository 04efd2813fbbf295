-- ===== src/Locks/Area.antt =====
-- `rnd_lock_area`: what is locked while the callback runs and after it, and each of its results.
use recnodb.Base.{
  ℕ, ◌+◌, ◌≡◌, refl, ◌≢◌, ap, ◌∙◌, ◌⊎◌, inl, inr, Bool, true, false, ◌||◌, arith, Bool-cases,
  Option, none, some, List, ne→==, if◌then◌else◌, ◌==◌,
}
use mathlib.Core.Path.{fun_ext}
use recnodb.Bytes.{Bytes, zeros, read, write}
use recnodb.Types.{Error, success, fail, system_error, lock_failed, live}
use recnodb.Stdio.{
  World, Cmd, ok, set_lock, fseek_set, ftell, fread, Returns, returns, covers, save_errno,
}
use recnodb.Stdio.Cases.{
  bind, mono, result, use_file-opened, set_lock-cases, fseek_set-cases, ftell-cases, fread-cases,
  fwrite-cases,
}
use recnodb.Blocks.Layout.{BlockLoc}
use recnodb.Locks.{
  LockCallback, eagain, eacces, lock_area, with_data, without_data, use_buffer, write_buffer,
  unlock, refuse,
}

-- the locks `l` with the bytes of an area set to `on`
abbrev pub with_area : BlockLoc → Bool → (ℕ → Bool) → ℕ → Bool
with_area area on l i = if covers area.offset area.size i then on else l i

-- the state when rnd_lock_area has cleared `sys_errno`, and when it has set the lock
abbrev pub primed : World → World
primed w = record w { handle = record w.handle { sys_errno = 0 } }

pub with_area-with_area :
    (area : BlockLoc) (l : ℕ → Bool)
    → with_area area false (with_area area true l) ≡ with_area area false l
with_area-with_area area l = fun_ext λ i. ground arith

-- A callback that comes back, and leaves the locks of the process as they are, whichever calls fail.
abbrev pub Behaves : {S : Type 0} → BlockLoc → LockCallback S → Type 0
Behaves {S} area callback =
    (buffer : Option Bytes) (s : S) (w : World)
    → Returns (λ r w'. w'.locked ≡ w.locked) (callback area buffer s w)

-- The calls on the stream leave the locks alone.
fseek_set-locks : (p : ℕ) (w : World) → Returns (λ _ w'. w'.locked ≡ w.locked) (fseek_set p w)
fseek_set-locks p w = elim (fseek_set-cases w p) [
  | inl (e, q) ↦ rw q (returns refl)
  | inr (_, q) ↦ rw q (returns refl)
]

ftell-locks : (w : World) → Returns (λ _ w'. w'.locked ≡ w.locked) (ftell w)
ftell-locks w = elim (ftell-cases w) [
  | inl (e, q) ↦ rw q (returns refl)
  | inr q ↦ rw q (returns refl)
]

fread-locks : (n : ℕ) (w : World) → Returns (λ _ w'. w'.locked ≡ w.locked) (fread n w)
fread-locks n w = elim (fread-cases w n) [
  | inl (e, p, q) ↦ rw q (returns refl)
  | inr (_, _, q) ↦ rw q (returns refl)
]

module _ {S : Type 0} (area : BlockLoc) (callback : LockCallback S) where
  abbrev pub locking : World → World
  locking w = record (primed w) { tick = w.tick + 1; locked = with_area area true w.locked }

  abbrev SameLocks : World → Error × S → World → Type 0
  SameLocks w r w' = w'.locked ≡ w.locked

  write_buffer-locks :
      (r : Bool × Bytes × S) (w : World) → Returns (SameLocks w) (write_buffer area callback r w)
  unfolding write_buffer
  write_buffer-locks (false, buffer, s) w = returns refl
  write_buffer-locks (true, buffer, s) w = elim (fseek_set-cases w area.offset) [
    | inl (e, q) ↦ rw q (returns refl)
    | inr (_, q) ↦
        rw q
          (elim (fwrite-cases (record w { tick = w.tick + 1; pos = area.offset })
            (read buffer 0 area.size)) [
              | inl (e, r) ↦ rw r (returns refl)
              | inr (inl (e, k, _, r)) ↦ rw r (returns refl)
              | inr (inr r) ↦ rw r (returns refl)
            ])
  ]

  -- what rnd_lock_area does between setting and releasing the lock
  abbrev pub between : Bool → S → Cmd (Error × S)
  between retrieve s = if retrieve then with_data area callback s else without_data area callback s

  -- How rnd_lock_area ends, by the calls of `fcntl` that it has made: the first one has failed; or the
  -- last one, after everything in between, has released the area; or it was made and has failed.
  pub data Outcome (retrieve : Bool) (s : S) (w : World) : Error × S → World → Type 0 where
    refused :
        {e : Error} {v w' : World}
        → set_lock true area.offset area.size (primed w) ≡ ok true v
        → w'.locked ≡ w.locked
        → ((e ≡ lock_failed) × ((v.errno ≡ eagain) ⊎ (v.errno ≡ eacces)))
          ⊎ ((e ≡ system_error)
              × (v.errno ≢ eagain)
              × (v.errno ≢ eacces)
              × (w'.handle.sys_errno ≡ v.errno))
        → Outcome retrieve s w (e, s) w'
    released :
        {r : Error × S} {u w' : World}
        → set_lock true area.offset area.size (primed w) ≡ ok false (locking w)
        → between retrieve s (locking w) ≡ ok r u
        → set_lock false area.offset area.size u ≡ ok false w'
        → w'.locked ≡ with_area area false w.locked
        → Outcome retrieve s w r w'
    kept :
        {r : Error × S} {u v w' : World}
        → set_lock true area.offset area.size (primed w) ≡ ok false (locking w)
        → between retrieve s (locking w) ≡ ok r u
        → set_lock false area.offset area.size u ≡ ok true v
        → w'.locked ≡ with_area area true w.locked
        → w'.handle.sys_errno ≡ v.errno
        → Outcome retrieve s w (system_error, r.1) w'

  module _ (behaves : Behaves area callback) where
    use_buffer-locks :
        (s : S) (xs : Option (List ℕ)) (w : World)
        → Returns (SameLocks w) (use_buffer area callback s xs w)
    unfolding use_buffer
    use_buffer-locks s none w = returns refl
    use_buffer-locks s (some xs) w =
        bind (behaves (some (write (zeros area.size) 0 xs)) s w)
          λ r w' same. mono (write_buffer-locks r w') λ a w'' e. e ∙ same

    with_data-locks :
        (s : S) (w : World) → area.size ≢ 0 → Returns (SameLocks w) (with_data area callback s w)
    unfolding with_data save_errno
    with_data-locks s w ne = rw (ne→== area.size 0 ne) (
        bind (ftell-locks w) λ saved w1 e1. bind (fseek_set-locks area.offset w1) λ bad w2 e2.
          elim (Bool-cases bad) [
            | inl b ↦ rw b (returns (e2 ∙ e1))
            | inr b ↦ rw b (
                bind (fread-locks area.size w2) λ xs w3 e3.
                  bind (use_buffer-locks s xs w3) λ r w4 e4.
                    bind (fseek_set-locks saved w4)
                      λ _ w5 e5. returns (e5 ∙ (e4 ∙ (e3 ∙ (e2 ∙ e1)))))
          ])

    without_data-fails :
        (s : S) (w : World) → Returns (λ r w'. r.0 ≡ fail) (without_data area callback s w)
    unfolding without_data
    without_data-fails s w = bind (behaves none s w) λ r w1 e. returns refl

    body-locks :
        (retrieve : Bool) (s : S) (w : World)
        → area.size ≢ 0
        → Returns
            (SameLocks w)
            ((if retrieve then with_data area callback s else without_data area callback s) w)
    unfolding without_data
    body-locks true s w ne = with_data-locks s w ne
    body-locks false s w ne = bind (behaves none s w) λ r w1 e. returns e

    -- Whichever calls of the C library fail, rnd_lock_area of a nonempty area, with an open
    -- handle and a callback that comes back and leaves the locks alone, comes back, in one of
    -- three ways. The first call of `fcntl`, made before anything else, has failed: no lock has
    -- changed, and the result is RND_LOCK_FAILED, `errno` being EAGAIN or EACCES, or otherwise
    -- RND_SYSTEM_ERROR, with `errno` in `sys_errno`. Or it has set the lock, the reads, the
    -- callback and the writes in between have ended, well or not, and then a call of `fcntl` has
    -- released the area: the area is unlocked, the other locks are as before, and the result is
    -- what those calls have given. Or that last call was made and has failed: the area is still
    -- locked, and the result is RND_SYSTEM_ERROR, with `errno` in `sys_errno`.
    pub lock_area-releases :
        (retrieve : Bool) (s : S) (w : World)
        → w.handle.stream ≡ live
        → area.size ≢ 0
        → Returns (Outcome retrieve s w) (lock_area area retrieve callback s w)
    unfolding lock_area refuse unlock save_errno
    lock_area-releases retrieve s w opened ne =
        rw (use_file-opened (primed w) opened)
          (elim (set_lock-cases (primed w) true area.offset area.size) [
            | inl (e, q) ↦ rw q (elim (Bool-cases ((e == eagain) || (e == eacces))) [
              | inl t ↦ rw t (returns (refused q refl (inl (refl, ground arith))))
              | inr t ↦
                  rw t (returns (refused q refl (inr (refl, ground arith, ground arith, refl))))
            ])
            | inr q ↦
                let (r, u, run, same) = result (body-locks retrieve s (locking w) ne) in
                rw (q, run)
                  (elim (set_lock-cases u false area.offset area.size) [
                    | inl (e, q') ↦ rw q' (returns (kept q run q' same refl))
                    | inr q' ↦ rw q' (
                        returns (
                          released q run q'
                            (ap (with_area area false) same ∙ with_area-with_area area w.locked)))
                  ])
          ])

    -- Without `retrieve_data` rnd_lock_area, with an open handle and a callback that comes back
    -- and leaves the locks alone, comes back and never reports success, whichever calls of the C
    -- library fail or do not.
    lock_area-no_data :
        (s : S) (w : World)
        → w.handle.stream ≡ live
        → Returns (λ (e, s') w'. e ≢ success) (lock_area area false callback s w)
    unfolding lock_area refuse unlock save_errno
    lock_area-no_data s w opened =
        rw (use_file-opened (primed w) opened)
          (elim (set_lock-cases (primed w) true area.offset area.size) [
            | inl (e, q) ↦ rw q (elim (Bool-cases ((e == eagain) || (e == eacces))) [
              | inl t ↦ rw t (returns (λ x. cc))
              | inr t ↦ rw t (returns (λ x. cc))
            ])
            | inr q ↦ rw q (
                bind (without_data-fails s (locking w)) λ r w2 failed.
                  elim (set_lock-cases w2 false area.offset area.size) [
                    | inl (e, r) ↦ rw r (returns (λ x. cc))
                    | inr r ↦ rw r (returns (λ x. cc (failed)))
                  ])
          ])
