-- ===== src/Locks/Calm.antt =====
-- `rnd_lock_area` in a run without faults: what the callback gets, and what becomes of its buffer.
use recnodb.Base.{
  ℕ, ◌+◌, ◌<◌, ◌≤◌, ◌≡◌, refl, ◌≢◌, Bool, true, false, some, List, length, ne→==, if◌then◌else◌,
}
use recnodb.Bytes.{Bytes, zeros, read, write}
use recnodb.Types.{success, live}
use recnodb.Stdio.{
  World, ok, undefined, pure, and_then, ◌>>◌, off_limit, Returns, returns, fseek_set,
}
use recnodb.Stdio.Cases.{use_file-opened}
use recnodb.Stdio.Calm.{calm, set_lock-calm, fseek_set-calm, ftell-calm, fread-calm, fwrite-calm}
use recnodb.Blocks.Layout.{BlockLoc}
use recnodb.Locks.{LockCallback, lock_area, with_data, use_buffer, write_buffer, unlock}
use recnodb.Locks.Area.{with_area, primed, locking}

module _ {S : Type 0} (area : BlockLoc) (callback : LockCallback S) where
  -- the state when the area has been read
  abbrev pub shown : World → World
  shown v = record v { pos = area.offset + area.size; tick = v.tick + 1 + 1 + 1 }

  -- the state when the buffer is back and the stream where it stood
  abbrev pub returned : ℕ → Bool → Bytes → World → World
  returned saved changed buffer w2 = record w2 {
    file = if changed then write w2.file area.offset (read buffer 0 area.size) else w2.file;
    pos = saved;
    tick = if changed then w2.tick + 1 + 1 + 1 else w2.tick + 1;
  }

  use_buffer-calm :
      (v w2 : World) (s s' : S) (changed : Bool) (buffer : Bytes) (xs : List ℕ) (saved : ℕ)
      → area.offset < off_limit
      → saved < off_limit
      → callback area (some (write (zeros area.size) 0 xs)) s (calm v)
        ≡ ok (changed, buffer, s') (calm w2)
      → and_then (use_buffer area callback s (some xs) (calm v)) (λ r. fseek_set saved >> pure r)
        ≡ ok (success, s') (calm (returned saved changed buffer w2))
  unfolding use_buffer write_buffer
  use_buffer-calm v w2 s s' false buffer xs saved ho hp called =
      rw (called, fseek_set-calm w2 saved hp)
  use_buffer-calm v w2 s s' true buffer xs saved ho hp called = rw (
    called,
    fseek_set-calm w2 area.offset ho,
    fwrite-calm (record w2 { pos = area.offset; tick = w2.tick + 1 }) (read buffer 0 area.size),
    fseek_set-calm
        (record w2 {
          file = write w2.file area.offset (read buffer 0 area.size);
          pos = area.offset + length (read buffer 0 area.size);
          tick = w2.tick + 1 + 1;
        })
        saved hp,
  )

  with_data-calm :
      (v w2 : World) (s s' : S) (changed : Bool) (buffer : Bytes)
      → area.offset < off_limit
      → v.pos < off_limit
      → area.size ≢ 0
      → area.offset + area.size ≤ v.file.size
      → callback area
          (some (write (zeros area.size) 0 (read v.file area.offset area.size)))
          s
          (calm (shown v))
        ≡ ok (changed, buffer, s') (calm w2)
      → with_data area callback s (calm v)
        ≡ ok (success, s') (calm (returned v.pos changed buffer w2))
  unfolding with_data
  with_data-calm v w2 s s' changed buffer ho hp ne inside called =
      rw
        (
          ne→== area.size 0 ne,
          ftell-calm v,
          fseek_set-calm (record v { tick = v.tick + 1 }) area.offset ho,
          fread-calm (record v { pos = area.offset; tick = v.tick + 1 + 1 }) area.size ne inside,
        )
        (use_buffer-calm (shown v) w2 s s' changed buffer (read v.file area.offset area.size) v.pos
          ho hp called)

  -- the state when the area is unlocked
  abbrev pub finished : World → Bool → Bytes → World → World
  finished w changed buffer w2 = record (returned w.pos changed buffer w2) {
    locked = with_area area false w2.locked;
    tick = (returned w.pos changed buffer w2).tick + 1;
  }

  module _ (w w2 : World) (s s' : S) (changed : Bool) (buffer : Bytes)
      (opened : w.handle.stream ≡ live) (ho : area.offset < off_limit) (hp : w.pos < off_limit)
      (ne : area.size ≢ 0) (inside : area.offset + area.size ≤ w.file.size) where
    pub lock_area-finished :
        callback area
            (some (write (zeros area.size) 0 (read w.file area.offset area.size)))
            s
            (calm (shown (locking area callback w)))
          ≡ ok (changed, buffer, s') (calm w2)
        → lock_area area true callback s (calm w)
          ≡ ok (success, s') (calm (finished w changed buffer w2))
    unfolding lock_area unlock
    lock_area-finished called = rw (
      use_file-opened (calm (primed w)) opened,
      set_lock-calm (primed w) true area.offset area.size,
      with_data-calm (locking area callback w) w2 s s' changed buffer ho hp ne inside called,
      set_lock-calm (returned w.pos changed buffer w2) false area.offset area.size,
    )

  with_data-undefined :
      (v : World) (s : S)
      → area.offset < off_limit
      → area.size ≢ 0
      → area.offset + area.size ≤ v.file.size
      → callback area
          (some (write (zeros area.size) 0 (read v.file area.offset area.size)))
          s
          (calm (shown v))
        ≡ undefined
      → with_data area callback s (calm v) ≡ undefined
  unfolding with_data use_buffer
  with_data-undefined v s ho ne inside called = rw (
    ne→== area.size 0 ne,
    ftell-calm v,
    fseek_set-calm (record v { tick = v.tick + 1 }) area.offset ho,
    fread-calm (record v { pos = area.offset; tick = v.tick + 1 + 1 }) area.size ne inside,
    called,
  )

  -- A callback whose run is undefined makes that of rnd_lock_area undefined.
  pub lock_area-undefined :
      (w : World) (s : S)
      → w.handle.stream ≡ live
      → area.offset < off_limit
      → area.size ≢ 0
      → area.offset + area.size ≤ w.file.size
      → callback area
          (some (write (zeros area.size) 0 (read w.file area.offset area.size)))
          s
          (calm (shown (locking area callback w)))
        ≡ undefined
      → lock_area area true callback s (calm w) ≡ undefined
  unfolding lock_area
  lock_area-undefined w s opened ho ne inside called = rw (
    use_file-opened (calm (primed w)) opened,
    set_lock-calm (primed w) true area.offset area.size,
    with_data-undefined (locking area callback w) s ho ne inside called,
  )

  -- With `retrieve_data`, on a nonempty area that lies in the file, in the range of `off_t`, with
  -- an open handle, without faults, and with a callback that comes back, rnd_lock_area shows the
  -- callback the bytes of the area while it is locked. If the callback says so, its buffer goes
  -- back to the area; in either case the area is unlocked, the stream stands where it stood and
  -- the result is success.
  pub lock_area-writes :
      (w w2 : World) (s s' : S) (changed : Bool) (buffer : Bytes)
      → w.handle.stream ≡ live
      → area.offset < off_limit
      → w.pos < off_limit
      → area.size ≢ 0
      → area.offset + area.size ≤ w.file.size
      → callback area
          (some (write (zeros area.size) 0 (read w.file area.offset area.size)))
          s
          (calm (shown (locking area callback w)))
        ≡ ok (changed, buffer, s') (calm w2)
      → Returns
          (λ (e, s1) w'.
            (e ≡ success)
            × (s1 ≡ s')
            × (w'.file ≡ (
                if changed then write w2.file area.offset (read buffer 0 area.size) else w2.file))
            × (w'.pos ≡ w.pos)
            × (w'.locked ≡ with_area area false w2.locked))
          (lock_area area true callback s (calm w))
  lock_area-writes w w2 s s' changed buffer opened ho hp ne inside called =
      rw (lock_area-finished w w2 s s' changed buffer opened ho hp ne inside called)
        (returns (refl, refl, refl, refl, refl))
