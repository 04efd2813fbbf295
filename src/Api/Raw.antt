-- ===== src/Api/Raw.antt =====
-- `rnd_open_raw` and `rnd_close_raw`: sequences of calls on one handle, as a session.
use recnodb.Base.{
  ℕ, ◌%◌, ◌^◌, ◌≤◌, ◌≡◌, refl, ap, ◌⊎◌, inl, inr, Bool, true, false, some, List, [], ◌∷◌, ◌++◌,
  arith,
}
use recnodb.Types.{
  Error, success, invalid_head_file, system_error, file_not_open, Flags, Stream, live, null,
  dangling,
}
use recnodb.Stdio.{World, Cmd, undefined, pure, ◌>>=◌, Returns, returns, fclose, use_file}
use recnodb.Stdio.Calm.{calm}
use recnodb.Stdio.Cases.{bind, mono, result}
use recnodb.Blocks.Validate.{validate_head_file}
use recnodb.Blocks.Append.Extend.{IsValid}
use recnodb.Blocks.Open.{file_open}
use recnodb.Blocks.Open.Load.{Opened, loaded, existing, file_open-keeps, file_open-invalid}
use recnodb.Blocks.Open.CreateSafe.{file_open-create_safe}
use recnodb.Api.{open_raw, close_raw}

-- a call on the handle
pub data RawCall : Type 0 where
  opens : (reclen : ℕ) → (flags : Flags) → RawCall
  closes : RawCall

abbrev pub call_raw : RawCall → Cmd Error
call_raw (opens reclen flags) = open_raw true reclen flags
call_raw closes = close_raw

-- the calls one after the other, with what each reports
unfoldable pub run_calls : List RawCall → Cmd (List Error)
run_calls [] = pure []
run_calls (c ∷ cs) = do e ← call_raw c; es ← run_calls cs; pure (e ∷ es)

-- Without RND_CREATE the file stays.
abbrev pub Keeps : Flags → World → World → Type 0
Keeps flags w w' = flags.create ≡ false → w'.file ≡ w.file

-- What a call may report, by the stream that the handle has before it, and how it leaves the handle.
pub data Reply (w w' : World) : RawCall → Error → Type 0 where
  opened :
      {reclen : ℕ} {flags : Flags}
      → IsValid w'.handle
      → Keeps flags w w'
      → Reply w w' (opens reclen flags) success
  rejected :
      {reclen : ℕ} {flags : Flags}
      → validate_head_file (some w'.handle.head_file) ≡ invalid_head_file
      → w'.handle.stream ≡ dangling
      → Keeps flags w w'
      → Reply w w' (opens reclen flags) invalid_head_file
  lost :
      {reclen : ℕ} {flags : Flags}
      → w'.handle.stream ≡ null
      → w'.handle.sys_errno ≡ w'.errno
      → Keeps flags w w'
      → Reply w w' (opens reclen flags) system_error
  has_closed :
      w.handle.stream ≡ live
      → w'.handle.stream ≡ null
      → w'.file ≡ w.file
      → Reply w w' closes success
  not_open : w.handle.stream ≡ null → w' ≡ w → Reply w w' closes file_not_open

-- a sequence of them
pub data Session : World → List RawCall → List Error → World → Type 0 where
  idle : {w : World} → Session w [] [] w
  next :
      {w w' w'' : World} {c : RawCall} {e : Error} {cs : List RawCall} {es : List Error}
      → Reply w w' c e
      → Session w' cs es w''
      → Session w (c ∷ cs) (e ∷ es) w''

reply-Opened :
    {reclen : ℕ} {flags : Flags} {w w' : World} (e : Error)
    → Opened e w'
    → Keeps flags w w'
    → Reply w w' (opens reclen flags) e
reply-Opened {reclen} {flags} {w} {w'} e (inl (q, valid)) k = rw q (opened valid k)
reply-Opened e (inr (inl (q, bad, s))) k = rw q (rejected bad s k)
reply-Opened e (inr (inr (q, s, n))) k = rw q (lost s n k)

open_raw-replies :
    (reclen : ℕ) (create readonly : Bool) (w : World)
    → let flags : Flags = record { create = create; readonly = readonly } in
      Returns (λ e w'. Reply w w' (opens reclen flags) e) (open_raw true reclen flags w)
unfolding open_raw file_open
open_raw-replies reclen false readonly w =
    mono (file_open-keeps readonly 4096 (reclen % 2 ^ 32) w)
      λ e w' (same, o). reply-Opened e o (λ _. same)
open_raw-replies reclen true readonly w =
    mono (file_open-create_safe 4096 (reclen % 2 ^ 32) (omega arith) w)
      λ e w' o. reply-Opened e o (λ no. cc (no))

-- the stream of a handle
Stream-cases : (s : Stream) → (s ≡ live) ⊎ (s ≡ null) ⊎ (s ≡ dangling)
Stream-cases null = inr (inl refl)
Stream-cases live = inl refl
Stream-cases dangling = inr (inr refl)

-- Closing a stream that is closed already is undefined.
pub close_raw-dangling : (w : World) → w.handle.stream ≡ dangling → close_raw w ≡ undefined
unfolding close_raw use_file
close_raw-dangling w h = rw h

close_raw-replies :
    (w : World) → Returns (λ e w'. Reply w w' closes e) (close_raw w) ⊎ (w.handle.stream ≡ dangling)
unfolding close_raw use_file fclose
close_raw-replies w = elim (Stream-cases w.handle.stream) [
  | inl o ↦ inl (rw o (returns (has_closed refl refl refl)))
  | inr (inl n) ↦ inl (rw n (returns (not_open refl refl)))
  | inr (inr d) ↦ inr d
]

call_raw-replies :
    (c : RawCall) (w : World)
    → Returns (λ e w'. Reply w w' c e) (call_raw c w)
      ⊎ ((c ≡ closes) × (w.handle.stream ≡ dangling))
call_raw-replies (opens reclen flags) w =
    inl (open_raw-replies reclen flags.create flags.readonly w)
call_raw-replies closes w = elim (close_raw-replies w) [ inl r ↦ inl r | inr d ↦ inr (refl, d) ]

-- Some first calls have left the handle with a closed stream, and rnd_close_raw follows.
abbrev pub ClosesTwice : World → List RawCall → Type 0
ClosesTwice w cs =
    (before : List RawCall) × (after : List RawCall) × (es : List Error) × (w' : World) × (cs
      ≡ before ++ closes ∷ after)
    × Session w before es w'
    × (w'.handle.stream ≡ dangling)

-- Whichever calls of the C library fail, any sequence of rnd_open_raw and rnd_close_raw on one
-- handle ends with these reports, or is undefined. rnd_open_raw reports success and leaves a
-- valid handle, RND_INVALID_HEAD_FILE and leaves the closed stream in the handle, or
-- RND_SYSTEM_ERROR and leaves no stream, with `errno` in `sys_errno`; without RND_CREATE the file
-- stays. rnd_close_raw reports success where there is an open stream, and leaves none and the
-- file as it was; where there is no stream it reports RND_FILE_NOT_OPEN and changes nothing. The
-- sequence is undefined only where rnd_close_raw comes at a closed stream, which the calls before
-- it, if any, have left in the handle.
pub run_calls-Session :
    (cs : List RawCall) (w : World)
    → Returns (λ es w'. Session w cs es w') (run_calls cs w)
      ⊎ ((run_calls cs w ≡ undefined) × ClosesTwice w cs)
unfolding run_calls
run_calls-Session [] w = inl (returns idle)
run_calls-Session (c ∷ cs) w = elim (call_raw-replies c w) [
  | inr (is_close, d) ↦
      inr
        (rw (is_close, close_raw-dangling w d), ([], cs, [], w, ap (λ x. x ∷ cs) is_close, idle, d))
  | inl run ↦
      let (e, w1, ran, reply) = result run in
      elim (run_calls-Session cs w1) [
        | inl rest ↦ inl (rw ran (bind rest λ es w2 session. returns (next reply session)))
        | inr (undone, (before, after, es, w2, parts, session, d)) ↦ inr (
          rw (ran, undone),
          (c ∷ before, after, e ∷ es, w2, ap (λ xs. c ∷ xs) parts, next reply session, d),
        )
      ]
]

-- In a run without faults, on a file of 72 bytes or more whose head does not pass the check,
-- rnd_close_raw after rnd_open_raw without RND_CREATE is undefined: the stream is closed twice.
pub run_calls-closes_twice :
    (readonly : Bool) (reclen : ℕ) (w : World)
    → 72 ≤ w.file.size
    → validate_head_file (some (loaded w.file)) ≡ invalid_head_file
    → run_calls (opens reclen (existing readonly) ∷ closes ∷ []) (calm w) ≡ undefined
unfolding run_calls open_raw
run_calls-closes_twice readonly reclen w inside invalid =
    let run = file_open-invalid readonly 4096 (reclen % 2 ^ 32) w inside invalid in
    let (e, w1, ran, (_, _, d, _)) = result run in rw (ran, close_raw-dangling w1 d)
