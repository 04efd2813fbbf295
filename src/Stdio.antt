-- ===== src/Stdio.antt =====
-- What the program uses of the C library: a binary stream on one file, `fcntl` locks, `assert`.
-- A call may fail at any time: `faults` says which calls of the run do, and how.
pub mod Calm
pub mod Cases
use recnodb.Base.{
  ℕ, ◌+◌, ◌-◌, ◌%◌, ◌^◌, max, Bool, true, false, ◌&&◌, ◌||◌, Option, none, some, List, ◌++◌, ltb,
  leb, ◌==◌, if◌then◌else◌, length, take,
}
use recnodb.Bytes.{Bytes, zeros, read, write}
use recnodb.Types.{Stream, live, dangling, is_live, Handle}

-- A failing call: the value that it leaves in `errno`, and how many bytes a failing `fwrite` had put
-- out.
pub record Fault : Type 0 where
  pub errno_code : ℕ
  pub written : ℕ

-- The file, its stream, the bytes that the process has locked, and the handle in use. `tick` counts
-- the calls of the library, and `printed` has numbers that were printed, in order.
pub record World : Type 0 where
  pub file : Bytes
  pub pos : ℕ
  pub locked : ℕ → Bool
  pub faults : ℕ → Option Fault
  pub tick : ℕ
  pub errno : ℕ
  pub printed : List ℕ
  pub handle : Handle

-- `aborted` is a failed assertion, `undefined` undefined behaviour of C.
pub data Run (A : Type 0) : Type 0 where
  ok : A → World → Run A
  aborted : Run A
  undefined : Run A
  out_of_fuel : Run A

abbrev pub Cmd : Type 0 → Type 0
Cmd A = World → Run A

abbrev pub pure : {A : Type 0} → A → Cmd A
pure = ok

module _ {A B : Type 0} where
  abbrev pub and_then : Run A → (A → Cmd B) → Run B
  and_then (ok a w) k = k a w
  and_then aborted k = aborted
  and_then undefined k = undefined
  and_then out_of_fuel k = out_of_fuel

  infixl 5 ◌>>=◌ ◌>>◌
  abbrev pub ◌>>=◌ : Cmd A → (A → Cmd B) → Cmd B
  m >>= k = λ w. and_then (m w) k

  abbrev pub ◌>>◌ : Cmd A → Cmd B → Cmd B
  m >> n = m >>= λ _. n

-- A run ends, and its result and final state meet a condition.
pub data Returns {A : Type 0} (P : A → World → Type 0) : Run A → Type 0 where
  returns : {a : A} {w : World} → P a w → Returns P (ok a w)

-- C's `||` on calls that have effects
abbrev pub or_else : Cmd Bool → Cmd Bool → Cmd Bool
or_else m n = m >>= λ b. if b then pure true else n

abbrev pub assert : Bool → Cmd (Unit {0})
assert true = pure tt
assert false = λ w. aborted

-- an access outside its object
abbrev pub within : Bool → Cmd (Unit {0})
within true = pure tt
within false = λ w. undefined

-- Whether the next call of the library fails.
abbrev pub next_fault : Cmd (Option Fault)
next_fault w = ok (w.faults w.tick) (record w { tick = w.tick + 1 })

-- An `off_t` is its 64-bit pattern: a pattern from here on is a negative number.
abbrev pub off_limit : ℕ
off_limit = 2 ^ 63

abbrev pub minus_one : ℕ
minus_one = 2 ^ 64 - 1

abbrev pub einval : ℕ
einval = 22

seek_to : Option Fault → ℕ → Cmd Bool
seek_to (some f) p w = ok true (record w { errno = f.errno_code })
seek_to none p w =
    if ltb p off_limit
    then ok false (record w { pos = p })
    else ok true (record w { errno = einval })

-- `fseek(f, p, SEEK_SET)`, true for the failure that C reports by -1
unfoldable pub fseek_set : ℕ → Cmd Bool
unfolding seek_to
fseek_set p = do f ← next_fault; seek_to f p

-- `fseek(f, d, SEEK_END)`; adding the pattern of a negative `d` wraps
unfoldable pub fseek_end : ℕ → Cmd Bool
unfolding seek_to
fseek_end d = do f ← next_fault; λ w. seek_to f ((w.file.size + d) % 2 ^ 64) w

-- `ftell(f)`
unfoldable pub ftell : Cmd ℕ
ftell = do
  f ← next_fault
  λ w. elim f [ none ↦ ok w.pos w | some e ↦ ok minus_one (record w { errno = e.errno_code }) ]

read_item : Option Fault → ℕ → Cmd (Option (List ℕ))
read_item (some f) n w = ok none (record w { errno = f.errno_code })
read_item none n w =
    if n == 0
    then ok none w
    else if leb (w.pos + n) w.file.size
    then ok (some (read w.file w.pos n)) (record w { pos = w.pos + n })
    else ok none (record w { pos = max w.pos w.file.size })

-- `fread(_, n, 1, f)`: the bytes, or `none` where it returns 0. At the end of the file it leaves
-- `errno` alone.
unfoldable pub fread : ℕ → Cmd (Option (List ℕ))
unfolding read_item
fread n = do f ← next_fault; read_item f n

write_item : Option Fault → List ℕ → Cmd Bool
write_item (some f) xs w = ok false (record w {
  file = if f.written == 0 then w.file else write w.file w.pos (take f.written xs);
  errno = f.errno_code;
})
write_item none xs w = ok true (record w { file = write w.file w.pos xs; pos = w.pos + length xs })

-- `fwrite(xs, length xs, 1, f)` of at least one byte, true for success
unfoldable pub fwrite : List ℕ → Cmd Bool
unfolding write_item
fwrite xs = do f ← next_fault; write_item f xs

-- whether a lock from `start` of `len` bytes holds byte `i`; length 0 reaches to the end of the file
abbrev pub covers : ℕ → ℕ → ℕ → Bool
covers start len i = leb start i && ((len == 0) || ltb i (start + len))

lock_bytes : Option Fault → Bool → ℕ → ℕ → Cmd Bool
lock_bytes (some f) on start len w = ok true (record w { errno = f.errno_code })
lock_bytes none on start len w =
    ok false (record w { locked = λ i. if covers start len i then on else w.locked i })

-- `fcntl(fd, F_SETLK, _) == -1` with F_WRLCK (`on`) or F_UNLCK. That another process holds a lock
-- is a fault with EAGAIN or EACCES.
unfoldable pub set_lock : Bool → ℕ → ℕ → Cmd Bool
unfolding lock_bytes
set_lock on start len = do f ← next_fault; lock_bytes f on start len

-- `fopen(path, "w+b")` truncates, `fopen(path, "r+b")` keeps what is there; true for success.
unfoldable pub fopen : Bool → Cmd Bool
fopen truncate = do
  f ← next_fault
  λ w. elim f [
    | none ↦ ok true (record w { file = if truncate then zeros 0 else w.file; pos = 0 })
    | some e ↦ ok false (record w { errno = e.errno_code })
  ]

abbrev pub closed : Stream → Stream
closed live = dangling
closed s = s

-- `fclose(f)` of the stream that is open, which drops the locks of the process on the file. A handle
-- with that stream has a pointer to a closed one then.
unfoldable pub fclose : Cmd (Unit {0})
fclose w =
    ok tt (record w {
      locked = λ _. false;
      handle = record w.handle { stream = closed w.handle.stream };
    })

-- `stat(path, &s)` of the file: `s.st_size`, or `none` where it fails
unfoldable pub stat_size : Cmd (Option ℕ)
stat_size = do
  f ← next_fault
  λ w. elim f [
    | none ↦ ok (some w.file.size) w
    | some e ↦ ok none (record w { errno = e.errno_code })
  ]

-- the numbers in a call of `printf`
unfoldable pub print : List ℕ → Cmd (Unit {0})
print xs w = ok tt (record w { printed = w.printed ++ xs })

-- Reads and updates of the handle.
abbrev pub get : Cmd World
get w = ok w w

abbrev pub set_handle : Handle → Cmd (Unit {0})
set_handle h w = ok tt (record w { handle = h })

-- `handle->file`, of which a call of the library makes use: there must be an open stream.
unfoldable pub use_file : Cmd (Unit {0})
use_file w = within (is_live w.handle.stream) w

-- `handle->sys_errno = errno`
unfoldable pub save_errno : Cmd (Unit {0})
save_errno w = ok tt (record w { handle = record w.handle { sys_errno = w.errno } })
