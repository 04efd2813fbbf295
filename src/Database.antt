-- ===== src/Database.antt =====
-- The abstract view of a database file: a head with the magic number at its start, and the list of the
-- offsets of the blocks that are linked to it.
pub mod Stays
pub mod Add
pub mod Calls
pub mod Steps
pub mod Progress
use recnodb.Base.{
  ℕ, ◌+◌, ◌*◌, ◌/◌, ◌%◌, ◌≤◌, ◌<◌, ◌≡◌, refl, ◌≢◌, ap, ◌∙◌, ◌⊎◌, inl, inr, Option, some, List, [],
  ◌∷◌, ◌++◌, true, arith, ne→==,
}
use native.Mathlib.Nat.{div-add-mod'}
use recnodb.Bytes.{Bytes, zeros}
use recnodb.Types.{success, is_success, live}
use recnodb.Stdio.{World}
use recnodb.Blocks.Append.Extend.{IsValid, chunk_of}
use recnodb.Blocks.Layout.{
  block_type, bytes_to_data, block_size, magic, chunk_size, magic_bytes, member,
}
use recnodb.Blocks.Validate.{
  validate_head_file, validate_handle, handle_chunk_size, head_file_chunk_size,
}
use recnodb.Blocks.Head.Fields.{member-copy}
use recnodb.Blocks.Open.Load.{loaded}
use recnodb.Chains.Walk.{Chain}
use recnodb.Chains.Last.{last_of}
use recnodb.Chains.Grow.{Aligned}

-- The blocks at `ps` are a chain of readable heads from the start of the file, at multiples of the
-- chunk size, of which the file is one too; the first head passes the check, and the last one can be
-- copied by chains_last_link.
pub record IsDatabase (f : Bytes) (chunk : ℕ) (ps : List ℕ) : Type 0 where
  pub chain : Chain f 0 ps
  pub aligned : Aligned chunk ps
  pub ends : f.size % chunk ≡ 0
  pub roomy : 72 ≤ chunk
  pub long : 32 ≤ member f (last_of ps) bytes_to_data
  pub short : member f (last_of ps) bytes_to_data ≤ 72
  pub type : member f 0 block_type ≢ 0
  pub data_at : member f 0 bytes_to_data ≢ 0
  pub block : member f 0 block_size ≢ 0
  pub signature : member f 0 magic ≡ magic_bytes
  pub chunks : member f 0 chunk_size ≡ chunk

-- It opens.
pub loads :
    {f : Bytes} {chunk : ℕ} {ps : List ℕ}
    → IsDatabase f chunk ps
    → validate_head_file (some (loaded f)) ≡ success
unfolding validate_head_file
loads {f} {chunk} db = rw (
  member-copy (zeros 72) 0 f 0 72 chunk_size (omega arith),
  member-copy (zeros 72) 0 f 0 72 magic (omega arith),
  member-copy (zeros 72) 0 f 0 72 block_type (omega arith),
  member-copy (zeros 72) 0 f 0 72 bytes_to_data (omega arith),
  member-copy (zeros 72) 0 f 0 72 block_size (omega arith),
  db.chunks,
  db.signature,
  ne→== chunk 0 (omega (arith, db.roomy)),
  ne→== (member f 0 block_type) 0 db.type,
  ne→== (member f 0 bytes_to_data) 0 db.data_at,
  ne→== (member f 0 block_size) 0 db.block,
)

-- the state when the file has been opened
abbrev pub at_head : World → World
at_head w = record w {
  pos = 72;
  tick = w.tick + 1 + 1;
  handle = record { stream = live; sys_errno = 0; head_file = loaded w.file };
}

pub at_head-IsValid :
    (w : World) {chunk : ℕ} {ps : List ℕ} → IsDatabase w.file chunk ps → IsValid (at_head w).handle
unfolding validate_handle
at_head-IsValid w db = (refl, ap is_success (loads db))

pub chunk_of-at_head :
    (w : World) {chunk : ℕ} {ps : List ℕ}
    → IsDatabase w.file chunk ps
    → chunk_of (at_head w).handle ≡ chunk
unfolding handle_chunk_size head_file_chunk_size
chunk_of-at_head w db = member-copy (zeros 72) 0 w.file 0 72 chunk_size (omega arith) ∙ db.chunks

pub last_of-append : (ps : List ℕ) (new : ℕ) → last_of (ps ++ new ∷ []) ≡ new
unfolding last_of
last_of-append [] new = refl
last_of-append (p ∷ []) new = refl
last_of-append (p ∷ q ∷ ps) new = last_of-append (q ∷ ps) new

pub Aligned-append :
    (chunk : ℕ) (ps : List ℕ) (new : ℕ)
    → Aligned chunk ps
    → new % chunk ≡ 0
    → Aligned chunk (ps ++ new ∷ [])
Aligned-append chunk [] new a h = (h, tt)
Aligned-append chunk (p ∷ ps) new a h = (a.0, Aligned-append chunk ps new a.1 h)

one_step : (n c : ℕ) → 0 < n → c ≤ n * c
one_step n c h = grind arith

-- a block is the first, or lies behind the first head
pub multiple_or_zero : (z c : ℕ) → z % c ≡ 0 → 72 ≤ c → (z ≡ 0) ⊎ (72 ≤ z)
multiple_or_zero z c h big = elim (zero_or_more (z / c)) [
  | inl e ↦ inl (omega (arith, div-add-mod' z c, ap (λ n. n * c) e))
  | inr p ↦ inr (omega (arith, div-add-mod' z c, one_step (z / c) c p))
]
  where
    zero_or_more : (n : ℕ) → (n ≡ 0) ⊎ (0 < n)
    zero_or_more n = omega arith
