-- ===== src/Bytes.antt =====
-- Byte arrays: what a file holds, and what a C object or buffer holds. The structs of blocks.h are
-- read and written as bytes, in the little-endian layout of the `-m64` target of the Makefile.
pub mod Laws
pub mod Numbers
use recnodb.Base.{
  ℕ, zero, suc, ◌+◌, ◌-◌, ◌*◌, ◌/◌, ◌%◌, ◌<◌, ◌≡◌, max, ◌&&◌, List, [], ◌∷◌, ltb, leb,
  if◌then◌else◌, length, get_or,
}

-- A cell counts modulo 256, as a store into a `char` does.
pub record Bytes : Type 0 where
  pub cell : ℕ → ℕ
  pub size : ℕ

-- `memset(_, 0, n)` on an object of `n` bytes
abbrev pub zeros : ℕ → Bytes
zeros n = record { cell = λ _. 0; size = n }

unfoldable pub byte : Bytes → ℕ → ℕ
byte b i = b.cell i % 256

-- the `n` bytes from position `p` on
unfoldable pub read : Bytes → ℕ → ℕ → List ℕ
unfolding byte
read b p zero = []
read b p (suc n) = byte b p ∷ read b (p + 1) n

-- Stores `xs` from position `p` on. A gap that this leaves behind the old end reads as zero.
unfoldable pub write : Bytes → ℕ → List ℕ → Bytes
write b p xs = record {
  cell = λ i.
      if leb p i && ltb i (p + length xs)
      then get_or xs (i - p) 0
      else if ltb i b.size
      then b.cell i
      else 0;
  size = max b.size (p + length xs);
}

-- the unsigned integer of `k` bytes at position `p`
unfoldable pub num : Bytes → ℕ → ℕ → ℕ
unfolding byte
num b p zero = 0
num b p (suc k) = byte b p + 256 * num b (p + 1) k

-- the `k` bytes of an unsigned integer
unfoldable pub little_endian : ℕ → ℕ → List ℕ
little_endian zero x = []
little_endian (suc k) x = x % 256 ∷ little_endian k (x / 256)

-- the bytes of `a` from `p` on are those of `b` from `q` on, for `n` bytes
abbrev pub Agree : Bytes → ℕ → Bytes → ℕ → ℕ → Type 0
Agree a p b q n = (i : ℕ) → i < n → byte a (p + i) ≡ byte b (q + i)
