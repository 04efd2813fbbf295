-- ===== src/Bytes/Laws.antt =====
-- What a read sees after a write.
use recnodb.Base.{
  ℕ, zero, suc, ◌+◌, ◌-◌, ◌%◌, ◌≤◌, ◌<◌, max, ◌≡◌, refl, ap, ap₂, ◌∙◌, ◌∷◌, ◌⊎◌, inl, inr, List,
  arith, length, get_or,
}
use recnodb.Bytes.{Bytes, byte, read, write, Agree}

pub byte-lt : (b : Bytes) (i : ℕ) → byte b i < 256
unfolding byte
byte-lt b i = omega arith

pub length-read : (b : Bytes) (p n : ℕ) → length (read b p n) ≡ n
unfolding read
length-read b p zero = refl
length-read b p (suc n) = ap suc (length-read b (p + 1) n)

pub get_or-read : (b : Bytes) (p n i : ℕ) → i < n → get_or (read b p n) i 0 ≡ byte b (p + i)
unfolding read
get_or-read b p zero i h = absurd (omega arith)
get_or-read b p (suc n) zero h = ap (byte b) (omega arith)
get_or-read b p (suc n) (suc i) h =
    get_or-read b (p + 1) n i (omega arith) ∙ ap (byte b) (omega arith)

pub size-write :
    (b : Bytes) (p : ℕ) (xs : List ℕ) → (write b p xs).size ≡ max b.size (p + length xs)
unfolding write
size-write b p xs = refl

pub byte-write_in :
    (b : Bytes) (p : ℕ) (xs : List ℕ) (i : ℕ)
    → i < length xs
    → byte (write b p xs) (p + i) ≡ get_or xs i 0 % 256
unfolding byte write
byte-write_in b p xs i h =
    let e : p + i - p ≡ i = omega arith in ground (arith, ap (λ j. get_or xs j 0) e)

pub byte-write_out :
    (b : Bytes) (p : ℕ) (xs : List ℕ) (i : ℕ)
    → i < b.size
    → (i < p) ⊎ (p + length xs ≤ i)
    → byte (write b p xs) i ≡ byte b i
unfolding byte write
byte-write_out b p xs i h out = ground arith

-- Two objects that have a byte in common still have it after the same store.
pub byte-write_both :
    (a b : Bytes) (p : ℕ) (xs : List ℕ) (i : ℕ)
    → i < a.size
    → i < b.size
    → byte a i ≡ byte b i
    → byte (write a p xs) i ≡ byte (write b p xs) i
unfolding byte write
byte-write_both a b p xs i ha hb h = ground arith

-- What agrees reads alike.
pub read-Agree :
    (a : Bytes) (p : ℕ) (b : Bytes) (q n : ℕ) → Agree a p b q n → read a p n ≡ read b q n
unfolding read
read-Agree a p b q zero same = refl
read-Agree a p b q (suc n) same =
    ap₂ (λ x xs. x ∷ xs)
      (ap (byte a) (omega arith) ∙ (same 0 (omega arith) ∙ ap (byte b) (omega arith)))
      (read-Agree a (p + 1) b (q + 1) n (λ i hi.
        ap (byte a) (omega arith) ∙ (same (i + 1) (omega arith) ∙ ap (byte b) (omega arith))))

-- A copy of `n` bytes agrees with its source, and with what stood outside it.
pub Agree-copy : (b : Bytes) (p : ℕ) (s : Bytes) (q n : ℕ) → Agree (write b p (read s q n)) p s q n
Agree-copy b p s q n i h =
    byte-write_in b p (read s q n) i (omega (arith, length-read s q n))
    ∙ (ap (λ x. x % 256) (get_or-read s q n i h) ∙ omega (arith, byte-lt s (q + i)))

pub Agree-write_before :
    (b : Bytes) (p : ℕ) (xs : List ℕ) (q n : ℕ)
    → q + n ≤ p
    → q + n ≤ b.size
    → Agree (write b p xs) q b q n
Agree-write_before b p xs q n h s i hi =
    byte-write_out b p xs (q + i) (omega arith) (inl (omega arith))

pub Agree-write_after :
    (b : Bytes) (p : ℕ) (xs : List ℕ) (q n : ℕ)
    → p + length xs ≤ q
    → q + n ≤ b.size
    → Agree (write b p xs) q b q n
Agree-write_after b p xs q n h s i hi =
    byte-write_out b p xs (q + i) (omega arith) (inr (omega arith))

pub Agree-trans :
    (a b c : Bytes) (p q r n : ℕ) → Agree a p b q n → Agree b q c r n → Agree a p c r n
Agree-trans a b c p q r n f g i h = f i h ∙ g i h

pub Agree-inside : (a b : Bytes) (n m k : ℕ) → Agree a 0 b 0 n → k + m ≤ n → Agree a k b k m
Agree-inside a b n m k same h i hi =
    ap (byte a) (omega arith) ∙ (same (k + i) (omega arith) ∙ ap (byte b) (omega arith))

pub Agree-byte : (a b : Bytes) (n i : ℕ) → Agree a 0 b 0 n → i < n → byte a i ≡ byte b i
Agree-byte a b n i same h = ap (byte a) (omega arith) ∙ (same i h ∙ ap (byte b) (omega arith))
