-- ===== src/Bytes/Numbers.antt =====
-- Integers in little-endian order: their range, their round trip, and what they depend on.
use recnodb.Base.{
  ℕ, zero, suc, ◌+◌, ◌*◌, ◌/◌, ◌%◌, ◌^◌, ◌≤◌, ◌<◌, ◌≡◌, refl, ap, ap₂, ◌∙◌, arith, length, get_or,
}
use native.Mathlib.Nat.{pow-suc}
use recnodb.Bytes.{Bytes, byte, num, write, little_endian, Agree}
use recnodb.Bytes.Laws.{byte-lt, byte-write_in}

pub length-little_endian : (k x : ℕ) → length (little_endian k x) ≡ k
unfolding little_endian
length-little_endian zero x = refl
length-little_endian (suc k) x = ap suc (length-little_endian k (x / 256))

pub num-lt : (b : Bytes) (p k : ℕ) → num b p k < 256 ^ k
unfolding num
num-lt b p zero = omega arith
num-lt b p (suc k) = omega (arith, byte-lt b p, num-lt b (p + 1) k, pow-suc 256 k)

pub num-Agree : (a : Bytes) (p : ℕ) (b : Bytes) (q k : ℕ) → Agree a p b q k → num a p k ≡ num b q k
unfolding num
num-Agree a p b q zero h = refl
num-Agree a p b q (suc k) h =
    ap₂ (λ x y. x + 256 * y)
      (ap (byte a) (omega arith) ∙ (h 0 (omega arith) ∙ ap (byte b) (omega arith)))
      (num-Agree a (p + 1) b (q + 1) k
        (λ i hi. ap (byte a) (omega arith) ∙ (h (i + 1) (omega arith) ∙ ap (byte b) (omega arith))))

pub num-zeros : (b : Bytes) (p k : ℕ) → ((i : ℕ) → p ≤ i → i < p + k → byte b i ≡ 0) → num b p k ≡ 0
unfolding num
num-zeros b p zero h = refl
num-zeros b p (suc k) h = omega (
  arith,
  h p (omega arith) (omega arith),
  num-zeros b (p + 1) k (λ i low high. h i (omega arith) (omega arith)),
)

num_of_digits :
    (b : Bytes) (p k x : ℕ)
    → x < 256 ^ k
    → ((i : ℕ) → i < k → byte b (p + i) ≡ get_or (little_endian k x) i 0 % 256)
    → num b p k ≡ x
unfolding num little_endian
num_of_digits b p zero x h d = omega arith
num_of_digits b p (suc k) x h d =
    let first : byte b p ≡ x % 256 % 256 = ap (byte b) (omega arith) ∙ d 0 (omega arith) in
    omega (
      arith,
      first,
      num_of_digits b (p + 1) k (x / 256) (omega (arith, pow-suc 256 k))
          (λ i hi. ap (byte b) (omega arith) ∙ d (suc i) (omega arith)),
    )

-- An integer that is stored reads back, if it fits its bytes.
pub num-write : (b : Bytes) (p k x : ℕ) → x < 256 ^ k → num (write b p (little_endian k x)) p k ≡ x
num-write b p k x h =
    num_of_digits (write b p (little_endian k x)) p k x h
      (λ i hi. byte-write_in b p (little_endian k x) i (omega (arith, length-little_endian k x)))
