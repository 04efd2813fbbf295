-- ===== src/Blocks/Head/Fields.antt =====
-- Members of structs: what a store to one leaves of the others, and struct values as a whole.
use recnodb.Base.{ℕ, ◌+◌, ◌^◌, ◌≤◌, ◌<◌, ◌≡◌, ap, ◌∙◌, ◌⊎◌, inl, inr, max, arith, le→leb, length}
use recnodb.Bytes.{Bytes, byte, read, write, little_endian, Agree}
use recnodb.Bytes.Laws.{size-write, byte-write_out, Agree-copy, length-read}
use recnodb.Bytes.Numbers.{num-Agree, num-write, length-little_endian}
use recnodb.Stdio.{World, ok}
use recnodb.Blocks.Layout.{Field, info_at, member, with_member}
use recnodb.Blocks.Head.{put}

-- Two members do not overlap.
abbrev pub Apart : Field → Field → Type 0
Apart f g = (f.at + f.width ≤ g.at) ⊎ (g.at + g.width ≤ f.at)

module _ (b : Bytes) (p : ℕ) (f : Field) (x : ℕ) where
  pub size-with_member : p + f.at + f.width ≤ b.size → (with_member b p f x).size ≡ b.size
  size-with_member h =
      omega
        (arith, size-write b (p + f.at) (little_endian f.width x), length-little_endian f.width x)

  pub member-with_member_self : x < 256 ^ f.width → member (with_member b p f x) p f ≡ x
  member-with_member_self h = num-write b (p + f.at) f.width x h

  pub member-with_member_other :
      (g : Field)
      → Apart f g
      → p + g.at + g.width ≤ b.size
      → member (with_member b p f x) p g ≡ member b p g
  member-with_member_other g apart h =
      num-Agree (with_member b p f x) (p + g.at) b (p + g.at) g.width λ i hi.
        byte-write_out b (p + f.at) (little_endian f.width x) (p + g.at + i) (omega arith)
          (away apart (omega (arith, length-little_endian f.width x)) hi)
    where
      away :
          {i : ℕ}
          → Apart f g
          → length (little_endian f.width x) ≡ f.width
          → i < g.width
          → (p + g.at + i < p + f.at) ⊎ (p + f.at + length (little_endian f.width x) ≤ p + g.at + i)
      away (inl before) e hi = inr (omega arith)
      away (inr after) e hi = inl (omega arith)

-- a store of a member that lies within the object
pub put-ok :
    (f : Field) (x : ℕ) (b : Bytes) (w : World)
    → f.at + f.width ≤ b.size
    → put f x b w ≡ ok (with_member b 0 f x) w
unfolding put
put-ok f x b w h = rw (le→leb _ _ h)

-- A member depends on its own bytes only.
pub member-Agree :
    (a : Bytes) (p : ℕ) (b : Bytes) (q n : ℕ) (f : Field)
    → f.at + f.width ≤ n
    → Agree a p b q n
    → member a p f ≡ member b q f
member-Agree a p b q n f h same =
    num-Agree a (p + f.at) b (q + f.at) f.width λ i hi.
      ap (byte a) (omega arith) ∙ (same (f.at + i) (omega arith) ∙ ap (byte b) (omega arith))

pub info_at-Agree :
    (a : Bytes) (p : ℕ) (b : Bytes) (q : ℕ) → Agree a p b q 32 → info_at a p ≡ info_at b q
unfolding info_at
info_at-Agree a p b q same = λ i. record {
  block_type = eq (record { at = 0; width = 2 }) (omega arith) i;
  bytes_to_data = eq (record { at = 2; width = 2 }) (omega arith) i;
  block_size = eq (record { at = 4; width = 4 }) (omega arith) i;
  first_recno = eq (record { at = 8; width = 8 }) (omega arith) i;
  next_block = record {
    offset = eq (record { at = 16; width = 8 }) (omega arith) i;
    size = eq (record { at = 24; width = 8 }) (omega arith) i;
  };
}
  where
    eq : (f : Field) → f.at + f.width ≤ 32 → member a p f ≡ member b q f
    eq f h = member-Agree a p b q 32 f h same

-- A struct that is copied keeps its members.
pub member-copy :
    (b : Bytes) (p : ℕ) (s : Bytes) (q n : ℕ) (f : Field)
    → f.at + f.width ≤ n
    → member (write b p (read s q n)) p f ≡ member s q f
member-copy b p s q n f h = member-Agree (write b p (read s q n)) p s q n f h (Agree-copy b p s q n)

pub info_at-copy :
    (b : Bytes) (p : ℕ) (s : Bytes) (q n : ℕ)
    → 32 ≤ n
    → info_at (write b p (read s q n)) p ≡ info_at s q
info_at-copy b p s q n h =
    info_at-Agree (write b p (read s q n)) p s q λ i hi. Agree-copy b p s q n i (omega arith)

pub size-copy :
    (b : Bytes) (p : ℕ) (s : Bytes) (q n : ℕ) → (write b p (read s q n)).size ≡ max b.size (p + n)
size-copy b p s q n = omega (arith, size-write b p (read s q n), length-read s q n)
