-- ===== src/Blocks/Head/Prepare.antt =====
-- What `blocks_set_info_block` and `blocks_prep_head_file` put into a header.
use recnodb.Base.{
  ℕ, zero, suc, ◌+◌, ◌%◌, ◌^◌, ◌≤◌, ◌<◌, ◌≡◌, ◌≢◌, refl, ◌∙◌, inl, inr, arith, le→leb, ne→==,
}
use recnodb.Bytes.{Bytes, byte, num, zeros, read, write}
use recnodb.Stdio.{World, ok}
use recnodb.Blocks.Layout.{
  Field, block_type, bytes_to_data, block_size, rbt_table, rbt_file, info_at, member, with_member,
}
use recnodb.Blocks.Validate.{head_size}
use recnodb.Blocks.Head.{set_info_block, set_table_members}
use recnodb.Blocks.Head.Fields.{
  put-ok, size-with_member, member-with_member_self, member-with_member_other, member-copy,
  size-copy,
}

num-zeros : (n p k : ℕ) → num (zeros n) p k ≡ 0
unfolding num byte
num-zeros n p zero = refl
num-zeros n p (suc k) = omega (arith, num-zeros n (p + 1) k)

-- the object after `memset`
abbrev pub cleared : Bytes → ℕ → Bytes
cleared ib n = write ib 0 (read (zeros n) 0 n)

-- the object with one, two and all three of the members that every header has
abbrev pub base_type : Bytes → ℕ → ℕ → Bytes
base_type ib n type = with_member (cleared ib n) 0 block_type type

abbrev pub base_data : Bytes → ℕ → ℕ → ℕ → Bytes
base_data ib n own type = with_member (base_type ib n type) 0 bytes_to_data own

abbrev pub base_head : Bytes → ℕ → ℕ → ℕ → ℕ → Bytes
base_head ib n own type size = with_member (base_data ib n own type) 0 block_size size

pub head_size-other : (t : ℕ) → t ≢ rbt_table → t ≢ rbt_file → head_size t ≡ 32
unfolding head_size
head_size-other t h k = rw (ne→== t 3 h, ne→== t 4 k)

module _ (ib : Bytes) (n : ℕ) (fits : n ≤ ib.size) (room : 32 ≤ n) where
  size-cleared : (cleared ib n).size ≡ ib.size
  size-cleared = omega (arith, size-copy ib 0 (zeros n) 0 n)

  member-cleared : (f : Field) → f.at + f.width ≤ n → member (cleared ib n) 0 f ≡ 0
  member-cleared f h = member-copy ib 0 (zeros n) 0 n f h ∙ num-zeros n (0 + f.at) f.width

  module _ (own type size : ℕ) where
    size-base_type : (base_type ib n type).size ≡ ib.size
    size-base_type =
        size-with_member (cleared ib n) 0 block_type type (omega (arith, size-cleared))
        ∙ size-cleared

    size-base_data : (base_data ib n own type).size ≡ ib.size
    size-base_data =
        size-with_member (base_type ib n type) 0 bytes_to_data own (omega (arith, size-base_type))
        ∙ size-base_type

    pub size-base_head : (base_head ib n own type size).size ≡ ib.size
    size-base_head =
        size-with_member (base_data ib n own type) 0 block_size size (omega (arith, size-base_data))
        ∙ size-base_data

    -- the common part of blocks_set_info_block
    pub set_info_block-base :
        (rec chunk : ℕ) (w : World)
        → head_size (type % 2 ^ 16) ≡ own
        → own ≤ n
        → set_info_block ib n type size rec chunk w
          ≡ set_table_members own rec chunk (base_head ib n own type size) w
    unfolding set_info_block
    set_info_block-base rec chunk w e h = rw (
      le→leb n ib.size fits,
      e,
      le→leb own n h,
      put-ok block_type type (cleared ib n) w (omega (arith, size-cleared)),
      put-ok bytes_to_data own (base_type ib n type) w (omega (arith, size-base_type)),
      put-ok block_size size (base_data ib n own type) w (omega (arith, size-base_data)),
    )

    -- what lies behind the three members is zero
    pub member-base_head :
        (f : Field) → 8 ≤ f.at → f.at + f.width ≤ n → member (base_head ib n own type size) 0 f ≡ 0
    member-base_head f after h =
        member-with_member_other (base_data ib n own type) 0 block_size size f (inl (omega arith))
          (omega (arith, size-base_data))
        ∙ (member-with_member_other (base_type ib n type) 0 bytes_to_data own f (inl (omega arith))
              (omega (arith, size-base_type))
            ∙ (member-with_member_other (cleared ib n) 0 block_type type f (inl (omega arith))
                  (omega (arith, size-cleared))
                ∙ member-cleared f h))

    pub block_type-base_head :
        type < 2 ^ 16 → member (base_head ib n own type size) 0 block_type ≡ type
    block_type-base_head h =
        member-with_member_other (base_data ib n own type) 0 block_size size block_type
          (inr (omega arith)) (omega (arith, size-base_data))
        ∙ (member-with_member_other (base_type ib n type) 0 bytes_to_data own block_type
              (inr (omega arith)) (omega (arith, size-base_type))
            ∙ member-with_member_self (cleared ib n) 0 block_type type h)

    bytes_to_data-base_head :
        own < 2 ^ 16 → member (base_head ib n own type size) 0 bytes_to_data ≡ own
    bytes_to_data-base_head h =
        member-with_member_other (base_data ib n own type) 0 block_size size bytes_to_data
          (inr (omega arith)) (omega (arith, size-base_data))
        ∙ member-with_member_self (base_type ib n type) 0 bytes_to_data own h

    -- the head as values
    pub info_at-base_head :
        type < 2 ^ 16
        → own < 2 ^ 16
        → size < 2 ^ 32
        → info_at (base_head ib n own type size) 0 ≡ record {
          block_type = type;
          bytes_to_data = own;
          block_size = size;
          first_recno = 0;
          next_block = record { offset = 0; size = 0 };
        }
    unfolding info_at
    info_at-base_head ht ho hs = λ i. record {
      block_type = block_type-base_head ht i;
      bytes_to_data = bytes_to_data-base_head ho i;
      block_size = member-with_member_self (base_data ib n own type) 0 block_size size hs i;
      first_recno = member-base_head (record { at = 8; width = 8 }) (omega arith) (omega arith) i;
      next_block = record {
        offset = member-base_head (record { at = 16; width = 8 }) (omega arith) (omega arith) i;
        size = member-base_head (record { at = 24; width = 8 }) (omega arith) (omega arith) i;
      };
    }

-- A block that is neither a table nor a file: its whole head.
pub set_info_block-plain :
    (ib : Bytes) (n type size rec chunk : ℕ) (w : World)
    → n ≤ ib.size
    → 32 ≤ n
    → type % 2 ^ 16 ≢ rbt_table
    → type % 2 ^ 16 ≢ rbt_file
    → set_info_block ib n type size rec chunk w ≡ ok (base_head ib n 32 type size) w
unfolding set_table_members
set_info_block-plain ib n type size rec chunk w fits room h k =
    set_info_block-base ib n fits room 32 type size rec chunk w (head_size-other _ h k) room
