-- ===== src/Blocks/Append/Link.antt =====
-- `blocks_update_link_with_child`: the successor of a block.
use recnodb.Base.{◌+◌, ◌^◌, ◌≤◌, ◌<◌, ◌≡◌, ◌∙◌, inr, arith}
use recnodb.Bytes.{Bytes}
use recnodb.Blocks.Layout.{
  BlockLoc, InfoBlock, Field, info_at, next_offset, next_size, member, with_member,
}
use recnodb.Blocks.Head.Fields.{size-with_member, member-with_member_self, member-with_member_other}
use recnodb.Blocks.Append.{update_link_with_child}

-- an INFO_BLOCK linked to `loc`
abbrev pub linked : InfoBlock → BlockLoc → InfoBlock
linked b loc = record b { next_block = loc }

-- `blocks_update_link_with_child` sets the successor and nothing else.
pub info_at-update_link :
    (ib : Bytes) (loc : BlockLoc)
    → 32 ≤ ib.size
    → loc.offset < 2 ^ 64
    → loc.size < 2 ^ 64
    → info_at (update_link_with_child ib loc) 0 ≡ linked (info_at ib 0) loc
unfolding info_at update_link_with_child
info_at-update_link ib loc h ho hs = λ i. record {
  block_type = same (record { at = 0; width = 2 }) (omega arith) i;
  bytes_to_data = same (record { at = 2; width = 2 }) (omega arith) i;
  block_size = same (record { at = 4; width = 4 }) (omega arith) i;
  first_recno = same (record { at = 8; width = 8 }) (omega arith) i;
  next_block = record {
    offset = offset i;
    size =
        member-with_member_self (with_member ib 0 next_offset loc.offset) 0 next_size loc.size hs i;
  };
}
  where
    one : Bytes
    one = with_member ib 0 next_offset loc.offset

    size-one : one.size ≡ ib.size
    size-one = size-with_member ib 0 next_offset loc.offset (omega arith)

    same :
        (f : Field)
        → f.at + f.width ≤ 16
        → member (with_member one 0 next_size loc.size) 0 f ≡ member ib 0 f
    same f k =
        member-with_member_other one 0 next_size loc.size f (inr (omega arith))
          (omega (arith, size-one))
        ∙ member-with_member_other ib 0 next_offset loc.offset f (inr (omega arith)) (omega arith)

    offset : member (with_member one 0 next_size loc.size) 0 next_offset ≡ loc.offset
    offset =
        member-with_member_other one 0 next_size loc.size next_offset (inr (omega arith))
          (omega (arith, size-one))
        ∙ member-with_member_self ib 0 next_offset loc.offset ho

pub size-update_link :
    (ib : Bytes) (loc : BlockLoc) → 32 ≤ ib.size → (update_link_with_child ib loc).size ≡ ib.size
unfolding update_link_with_child
size-update_link ib loc h =
    let e : (with_member ib 0 next_offset loc.offset).size ≡ ib.size =
      size-with_member ib 0 next_offset loc.offset (omega arith) in
    size-with_member (with_member ib 0 next_offset loc.offset) 0 next_size loc.size (omega arith)
    ∙ e
