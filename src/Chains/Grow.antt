-- ===== src/Chains/Grow.antt =====
-- A chain in a file as the list of its blocks: `blocks_extend_chain` and `chains_add_link` put a block
-- at its end.
use recnodb.Base.{
  ℕ, ◌+◌, ◌*◌, ◌/◌, ◌%◌, ◌^◌, ◌≤◌, ◌<◌, ◌≡◌, refl, ◌≢◌, ap, sym, ◌∙◌, ◌⊎◌, inl, inr, List, [], ◌∷◌,
  ◌++◌, arith,
}
use native.Mathlib.Nat.{div-add-mod'}
use mathlib.Core.Path.{subst}
use recnodb.Bytes.{Bytes, byte}
use recnodb.Types.{success, live}
use recnodb.Stdio.{World, Returns}
use recnodb.Stdio.Cases.{mono}
use recnodb.Stdio.Calm.{calm}
use recnodb.Blocks.Layout.{BlockLoc, BlockDef, block_type, next_offset, info_at, member}
use recnodb.Blocks.Validate.{head_size}
use recnodb.Blocks.Head.Fields.{member-Agree}
use recnodb.Blocks.Append.{extend_chain}
use recnodb.Blocks.Append.Block.{Ready}
use recnodb.Blocks.Append.NewHead.{IsPlain}
use recnodb.Blocks.Append.Chain.{extend_chain-links}
use recnodb.Chains.{add_link}
use recnodb.Chains.Link.{add_link-links}
use recnodb.Chains.Walk.{IsHead, Chain, end, link}
use recnodb.Chains.Last.{last_of, last_of-cons}

-- the blocks stand at multiples of the chunk size
abbrev pub Aligned : ℕ → List ℕ → Type 0
Aligned chunk [] = Unit {0}
Aligned chunk (p ∷ ps) = (p % chunk ≡ 0) × Aligned chunk ps

-- Two bytes arrays with the same chains but for the successor of the block at `z`.
record Relinked (f f' : Bytes) (z new : ℕ) : Type 0 where
  longer : f.size ≤ f'.size
  nonzero : new ≢ 0
  successor : member f' z next_offset ≡ new
  head : IsHead f' new
  last : member f' new next_offset ≡ 0
  others :
      (q : ℕ)
      → q + 32 ≤ f.size
      → (q + 32 ≤ z) ⊎ (z + 32 ≤ q)
      → member f' q next_offset ≡ member f q next_offset

mul_step : (a b c : ℕ) → a < b → a * c + c ≤ b * c
mul_step a b c h = grind arith

three_ways : (a b : ℕ) → (a < b) ⊎ ((b < a) ⊎ (a ≡ b))
three_ways a b = omega arith

-- different multiples of a chunk size are that far apart
multiples_apart : (a b c : ℕ) → a % c ≡ 0 → b % c ≡ 0 → a ≢ b → 32 ≤ c → (a + 32 ≤ b) ⊎ (b + 32 ≤ a)
multiples_apart a b c ha hb ne big =
    let ea = div-add-mod' a c in
    let eb = div-add-mod' b c in
    elim (three_ways (a / c) (b / c)) [
      | inl l ↦ inl (omega (arith, ea, eb, mul_step (a / c) (b / c) c l))
      | inr (inl g) ↦ inr (omega (arith, ea, eb, mul_step (b / c) (a / c) c g))
      | inr (inr e) ↦ absurd (ne (omega (arith, ea, eb, ap (λ x. x * c) e)))
    ]

pub last-free :
    {f : Bytes} {p : ℕ} {ps : List ℕ} → Chain f p ps → member f (last_of ps) next_offset ≡ 0
unfolding last_of
last-free (end h e) = e
last-free {f} (link {p} h e ne c) =
    ap (λ z. member f z next_offset) (last_of-cons f p c) ∙ last-free c

pub last-IsHead : {f : Bytes} {p : ℕ} {ps : List ℕ} → Chain f p ps → IsHead f (last_of ps)
unfolding last_of
last-IsHead (end h e) = h
last-IsHead {f} (link {p} h e ne c) = subst (IsHead f) (sym (last_of-cons f p c)) (last-IsHead c)

pub Aligned-last :
    {f : Bytes} {p : ℕ} {ps : List ℕ} (chunk : ℕ)
    → Chain f p ps
    → Aligned chunk ps
    → last_of ps % chunk ≡ 0
unfolding last_of
Aligned-last chunk (end h e) a = a.0
Aligned-last {f} chunk (link {p} h e ne c) a =
    ap (λ z. z % chunk) (last_of-cons f p c) ∙ Aligned-last chunk c a.1

-- The head of a link that is not the last stands clear of the last one.
clear_of_last :
    (f : Bytes) {p z : ℕ} (chunk : ℕ)
    → p % chunk ≡ 0
    → z % chunk ≡ 0
    → 32 ≤ chunk
    → member f p next_offset ≢ 0
    → member f z next_offset ≡ 0
    → (p + 32 ≤ z) ⊎ (z + 32 ≤ p)
clear_of_last f {p} {z} chunk ha hb big taken free =
    multiples_apart p z chunk ha hb (λ e. taken (ap (λ q. member f q next_offset) e ∙ free)) big

-- a head stays readable
pub IsHead-longer : {f f' : Bytes} {p : ℕ} → f.size ≤ f'.size → IsHead f p → IsHead f' p
IsHead-longer le h = record { positive = h.positive; inside = omega (arith, h.inside) }

-- The list of a chain gets the new successor at its end.
Chain-Relinked :
    (f f' : Bytes) (chunk z new : ℕ) {p : ℕ} {ps : List ℕ}
    → Relinked f f' z new
    → 32 ≤ chunk
    → Aligned chunk ps
    → last_of ps ≡ z
    → z % chunk ≡ 0
    → member f z next_offset ≡ 0
    → Chain f p ps
    → Chain f' p (ps ++ new ∷ [])
unfolding last_of
Chain-Relinked f f' chunk z new r big a e hz free (end {p} h _) =
    link {q = new} (IsHead-longer r.longer h) (ap (λ q. member f' q next_offset) e ∙ r.successor)
      r.nonzero (end r.head r.last)
Chain-Relinked f f' chunk z new r big a e hz free (link {p} {q} h n ne c) =
    link {q = q} (IsHead-longer r.longer h)
      (r.others p (omega (arith, h.inside))
          (clear_of_last f chunk a.0 hz big (λ t. ne (sym n ∙ t)) free)
        ∙ n)
      ne (Chain-Relinked f f' chunk z new r big a.1 (sym (last_of-cons f p c) ∙ e) hz free c)

-- The same file but for the head at `z`: the members elsewhere stay.
others_stay :
    (f f' : Bytes) (z : ℕ)
    → ((i : ℕ) → i < f.size → (i < z) ⊎ (z + 32 ≤ i) → byte f' i ≡ byte f i)
    → (q : ℕ) → q + 32 ≤ f.size
    → (q + 32 ≤ z) ⊎ (z + 32 ≤ q)
    → member f' q next_offset ≡ member f q next_offset
others_stay f f' z same q inside apart =
    member-Agree f' q f q 32 next_offset (omega arith)
      (λ i hi. same (q + i) (omega arith) (omega arith))

-- A chain of readable heads at multiples of a chunk size of 32 or more, seen as the list of its
-- blocks' offsets: in a run without faults, with a valid handle, positions in the range of
-- `off_t`, and the file's end at a multiple of the handle's chunk size, blocks_extend_chain at
-- the last block, whose head has 32 bytes, with a new block of 72 bytes or more that is neither a
-- table nor a file succeeds and puts the old end of the file at the end of the list.
pub extend_chain-Chain :
    (w : World) (d : BlockDef) (chunk : ℕ) {p : ℕ} {ps : List ℕ}
    → Ready w d
    → IsPlain d
    → 72 ≤ d.block_size
    → Chain w.file p ps
    → Aligned chunk ps
    → 32 ≤ chunk
    → head_size (member w.file (last_of ps) block_type) ≡ 32
    → Returns
        (λ (e, d') w'. (e ≡ success) × Chain w'.file p (ps ++ w.file.size ∷ []))
        (extend_chain (last_of ps) d (calm w))
unfolding info_at
extend_chain-Chain w d chunk {p} {ps} ready plain long c aligned big parent_plain =
    let h = last-IsHead c in
    let z = last_of ps in
    mono
      (extend_chain-links w d ready plain z (omega (arith, h.inside)) (omega (arith, h.inside))
        (last-free c) parent_plain (omega arith))
      λ r w' (e, _, size, old, new, same). (
        e,
        Chain-Relinked w.file w'.file chunk z w.file.size
            (record {
              longer = omega (arith, size);
              nonzero = omega (arith, h.inside);
              successor = ap (λ b. b.next_block.offset) old;
              head = record { positive = omega (arith, ready.room); inside = omega (arith, size) };
              last = ap (λ b. b.next_block.offset) new;
              others = others_stay w.file w'.file z same;
            })
            big aligned refl (Aligned-last chunk c aligned) (last-free c) c,
      )

-- A chain of readable heads at multiples of a chunk size of 32 or more, seen as the list of its
-- blocks' offsets: in a run without faults, with an open handle, chains_add_link at the last
-- block with the place of another block at such a multiple, not at 0, that has a readable head
-- and no successor, succeeds and puts that block's offset at the end of the list.
pub add_link-Chain :
    (w : World) (loc : BlockLoc) (chunk : ℕ) {p : ℕ} {ps : List ℕ}
    → w.handle.stream ≡ live
    → Chain w.file p ps
    → Aligned chunk ps
    → 32 ≤ chunk
    → IsHead w.file loc.offset
    → loc.offset % chunk ≡ 0
    → member w.file loc.offset next_offset ≡ 0
    → loc.offset ≢ 0
    → loc.offset ≢ last_of ps
    → loc.size < 2 ^ 64
    → Returns
        (λ e w'. (e ≡ success) × Chain w'.file p (ps ++ loc.offset ∷ []))
        (add_link (last_of ps) loc (calm w))
unfolding info_at
add_link-Chain w loc chunk {p} {ps} opened c aligned big head at free nonzero other narrow =
    let h = last-IsHead c in
    let z = last_of ps in
    let hz = Aligned-last chunk c aligned in
    mono
      (add_link-links w z loc h.positive (omega (arith, h.inside)) opened (last-free c)
        (omega (arith, head.positive)) narrow)
      λ e w' (ok, old, size, same). (
        ok,
        Chain-Relinked w.file w'.file chunk z loc.offset
            (record {
              longer = omega (arith, size);
              nonzero = nonzero;
              successor = ap (λ b. b.next_block.offset) old;
              head = IsHead-longer (omega (arith, size)) head;
              last =
                  others_stay w.file w'.file z same loc.offset (omega (arith, head.inside))
                    (multiples_apart loc.offset z chunk at hz other big)
                  ∙ free;
              others = others_stay w.file w'.file z same;
            })
            big aligned refl hz (last-free c) c,
      )
