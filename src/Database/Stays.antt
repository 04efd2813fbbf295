-- ===== src/Database/Stays.antt =====
-- A database stays one when its file gets longer, and when its last block gets a successor.
use recnodb.Base.{
  ℕ, ◌+◌, ◌%◌, ◌≤◌, ◌<◌, ◌≡◌, refl, ap, sym, ◌∙◌, ◌⊎◌, inl, inr, List, [], ◌∷◌, ◌++◌, arith,
}
use mathlib.Core.Path.{subst}
use recnodb.Bytes.{Bytes, byte, Agree}
use recnodb.Bytes.Laws.{Agree-inside}
use recnodb.Bytes.Numbers.{num-Agree}
use recnodb.Blocks.Layout.{
  BlockLoc, Field, InfoBlock, block_type, bytes_to_data, block_size, next_offset, magic, chunk_size,
  info_at, member,
}
use recnodb.Blocks.Head.Fields.{member-Agree}
use recnodb.Blocks.Append.Block.{aligned_sum}
use recnodb.Blocks.Append.Link.{linked}
use recnodb.Chains.Walk.{IsHead, Chain, end, link}
use recnodb.Chains.Last.{last_of}
use recnodb.Chains.Grow.{Aligned-last, IsHead-longer, last-IsHead}
use recnodb.Database.{IsDatabase, last_of-append, Aligned-append, multiple_or_zero}

-- a member of a head in the part that two files share
pub member-shared :
    (f f' : Bytes) (p : ℕ) (g : Field)
    → Agree f' 0 f 0 f.size
    → g.at + g.width ≤ 72
    → p + 72 ≤ f.size
    → member f' p g ≡ member f p g
member-shared f f' p g same h inside =
    member-Agree f' p f p 72 g h (Agree-inside f' f f.size 72 p same (omega arith))

pub Chain-longer :
    (f f' : Bytes) {p : ℕ} {ps : List ℕ}
    → Agree f' 0 f 0 f.size
    → f.size ≤ f'.size
    → Chain f p ps
    → Chain f' p ps
Chain-longer f f' same le (end {p} h e) =
    end (IsHead-longer le h) (member-shared f f' p next_offset same (omega arith) h.inside ∙ e)
Chain-longer f f' same le (link {p} h e ne c) =
    link (IsHead-longer le h) (member-shared f f' p next_offset same (omega arith) h.inside ∙ e) ne
      (Chain-longer f f' same le c)

pub first-IsHead : {f : Bytes} {ps : List ℕ} {p : ℕ} → Chain f p ps → IsHead f p
first-IsHead (end h e) = h
first-IsHead (link h e ne c) = h

-- More bytes at the end, in whole chunks.
pub IsDatabase-longer :
    (f f' : Bytes) (chunk n : ℕ) (ps : List ℕ)
    → IsDatabase f chunk ps
    → Agree f' 0 f 0 f.size
    → f'.size ≡ f.size + n
    → n % chunk ≡ 0
    → IsDatabase f' chunk ps
IsDatabase-longer f f' chunk n ps db same size whole =
    let first = first-IsHead db.chain in
    let last = last-IsHead db.chain in
    let at_last = member-shared f f' (last_of ps) bytes_to_data same (omega arith) last.inside in
    record {
      chain = Chain-longer f f' same (omega arith) db.chain;
      aligned = db.aligned;
      ends = rw size (aligned_sum f.size n chunk db.ends whole);
      roomy = db.roomy;
      long = omega (arith, at_last, db.long);
      short = omega (arith, at_last, db.short);
      type = rw (member-shared f f' 0 block_type same (omega arith) first.inside) db.type;
      data_at = rw (member-shared f f' 0 bytes_to_data same (omega arith) first.inside) db.data_at;
      block = rw (member-shared f f' 0 block_size same (omega arith) first.inside) db.block;
      signature = member-shared f f' 0 magic same (omega arith) first.inside ∙ db.signature;
      chunks = member-shared f f' 0 chunk_size same (omega arith) first.inside ∙ db.chunks;
    }

module _ (f f' : Bytes) (z : ℕ) (loc : BlockLoc) (size : f'.size ≡ f.size)
    (info : info_at f' z ≡ linked (info_at f z) loc)
    (same : (i : ℕ) → i < f.size → (i < z) ⊎ (z + 32 ≤ i) → byte f' i ≡ byte f i)
    (whole : 72 ≤ f.size) where
  clear :
      (p : ℕ) (g : Field)
      → p + 72 ≤ f.size
      → ((i : ℕ) → i < 72 → g.at ≤ i → (p + i < z) ⊎ (z + 32 ≤ p + i))
      → g.at + g.width ≤ 72
      → member f' p g ≡ member f p g
  clear p g inside away h =
      num-Agree f' (p + g.at) f (p + g.at) g.width
        λ i hi. same (p + g.at + i) (omega arith) (omega (arith, away (g.at + i)))

  -- the members behind INFO_BLOCK
  behind :
      (g : Field)
      → (z ≡ 0) ⊎ (72 ≤ z)
      → 32 ≤ g.at
      → g.at + g.width ≤ 72
      → member f' 0 g ≡ member f 0 g
  behind g (inl e) late h = clear 0 g whole (λ i hi after. inr (omega arith)) h
  behind g (inr far) late h = clear 0 g whole (λ i hi after. inl (omega arith)) h

  -- the members of INFO_BLOCK that a link leaves alone
  within :
      (g : Field) (get : InfoBlock → ℕ)
      → (z ≡ 0) ⊎ (72 ≤ z)
      → g.at + g.width ≤ 72
      → ((h : Bytes) → get (info_at h 0) ≡ member h 0 g)
      → ((b : InfoBlock) → get (linked b loc) ≡ get b)
      → member f' 0 g ≡ member f 0 g
  within g get (inl e) h is kept =
      let at_start : info_at f' 0 ≡ linked (info_at f 0) loc =
        subst (λ z. info_at f' z ≡ linked (info_at f z) loc) e info in
      sym (is f') ∙ (ap get at_start ∙ (kept (info_at f 0) ∙ is f))
  within g get (inr far) h is kept = clear 0 g whole (λ i hi after. inl (omega arith)) h

  -- The last block gets a successor that stands clear of it.
  pub IsDatabase-linked :
      (new : ℕ) {chunk : ℕ} {ps : List ℕ}
      → IsDatabase f chunk ps
      → last_of ps ≡ z
      → Chain f' 0 (ps ++ new ∷ [])
      → new % chunk ≡ 0
      → (new + 72 ≤ z) ⊎ (z + 32 ≤ new)
      → new + 72 ≤ f.size
      → 32 ≤ member f new bytes_to_data
      → member f new bytes_to_data ≤ 72
      → IsDatabase f' chunk (ps ++ new ∷ [])
  unfolding info_at
  IsDatabase-linked new {chunk} {ps} db is_last c multiple apart inside long short =
      let which : (z ≡ 0) ⊎ (72 ≤ z) =
        multiple_or_zero z chunk
          (ap (λ n. n % chunk) (sym is_last) ∙ Aligned-last chunk db.chain db.aligned) db.roomy in
      let new_data : member f' (last_of (ps ++ new ∷ [])) bytes_to_data
          ≡ member f new bytes_to_data =
        ap (λ p. member f' p bytes_to_data) (last_of-append ps new)
        ∙ clear new bytes_to_data inside (λ i hi after. omega arith) (omega arith) in
      record {
        chain = c;
        aligned = Aligned-append chunk ps new db.aligned multiple;
        ends = rw size db.ends;
        roomy = db.roomy;
        long = rw new_data long;
        short = rw new_data short;
        type =
            rw (within block_type (λ b. b.block_type) which (omega arith) (λ h. refl) (λ b. refl))
              db.type;
        data_at =
            rw
              (within bytes_to_data (λ b. b.bytes_to_data) which (omega arith) (λ h. refl)
                (λ b. refl))
              db.data_at;
        block =
            rw (within block_size (λ b. b.block_size) which (omega arith) (λ h. refl) (λ b. refl))
              db.block;
        signature = behind magic which (omega arith) (omega arith) ∙ db.signature;
        chunks = behind chunk_size which (omega arith) (omega arith) ∙ db.chunks;
      }
