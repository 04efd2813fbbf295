-- ===== src/Programs/BlockTests/Main.antt =====
-- `main` of src/test_blocks.c, in a run without faults.
use recnodb.Base.{
  ℕ, ◌+◌, ◌%◌, ◌≤◌, ◌<◌, ◌≡◌, refl, ◌≢◌, ap, sym, ◌∙◌, Bool, true, false, Option, List, [], ◌∷◌,
  ◌++◌, arith, length,
}
use mathlib.Core.Path.{subst}
use recnodb.Bytes.{Bytes, zeros}
use recnodb.Stdio.{World, Cmd, Returns, returns, off_limit}
use recnodb.Stdio.Cases.{bind, mono}
use recnodb.Stdio.Calm.{calm, IsCalm}
use recnodb.Blocks.Layout.{
  rbt_file, block_type, bytes_to_data, block_size, next_offset, magic, chunk_size, member,
}
use recnodb.Blocks.Head.Fields.{member-copy}
use recnodb.Blocks.Head.File.{IsFileHead}
use recnodb.Blocks.Append.FileBlock.{head_at}
use recnodb.Blocks.Open.Load.{file_open-loaded}
use recnodb.Blocks.Open.Use.{file_close-closes}
use recnodb.Chains.{LastLink}
use recnodb.Chains.Walk.{end, walk-rounds, rounds-visits}
use recnodb.Chains.Last.{last_of}
use recnodb.Api.{get_blocksize}
use recnodb.Database.{IsDatabase, loads, at_head}
use recnodb.Database.Stays.{first-IsHead}
use recnodb.Programs.{and_also}
use recnodb.Programs.BlockTests.{
  test_basic_block, test_generic_block, on_file, test_newfile_block, test_blocks_file_open,
  test_blocks_file_use, simple_file_user, add_block_file_user, walk_block_user,
  walk_block_user_callback, reuse_tests, main,
}
use recnodb.Programs.BlockTests.NewFile.{
  test_newfile_block-creates, test_generic_block-succeeds, test_basic_block-succeeds,
}
use recnodb.Programs.BlockTests.Growth.{test_blocks_file_use-runs}
use recnodb.Programs.BlockTests.Uses.{also, use-adds}

-- a new file is a database of one block
new-IsDatabase :
    (f : Bytes)
    → f.size ≡ 4096
    → IsFileHead rbt_file 4096 4096 49 (head_at f 0)
    → IsDatabase f 4096 (0 ∷ [])
unfolding last_of
new-IsDatabase f size h =
    let at_data : member f 0 bytes_to_data ≡ 72 =
      sym (member-copy (zeros 72) 0 f 0 72 bytes_to_data (omega arith)) ∙ h.data_at in
    let at_type : member f 0 block_type ≡ 4 =
      sym (member-copy (zeros 72) 0 f 0 72 block_type (omega arith)) ∙ h.type in
    let at_size : member f 0 block_size ≡ 4096 =
      sym (member-copy (zeros 72) 0 f 0 72 block_size (omega arith)) ∙ h.block in
    record {
      chain =
          end (record { positive = omega arith; inside = omega arith })
            (sym (member-copy (zeros 72) 0 f 0 72 next_offset (omega arith)) ∙ h.next);
      aligned = (refl, tt);
      ends = ap (λ n. n % 4096) size;
      roomy = omega arith;
      long = omega arith;
      short = omega arith;
      type = omega arith;
      data_at = omega arith;
      block = omega arith;
      signature = sym (member-copy (zeros 72) 0 f 0 72 magic (omega arith)) ∙ h.signature;
      chunks = sym (member-copy (zeros 72) 0 f 0 72 chunk_size (omega arith)) ∙ h.chunk_size;
    }

-- the file of the tests, with its blocks and its size
abbrev pub Has : List ℕ → ℕ → Bytes → Type 0
Has ps size f = IsDatabase f 4096 ps × (f.size ≡ size)

opens :
    (w : World) (ps : List ℕ) (size : ℕ)
    → Has ps size w.file
    → Returns
        (λ b w'. (b ≡ true) × Has ps size w'.file × IsCalm w')
        (test_blocks_file_open (calm w))
unfolding test_blocks_file_open
opens w ps size (db, s) =
    let h = first-IsHead db.chain in
    rw (file_open-loaded false 0 0 w h.inside (loads db)) (
      bind (file_close-closes (calm (at_head w)) refl)
        λ _ w' (file, _, same, _). returns (refl, subst (Has ps size) (sym file) (db, s), same))

is_used :
    (w : World) (ps : List ℕ) (size : ℕ)
    → Has ps size w.file
    → Returns
        (λ b w'. (b ≡ true) × Has ps size w'.file × IsCalm w')
        (test_blocks_file_use simple_file_user (calm w))
is_used w ps size (db, s) =
    mono
      (test_blocks_file_use-runs (Has ps size) simple_file_user w db
        (returns ((db, s), refl, refl)))
      λ b w' (t, has, _, quiet). (t, has, quiet)

module _ (fuel : ℕ) (enough : 5 ≤ fuel) (ifile : LastLink) (space : 72 ≤ ifile.ib.size) where
  adds :
      (w : World) (ps : List ℕ) (size : ℕ)
      → Has ps size w.file
      → size + 4096 < off_limit
      → length ps ≤ 5
      → Returns
          (λ b w'. (b ≡ true) × Has (ps ++ size ∷ []) (size + 4096) w'.file × IsCalm w')
          (test_blocks_file_use (add_block_file_user fuel ifile) (calm w))
  adds w ps size (db, s) room few =
      mono (use-adds fuel ifile space 4096 refl w ps db (omega arith) (omega arith))
        λ b w' (t, (db', s'), _, quiet).
          (t, (subst (λ n. IsDatabase w'.file 4096 (ps ++ n ∷ [])) s db', omega arith), quiet)

  is_walked :
      (w : World) (ps : List ℕ) (size : ℕ)
      → Has ps size w.file
      → length ps ≤ 5
      → Returns
          (λ b w'. (b ≡ true) × Has ps size w'.file × IsCalm w')
          (test_blocks_file_use (walk_block_user fuel) (calm w))
  unfolding walk_block_user
  is_walked w ps size (db, s) few =
      mono
        (test_blocks_file_use-runs (Has ps size) (walk_block_user fuel) w db (
          rw (walk-rounds walk_block_user_callback fuel 0 tt (calm (at_head w)) refl) (
            bind (rounds-visits (λ ib o s. (true, s)) fuel (at_head w) tt db.chain (omega arith))
              λ r w1 (_, _, file, handle, quiet, _).
                returns
                  (subst (Has ps size) (sym file) (db, s), ap (λ h. h.stream) handle, quiet))))
        λ b w' (t, has, _, quiet). (t, has, quiet)

  -- the tests on the file that is used again
  module _ (stat : Option ℕ) (known : get_blocksize stat ≢ 0) where
    -- what the last one leaves
    abbrev pub Grown : Bool → World → Type 0
    Grown b w = (b ≡ true) × Has (0 ∷ 4096 ∷ 8192 ∷ 12288 ∷ 16384 ∷ []) 20480 w.file

    -- a use that adds a block, and then the rest
    then_add :
        {P : Bool → World → Type 0} (ps : List ℕ) (size : ℕ) (rest : Cmd Bool) (w : World)
        → Has ps size w.file
        → size + 4096 < off_limit
        → length ps ≤ 5
        → ((w' : World) → Has (ps ++ size ∷ []) (size + 4096) w'.file → Returns P (rest (calm w')))
        → Returns P (and_also (test_blocks_file_use (add_block_file_user fuel ifile)) rest (calm w))
    then_add ps size rest w has room few next =
        also (λ w'. Has (ps ++ size ∷ []) (size + 4096) w'.file)
          (test_blocks_file_use (add_block_file_user fuel ifile)) rest (adds w ps size has room few)
          next

    reuse_tests-grows : (w : World) → Returns Grown (reuse_tests stat fuel ifile (calm w))
    unfolding reuse_tests
    reuse_tests-grows w =
        also (λ w'. Has (0 ∷ []) 4096 w'.file) (test_newfile_block stat) _
          (mono (test_newfile_block-creates stat known w)
            λ b w1 (t, size, head, quiet). (t, (new-IsDatabase w1.file size head, size), quiet))
          λ w1 h1.
            also (λ w'. Has (0 ∷ []) 4096 w'.file) test_blocks_file_open _
              (opens w1 (0 ∷ []) 4096 h1)
              λ w2 h2.
                also (λ w'. Has (0 ∷ []) 4096 w'.file) (test_blocks_file_use simple_file_user) _
                  (is_used w2 (0 ∷ []) 4096 h2)
                  λ w3 h3. then_add (0 ∷ []) 4096 _ w3 h3 (omega arith) (omega arith) λ w4 h4.
                    then_add (0 ∷ 4096 ∷ []) 8192 _ w4 h4 (omega arith) (omega arith) λ w5 h5.
                      then_add (0 ∷ 4096 ∷ 8192 ∷ []) 12288 _ w5 h5 (omega arith) (omega arith)
                        λ w6 h6.
                          then_add (0 ∷ 4096 ∷ 8192 ∷ 12288 ∷ []) 16384 _ w6 h6 (omega arith)
                            (omega arith)
                            λ w7 h7.
                              mono
                                (is_walked w7 (0 ∷ 4096 ∷ 8192 ∷ 12288 ∷ 16384 ∷ []) 20480 h7
                                  (omega arith))
                                λ b w' (t, has, _). (t, has)

    all_tests-grow :
        (f2 f3 : Bytes) (w : World)
        → Returns Grown (
            and_also
              (test_basic_block stat 4096)
              (and_also
                (on_file f2 (test_generic_block stat))
                (on_file f3 (reuse_tests stat fuel ifile)))
              (calm w))
    all_tests-grow f2 f3 w =
        also (λ _. Unit {0}) (test_basic_block stat 4096) _
          (mono (test_basic_block-succeeds stat known w) λ b w' (t, quiet). (t, tt, quiet))
          λ w1 _.
            also (λ _. Unit {0}) (on_file f2 (test_generic_block stat)) _ {w = calm w1}
              (mono (test_generic_block-succeeds stat known (record w1 { file = f2 }))
                λ b w' (t, quiet). (t, tt, quiet))
              λ w2 _. reuse_tests-grows (record w2 { file = f3 })

    -- The program src/test_blocks.c as a whole, in a run without faults, with a block size from
    -- `stat` that is not zero, objects of 72 bytes for the last link, and 5 rounds or more for a
    -- walk: whatever its three files held, it ends with 1, and the file that is used again is a
    -- database of 20480 bytes with chunk size 4096, whose chain has its five blocks at 0, 4096,
    -- 8192, 12288 and 16384.
    pub main-grows :
        (f2 f3 : Bytes) (w : World)
        → Returns
            (λ n w'. (n ≡ 1) × Has (0 ∷ 4096 ∷ 8192 ∷ 12288 ∷ 16384 ∷ []) 20480 w'.file)
            (main stat fuel ifile f2 f3 (calm w))
    unfolding main
    main-grows f2 f3 w = bind (all_tests-grow f2 f3 w) λ b w' (t, has). rw t (returns (refl, has))
