-- ===== src/Programs/BlockTests/Uses.antt =====
-- src/test_blocks.c as a whole, in a run without faults: each use adds a block to the chain.
use recnodb.Base.{
  ℕ, zero, suc, ◌+◌, ◌*◌, ◌%◌, ◌≤◌, ◌<◌, ◌≡◌, refl, ap, sym, ◌∙◌, Bool, true, List, [], ◌∷◌, ◌++◌,
  arith, length, length-append,
}
use mathlib.Core.Path.{subst}
use mathlib.Core.List.{append_assoc, append-nil}
use recnodb.Types.{null}
use recnodb.Bytes.{Bytes}
use recnodb.Stdio.{World, Cmd, Returns, returns, off_limit, pure}
use recnodb.Stdio.Cases.{bind, mono}
use recnodb.Stdio.Calm.{calm, IsCalm, IsCalm-calm}
use recnodb.Chains.{LastLink}
use recnodb.Database.{IsDatabase, at_head, at_head-IsValid, chunk_of-at_head}
use recnodb.Programs.{and_also}
use recnodb.Programs.BlockTests.{add_block_file_user, test_blocks_file_use}
use recnodb.Programs.BlockTests.Growth.{add_block_file_user-adds, test_blocks_file_use-runs}

-- A test that succeeds is followed by the rest.
pub also :
    {P : Bool → World → Type 0} (Q : World → Type 0) (m rest : Cmd Bool) {w : World}
    → Returns (λ b w'. (b ≡ true) × Q w' × IsCalm w') (m w)
    → ((w' : World) → Q w' → Returns P (rest (calm w')))
    → Returns P (and_also m rest w)
also {P} Q m rest run next = bind run λ b w' (t, q, quiet).
    rw t (subst (λ u. Returns P (rest u)) (sym (IsCalm-calm quiet)) (next w' q))

-- What a file is after a block has been added to the end of its `ps`.
abbrev pub Added : ℕ → List ℕ → ℕ → Bytes → Type 0
Added chunk ps size f = IsDatabase f chunk (ps ++ size ∷ []) × (f.size ≡ size + 4096)

-- `n` uses in a row that add a block
abbrev pub uses : ℕ → LastLink → ℕ → Cmd Bool
uses fuel ifile zero = pure true
uses fuel ifile (suc n) =
    let rest = uses fuel ifile n in
    and_also (test_blocks_file_use (add_block_file_user fuel ifile)) rest

-- where they put the blocks of a file of `size` bytes
abbrev pub added : ℕ → ℕ → List ℕ
added zero size = []
added (suc n) size = size ∷ added n (size + 4096)

module _ (fuel : ℕ) (ifile : LastLink) (space : 72 ≤ ifile.ib.size) (chunk : ℕ)
    (whole : 4096 % chunk ≡ 0) where
  -- one use
  pub use-adds :
      (w : World) (ps : List ℕ)
      → IsDatabase w.file chunk ps
      → w.file.size + 4096 < off_limit
      → length ps ≤ fuel
      → Returns
          (λ b w'.
            (b ≡ true) × Added chunk ps w.file.size w'.file × (w'.handle.stream ≡ null) × IsCalm w')
          (test_blocks_file_use (add_block_file_user fuel ifile) (calm w))
  use-adds w ps db room enough =
      test_blocks_file_use-runs (Added chunk ps w.file.size) (add_block_file_user fuel ifile) w db (
        mono
          (add_block_file_user-adds fuel ifile space chunk whole (at_head w) (at_head-IsValid w db)
            (chunk_of-at_head w db) (omega arith) db room enough)
          λ _ w' (db', size, opened, quiet). ((db', size), opened, quiet))

  -- A database whose chunk size divides 4096, seen as the list of its blocks: in a run without
  -- faults, within the range of `off_t`, with an object of 72 bytes for the last link and as many
  -- rounds as there are blocks in the end, `n` uses of the file by add_block_file_user all
  -- succeed and put `n` blocks of 4096 bytes, each at the end of the file that it finds, at the
  -- end of the list.
  pub uses-adds :
      (n : ℕ) (w : World) (ps : List ℕ)
      → IsDatabase w.file chunk ps
      → w.file.size + n * 4096 < off_limit
      → length ps + n ≤ fuel
      → Returns
          (λ b w'.
            (b ≡ true)
            × IsDatabase w'.file chunk (ps ++ added n w.file.size)
            × (w'.file.size ≡ w.file.size + n * 4096)
            × IsCalm w')
          (uses fuel ifile n (calm w))
  uses-adds zero w ps db room enough = returns (refl, rw append-nil db, omega arith, refl)
  uses-adds (suc n) w ps db room enough =
      also (λ w'. Added chunk ps w.file.size w'.file × (w'.handle.stream ≡ null))
        (test_blocks_file_use (add_block_file_user fuel ifile)) (uses fuel ifile n)
        (mono (use-adds w ps db (omega arith) (omega arith))
          λ b w' (t, a, c, quiet). (t, (a, c), quiet))
        λ w1 ((db1, size1), _).
          mono
            (uses-adds n w1 (ps ++ w.file.size ∷ []) db1 (omega (arith, size1))
              (omega (arith, enough, length-append ps (w.file.size ∷ []))))
            λ b w2 (t, db2, size2, quiet). (
              t,
              subst (IsDatabase w2.file chunk)
                  (append_assoc ps (w.file.size ∷ []) (added n w1.file.size)
                    ∙ ap (λ s. ps ++ w.file.size ∷ added n s) size1)
                  db2,
              omega (arith, size1, size2),
              quiet,
            )
