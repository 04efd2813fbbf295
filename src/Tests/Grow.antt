-- ===== src/Tests/Grow.antt =====
-- Tests of chains that grow, by src/blocks.c and by src/chains.c.
use recnodb.Base.{◌≡◌, refl, [], ◌∷◌, arith}
use recnodb.Bytes.{byte, num}
use recnodb.Types.{success}
use recnodb.Stdio.{Returns}
use recnodb.Stdio.Calm.{calm}
use recnodb.Blocks.Validate.{head_size}
use recnodb.Blocks.Append.{extend_chain}
use recnodb.Chains.{add_link}
use recnodb.Chains.Walk.{Chain, end, link}
use recnodb.Chains.Last.{last_of}
use recnodb.Chains.Grow.{extend_chain-Chain, add_link-Chain}
use recnodb.Tests.Data.{double, using, detached_file}
use recnodb.Tests.Blocks.{data_block, data_block-IsPlain, double-Ready}
use recnodb.Tests.Chains.{two_blocks}

extend_chain-Chain_example :
    Returns
      (λ (e, d') w'. (e ≡ success) × Chain w'.file 0 (0 ∷ 128 ∷ 256 ∷ []))
      (extend_chain 128 data_block (calm double))
unfolding byte num head_size last_of
extend_chain-Chain_example =
    extend_chain-Chain double data_block 128 double-Ready data_block-IsPlain (omega arith)
      two_blocks (refl, (refl, tt)) (omega arith) refl

two_of_three : Chain detached_file 0 (0 ∷ 128 ∷ [])
unfolding byte num
two_of_three =
    link {q = 128} (record { positive = omega arith; inside = omega arith }) refl (omega arith)
      (end (record { positive = omega arith; inside = omega arith }) refl)

add_link-Chain_example :
    Returns
      (λ e w'. (e ≡ success) × Chain w'.file 0 (0 ∷ 128 ∷ 256 ∷ []))
      (add_link 128 (record { offset = 256; size = 128 }) (calm (using detached_file)))
unfolding byte num last_of
add_link-Chain_example =
    add_link-Chain (using detached_file) (record { offset = 256; size = 128 }) 128 refl two_of_three
      (refl, (refl, tt)) (omega arith) (record { positive = omega arith; inside = omega arith })
      refl refl (omega arith) (omega arith) (omega arith)
