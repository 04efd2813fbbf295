-- ===== src/Programs/ExtraTest.antt =====
-- src/testm_extra.c: the block size is shown.
use recnodb.Base.{ℕ, Option, [], ◌∷◌}
use recnodb.Stdio.{Cmd, pure, ◌>>◌, print}
use recnodb.Api.{get_blocksize}

-- main; `stat` is what get_blocksize learns.
unfoldable pub main : Option ℕ → Cmd ℕ
main stat = print (get_blocksize stat ∷ []) >> pure 0
