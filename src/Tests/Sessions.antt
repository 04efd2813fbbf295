-- ===== src/Tests/Sessions.antt =====
-- Tests of sequences of calls on one handle (src/recnodb.c) and on an open database.
use recnodb.Base.{◌≡◌, ◌⊎◌, refl, false, List, [], ◌∷◌, arith}
use recnodb.Bytes.{zeros, byte, num, read, write}
use recnodb.Stdio.{World, Returns, undefined}
use recnodb.Stdio.Calm.{calm}
use recnodb.Blocks.Validate.{validate_head_file}
use recnodb.Blocks.Open.Load.{existing}
use recnodb.Api.Raw.{
  RawCall, opens, closes, run_calls, Session, ClosesTwice, run_calls-Session,
  run_calls-closes_twice,
}
use recnodb.Tests.Data.{using, single, disk_full}

-- a file of zeros
abbrev blank : World
blank = using (zeros 100)

abbrev open_close_close : List RawCall
open_close_close = opens 0 (existing false) ∷ closes ∷ closes ∷ []

run_calls-Session_example :
    Returns
      (λ es w'. Session (record single { faults = disk_full }) open_close_close es w')
      (run_calls open_close_close (record single { faults = disk_full }))
    ⊎ ((run_calls open_close_close (record single { faults = disk_full }) ≡ undefined)
        × ClosesTwice (record single { faults = disk_full }) open_close_close)
run_calls-Session_example =
    run_calls-Session open_close_close (record single { faults = disk_full })

run_calls-closes_twice_example :
    run_calls (opens 0 (existing false) ∷ closes ∷ []) (calm blank) ≡ undefined
unfolding validate_head_file byte num read write
run_calls-closes_twice_example = run_calls-closes_twice false 0 blank (omega arith) refl
