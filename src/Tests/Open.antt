-- ===== src/Tests/Open.antt =====
-- Tests of opening files (src/blocks.c) and of error messages (src/extra.c).
use recnodb.Base.{◌≡◌, ◌≢◌, ap, true, false, none, some, arith}
use recnodb.Bytes.{zeros}
use recnodb.Types.{success, fail, bad_parameter, code, live}
use recnodb.Stdio.{World, Cmd, pure, Returns, returns}
use recnodb.Stdio.Calm.{calm}
use recnodb.Blocks.Head.File.{IsPrepared}
use recnodb.Blocks.Open.{file_open, file_use}
use recnodb.Blocks.Open.Load.{existing, Opened, file_open-keeps}
use recnodb.Blocks.Open.Create.{created_file, reopen, file_open-reopen}
use recnodb.Api.{rnd_strerror, text, out_of_range}
use recnodb.Api.Strerror.{rnd_strerror-distinct}
use recnodb.Blocks.Open.Use.{Establishes, Used, file_use-closes}
use recnodb.Tests.Data.{using, single, disk_full}

-- a file of zeros
abbrev blank : World
blank = using (zeros 100)

file_open-reopen_example :
    Returns
      (λ e w'.
        (e ≡ success)
        × (w'.handle.stream ≡ live)
        × (w'.file ≡ created_file 128 7)
        × IsPrepared 128 128 7 w'.handle.head_file)
      (reopen false 128 7 4096 20 (calm blank))
file_open-reopen_example =
    file_open-reopen false 128 7 4096 20 blank (omega arith) (omega arith) (omega arith)

-- `fread` fails
file_open-keeps_example :
    Returns
      (λ e w'. (w'.file ≡ single.file) × Opened e w')
      (file_open (existing true) 0 0 true (record single { faults = disk_full; tick = 2 }))
file_open-keeps_example = file_open-keeps true 0 0 (record single { faults = disk_full; tick = 2 })

rnd_strerror-distinct_example :
    (rnd_strerror (code fail) none 0 ≡ rnd_strerror (code bad_parameter) (some 2) 5
      → fail ≡ bad_parameter)
    × (rnd_strerror (code fail) none 0 ≢ text out_of_range)
rnd_strerror-distinct_example =
    rnd_strerror-distinct fail bad_parameter none (some 2) 0 5 (λ p. cc (p)) (λ p. cc (p))

-- a callback that cuts nothing off the file
abbrev idle : Cmd (Unit {0})
idle = pure tt

idle-Establishes : Establishes (λ f. f.size ≡ 128) single.file idle
idle-Establishes v same valid = returns (ap (λ f. f.size) same, valid.0)

file_use-closes_example :
    Returns
      (Used (λ f. f.size ≡ 128) single.file)
      (file_use (existing true) 0 0 idle (record single { faults = disk_full }))
file_use-closes_example =
    file_use-closes (λ f. f.size ≡ 128) idle true 0 0 (record single { faults = disk_full })
      idle-Establishes
