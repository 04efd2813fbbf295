-- ===== src/Tests/Data.antt =====
-- Small files: chunks of 128 bytes, a table of records of 7 bytes at the start.
use recnodb.Base.{
  ℕ, ◌-◌, ◌==◌, false, Option, none, some, List, [], ◌∷◌, ltb, get_or, if◌then◌else◌,
}
use recnodb.Bytes.{Bytes}
use recnodb.Types.{Handle, live}
use recnodb.Stdio.{Fault, World}

-- the bytes of a table's head with its successor at `next`, a number below 256
abbrev table_bytes : ℕ → List ℕ
table_bytes next =
    3 ∷ 0 ∷ 72 ∷ 0 ∷ 128 ∷ 0 ∷ 0 ∷ 0 ∷ 0 ∷ 0 ∷ 0 ∷ 0 ∷ 0 ∷ 0 ∷ 0 ∷ 0 ∷ next ∷ 0 ∷ 0 ∷ 0 ∷ 0 ∷ 0 ∷ 0
    ∷ 0 ∷ 0 ∷ 0 ∷ 0 ∷ 0 ∷ 0 ∷ 0 ∷ 0 ∷ 0 ∷ 0 ∷ 0 ∷ 0 ∷ 0 ∷ 0 ∷ 0 ∷ 0 ∷ 0 ∷ 0 ∷ 0 ∷ 0 ∷ 0 ∷ 0 ∷ 0 ∷ 0
    ∷ 0 ∷ 0 ∷ 0 ∷ 0 ∷ 0 ∷ 0 ∷ 0 ∷ 0 ∷ 0 ∷ 7 ∷ 0 ∷ 0 ∷ 0 ∷ 0 ∷ 0 ∷ 0 ∷ 0 ∷ 82 ∷ 78 ∷ 68 ∷ 66 ∷ 128
    ∷ 0 ∷ 0 ∷ 0 ∷ []

-- the head of a table, as an object of its own
abbrev pub head : ℕ → Bytes
head next = record { cell = λ i. get_or (table_bytes next) i 0; size = 72 }

-- a table of one block
abbrev pub single_file : Bytes
single_file = record { cell = λ i. get_or (table_bytes 0) i 0; size = 128 }

abbrev data_bytes : List ℕ
data_bytes = 2 ∷ 0 ∷ 32 ∷ 0 ∷ 128 ∷ []

-- the same with the successor at 256
abbrev linked_bytes : List ℕ
linked_bytes = 2 ∷ 0 ∷ 32 ∷ 0 ∷ 128 ∷ 0 ∷ 0 ∷ 0 ∷ 0 ∷ 0 ∷ 0 ∷ 0 ∷ 0 ∷ 0 ∷ 0 ∷ 0 ∷ 0 ∷ 1 ∷ 0 ∷ 0 ∷ []

-- a table with a data block behind it
abbrev pub double_file : Bytes
double_file = record {
  cell = λ i. if ltb i 128 then get_or (table_bytes 128) i 0 else get_or data_bytes (i - 128) 0;
  size = 256;
}

-- a data block at 64 that is its own successor
abbrev pub cyclic_file : Bytes
cyclic_file = record {
  cell = λ i.
      get_or (2 ∷ 0 ∷ 32 ∷ 0 ∷ 128 ∷ 0 ∷ 0 ∷ 0 ∷ 0 ∷ 0 ∷ 0 ∷ 0 ∷ 0 ∷ 0 ∷ 0 ∷ 0 ∷ 64 ∷ []) (i - 64)
        0;
  size = 256;
}

abbrev pub open_handle : Handle
open_handle = record { stream = live; sys_errno = 5; head_file = head 0 }

-- a table of one block of 51328 bytes
abbrev pub roomy_file : Bytes
roomy_file = record { cell = λ i. if i == 5 then 200 else get_or (table_bytes 0) i 0; size = 51328 }

-- a process that has the file open
abbrev pub using : Bytes → World
using f = record {
  file = f;
  pos = 0;
  locked = λ _. false;
  faults = λ _. none;
  tick = 0;
  errno = 9;
  printed = [];
  handle = open_handle;
}

abbrev pub single : World
single = using single_file

abbrev pub double : World
double = using double_file

-- a file that holds no more than its head
abbrev pub head_alone : World
head_alone = using (head 0)

-- The fourth call of the library fails with ENOSPC.
abbrev pub disk_full : ℕ → Option Fault
disk_full t = if t == 3 then some (record { errno_code = 28; written = 0 }) else none

-- a table with two data blocks behind it
abbrev pub triple_file : Bytes
triple_file = record {
  cell = λ i.
      if ltb i 128
      then get_or (table_bytes 128) i 0
      else if ltb i 256
      then get_or linked_bytes (i - 128) 0
      else get_or data_bytes (i - 256) 0;
  size = 384;
}

-- a table with a data block, and a block that is in no chain
abbrev pub detached_file : Bytes
detached_file = record {
  cell = λ i.
      if ltb i 128
      then get_or (table_bytes 128) i 0
      else if ltb i 256
      then get_or data_bytes (i - 128) 0
      else get_or data_bytes (i - 256) 0;
  size = 384;
}

-- The tenth call of the library fails with ENOSPC, 20 bytes being written.
abbrev pub head_lost : ℕ → Option Fault
head_lost t = if t == 9 then some (record { errno_code = 28; written = 20 }) else none
