-- ===== src/Types.antt =====
-- The types of src/recnodb.h: error codes, flags and the handle.
use recnodb.Base.{ℕ, Bool, true, false}
use recnodb.Bytes.{Bytes}

-- RND_ERROR, without the bound RND_ERROR_LIMIT of the enumeration
pub data Error : Type 0 where
  success fail system_error invalid_recnodb_file bad_parameter missing_fhead : Error
  file_already_open file_not_open extinct_record attempt_to_orphan_block : Error
  reached_end_of_block_chain lock_failed unlock_failed lock_read_failed : Error
  unlock_write_failed incomplete_read incomplete_write invalid_block_size : Error
  invalid_block_location invalid_head_file : Error

-- `!rval`
abbrev pub is_success : Error → Bool
is_success success = true
is_success _ = false

-- the value of the enumeration
unfoldable pub code : Error → ℕ
code success = 0
code fail = 1
code system_error = 2
code invalid_recnodb_file = 3
code bad_parameter = 4
code missing_fhead = 5
code file_already_open = 6
code file_not_open = 7
code extinct_record = 8
code attempt_to_orphan_block = 9
code reached_end_of_block_chain = 10
code lock_failed = 11
code unlock_failed = 12
code lock_read_failed = 13
code unlock_write_failed = 14
code incomplete_read = 15
code incomplete_write = 16
code invalid_block_size = 17
code invalid_block_location = 18
code invalid_head_file = 19

abbrev pub error_limit : ℕ
error_limit = 20

-- RND_FLAGS: the bits RND_CREATE = 1 and RND_READONLY = 2
pub record Flags : Type 0 where
  pub create : Bool
  pub readonly : Bool

-- `struct recnodb_data`: the bytes that `data` points to, and the member `size`
pub record RndData : Type 0 where
  pub bytes : Bytes
  pub size : ℕ

-- a pointer to a stream: NULL, one that is open, or one that has been closed
pub data Stream : Type 0 where
  null live dangling : Stream

-- the pointer as a condition
abbrev pub is_set : Stream → Bool
is_set null = false
is_set _ = true

abbrev pub is_live : Stream → Bool
is_live live = true
is_live _ = false

-- `struct recnodb_handle`; `stream` is its member `file`, and `head_file` is the object's bytes.
pub record Handle : Type 0 where
  pub stream : Stream
  pub sys_errno : ℕ
  pub head_file : Bytes
