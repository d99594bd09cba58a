-- ===== src/View.antt =====
-- include/ulk/ulk_types.h and ulk_error.h: string views, status codes and error values.
use universal_launcher.Prelude.{ℕ, Bool, true, false, not, ◌||◌, [], ◌==◌, length, Bytes, ℤ, pos}

-- A null pointer with the size that the caller claims, or a pointer to the bytes that it covers.
pub data StringView : Type 0 where
  null : ℕ → StringView
  at : Bytes → StringView

abbrev pub size : StringView → ℕ
size (null n) = n
size (at bytes) = length bytes

abbrev pub is_null : StringView → Bool
is_null (null n) = true
is_null (at bytes) = false

-- What the view covers: a null view that claims a size covers nothing that can be read.
abbrev pub contents : StringView → Bytes
contents (null n) = []
contents (at bytes) = bytes

-- `value.size == 0u || value.data != 0`, which several files declare again.
unfoldable pub view_is_valid : StringView → Bool
view_is_valid value = (size value == 0) || not (is_null value)

-- enum ulk_status
pub data Status : Type 0 where
  ok error invalid_argument unsupported_version : Status

abbrev pub is_ok : Status → Bool
is_ok ok = true
is_ok _ = false

-- The int that a status is in C.
unfoldable pub status_code : Status → ℤ
status_code ok = pos 0
status_code error = pos 1
status_code invalid_argument = pos 2
status_code unsupported_version = pos 3

-- ulk_error_v1
pub record ErrorValue : Type 0 where
  pub struct_size : ℕ
  pub code : ℤ
  pub message : StringView
  pub detail : StringView

-- The sizes of the ABI's structures on a platform with 64-bit pointers.
abbrev pub sizeof_error : ℕ
sizeof_error = 48
