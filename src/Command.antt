-- ===== src/Command.antt =====
-- include/ulk/ulk_command.h: requests and responses of commands.
use universal_launcher.Prelude.{
  ℕ, Bool, not, ◌||◌, Option, none, some, ltb, if◌then◌else◌, ℤ, pos, ◌==ℤ◌,
}
use universal_launcher.View.{
  StringView, ErrorValue, sizeof_error, view_is_valid, Status, ok, invalid_argument,
}

pub record CommandRequest : Type 0 where
  pub struct_size : ℕ
  pub command_name : StringView
  pub json_payload : StringView
  pub dry_run : ℤ

pub record CommandResponse : Type 0 where
  pub struct_size : ℕ
  pub status : ℤ
  pub json_payload : StringView
  pub error : ErrorValue

-- The sizes on a platform with 64-bit pointers.
abbrev pub sizeof_request_v1 : ℕ
sizeof_request_v1 = 48

abbrev pub sizeof_response_v1 : ℕ
sizeof_response_v1 = 80

-- `ulk_owned_status_is_valid`
unfoldable pub status_is_valid : ℤ → Bool
status_is_valid status =
    (status ==ℤ pos 0) || (status ==ℤ pos 1) || (status ==ℤ pos 2) || (status ==ℤ pos 3)

unfoldable pub response_validate : Option CommandResponse → Status
response_validate none = invalid_argument
response_validate (some response) =
    if ltb response.struct_size sizeof_response_v1
      || not (status_is_valid response.status)
      || not (view_is_valid response.json_payload)
      || ltb response.error.struct_size sizeof_error
      || not (view_is_valid response.error.message)
      || not (view_is_valid response.error.detail)
    then invalid_argument
    else ok
