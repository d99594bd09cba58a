-- ===== src/Session/Owned/Copy.antt =====
-- A validated public record is copied whole, up to a zero byte in a text, and the copy is one that
-- the file format can represent.
use universal_launcher.Prelude.{
  ℕ, ◌≤◌, ◌<◌, ◌≡◌, Bool, true, false, Option, none, some, [], ◌∷◌, arith, length, All, Bytes,
  c_string, IsText, pos,
}
use universal_launcher.View.{StringView, null, at, size, contents}
use universal_launcher.Operation.{OperationResult, identifier_is_valid}
use universal_launcher.Session.Integer.{InI64}
use universal_launcher.Session.Record.{
  SessionRecord, OwnedRecord, view_valid, identifier_valid, copy_view,
}
use universal_launcher.Session.Owned.{TerminalPart, blank_outcome}
use universal_launcher.Session.Codec.RoundTrip.{Holds}

-- C's `char` and `int64_t`.
abbrev pub IsBytes : StringView → Type 0
IsBytes v = All (λ c. c < 256) (contents v)

abbrev pub AreResultBytes : Option OperationResult → Type 0
AreResultBytes none = Unit {0}
AreResultBytes (some result) =
    IsBytes result.recovery.transaction_id × IsBytes result.recovery.inspect_command

pub record IsTyped (r : SessionRecord) : Type 0 where
  pub session_id : IsBytes r.session_id
  pub operation_id : IsBytes r.identity.operation_id
  pub attempt_id : IsBytes r.identity.attempt_id
  pub runnable_reference : IsBytes r.runnable_reference
  pub process_identity : IsBytes r.process_identity
  pub started_at : IsBytes r.started_at
  pub ended_at : IsBytes r.ended_at
  pub recovery_reference : IsBytes r.recovery_reference
  pub relaunch_reference : IsBytes r.relaunch_reference
  pub result : AreResultBytes r.terminal_result
  pub exit_code : InI64 r.exit_code

-- The text of a view up to its first zero byte.
abbrev pub text_of : StringView → Bytes
text_of v = c_string (contents v)

c_string_lem :
    (s : Bytes) → All (λ c. c < 256) s → IsText (c_string s) × (length (c_string s) ≤ length s)
unfolding c_string
c_string_lem [] h = (tt, omega arith)
c_string_lem (c ∷ s) h = ground (arith, c_string_lem s h.1)

length-contents : (v : StringView) → length (contents v) ≤ size v
length-contents (null n) = omega arith
length-contents (at s) = omega arith

pub text_of-Holds :
    (capacity : ℕ) (v : StringView) → IsBytes v → size v < capacity → Holds capacity (text_of v)
text_of-Holds capacity v h fits =
    let (t, l) = c_string_lem (contents v) h in (t, omega (arith, length-contents v))

pub copy_view_lem :
    (capacity : ℕ) (v : StringView) → size v < capacity → copy_view capacity v ≡ some (text_of v)
unfolding copy_view
copy_view_lem capacity v h = ground arith

pub view_valid-le :
    (v : StringView) (maximum : ℕ) (e : Bool) → view_valid v maximum e ≡ true → size v ≤ maximum
unfolding view_valid
view_valid-le v maximum e h = ground arith

pub identifier_valid-le : (v : StringView) → identifier_valid v ≡ true → size v ≤ 128
unfolding identifier_valid
identifier_valid-le v h = ground (arith, view_valid-le v 128 false)

pub identifier_is_valid-le :
    (v : StringView) (e : Bool) → identifier_is_valid v e ≡ true → size v ≤ 128
unfolding identifier_is_valid
identifier_is_valid-le (null n) e h = ground arith
identifier_is_valid-le (at []) e h = omega arith
identifier_is_valid-le (at (c ∷ s)) e h = ground arith

-- What the copy holds of the terminal result.
unfoldable pub copied_part : Option OperationResult → TerminalPart
copied_part none = record {
  outcome = blank_outcome;
  effects_may_have_occurred = pos 0;
  recovery_required = pos 0;
  transaction = [];
  inspect_command = [];
}
copied_part (some result) = record {
  outcome = result.outcome;
  effects_may_have_occurred = result.effects_may_have_occurred;
  recovery_required = result.recovery.required;
  transaction = text_of result.recovery.transaction_id;
  inspect_command = text_of result.recovery.inspect_command;
}

-- The copy of a record: each text up to its first zero byte, the integers as they are.
unfoldable pub copied : SessionRecord → OwnedRecord
unfolding copied_part
copied r =
    let part = copied_part r.terminal_result in
    record {
      session_id = text_of r.session_id;
      operation_id = text_of r.identity.operation_id;
      attempt_id = text_of r.identity.attempt_id;
      runnable_reference = text_of r.runnable_reference;
      process_identity = text_of r.process_identity;
      started_at = text_of r.started_at;
      ended_at = text_of r.ended_at;
      recovery_transaction = part.transaction;
      recovery_inspect_command = part.inspect_command;
      recovery_reference = text_of r.recovery_reference;
      relaunch_reference = text_of r.relaunch_reference;
      state = r.state;
      outcome = part.outcome;
      effects_may_have_occurred = part.effects_may_have_occurred;
      recovery_required = part.recovery_required;
      exit_code_known = r.exit_code_known;
      exit_code = r.exit_code;
      commit_order = pos 0;
    }
