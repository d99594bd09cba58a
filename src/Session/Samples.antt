-- ===== src/Session/Samples.antt =====
-- Sample records, journals and systems for the examples of the session journal.
use universal_launcher.Prelude.{
  ◌≡◌, refl, true, false, none, some, [], arith, codes, pos, negsuc, ◌==ℤ◌,
}
use universal_launcher.View.{null, at, ok}
use universal_launcher.Operation.{
  completed, outcome_code, outcome_of_int, sizeof_identity, identity_validate, identifier_is_valid,
}
use universal_launcher.Session.Record.{
  running, terminal, SessionRecord, OwnedRecord, state_code, state_of_int, sizeof_session_record,
  record_validate, record_fields_valid, identifier_valid, running_valid,
}
use universal_launcher.Session.Owned.Copy.{IsTyped}
use universal_launcher.Session.Codec.RoundTrip.{IsStorable}
use universal_launcher.Session.Files.{System}
use universal_launcher.Session.Files.Scanning.{IsHealthy}
use universal_launcher.Session.Journal.{Journal, sizeof_journal}

abbrev pub all_ok : System
all_ok = record {
  root_is_link = false;
  root_made = true;
  sessions_path = true;
  sessions_is_link = false;
  sessions_made = true;
  lock_path = true;
  lock_taken = true;
  directory_opened = true;
  entry_listed = λ name. true;
  path_joined = λ name. true;
  file_read = λ name. true;
  set_grown = λ n. true;
  text_grown = λ n. true;
  temporary_named = λ name. true;
  file_opened = λ name. true;
  bytes_written = λ name n. n;
  file_flushed = λ name. true;
  file_synced = λ name. true;
  file_closed = λ name. true;
  bytes_kept = λ name. 0;
  file_renamed = λ name. true;
  file_removed = λ name. true;
}

-- The temporary file can be neither renamed nor removed.
abbrev pub torn : System
torn = record all_ok { file_renamed = λ name. false; file_removed = λ name. false }

pub all_ok_lem : IsHealthy all_ok
all_ok_lem = record {
  root_is_link = refl;
  root_made = refl;
  sessions_path = refl;
  sessions_is_link = refl;
  sessions_made = refl;
  lock_path = refl;
  lock_taken = refl;
  directory_opened = refl;
  entry_listed = λ name. refl;
  path_joined = λ name. refl;
  file_read = λ name. refl;
  set_grown = λ n. refl;
  text_grown = λ n. refl;
  temporary_named = λ name. refl;
  file_opened = λ name. refl;
  bytes_written = λ name n. refl;
  file_flushed = λ name. refl;
  file_synced = λ name. refl;
  file_closed = λ name. refl;
  file_renamed = λ name. refl;
  file_removed = λ name. refl;
}

abbrev pub sample_journal : Journal
sample_journal = record {
  struct_size = sizeof_journal;
  root = at (codes "/j");
  maximum_records = 0;
}

abbrev pub begun : SessionRecord
begun = record {
  struct_size = sizeof_session_record;
  session_id = at (codes "s1");
  identity = record {
    struct_size = sizeof_identity;
    operation_id = at (codes "op");
    attempt_id = at (codes "a1");
  };
  runnable_reference = at (codes "game");
  process_identity = null 0;
  state = running;
  started_at = at (codes "t0");
  ended_at = null 0;
  exit_code_known = pos 0;
  exit_code = pos 0;
  terminal_result = none;
  recovery_reference = null 0;
  relaunch_reference = null 0;
}

abbrev pub begun_copy : OwnedRecord
begun_copy = record {
  session_id = codes "s1";
  operation_id = codes "op";
  attempt_id = codes "a1";
  runnable_reference = codes "game";
  process_identity = [];
  started_at = codes "t0";
  ended_at = [];
  recovery_transaction = [];
  recovery_inspect_command = [];
  recovery_reference = [];
  relaunch_reference = [];
  state = running;
  outcome = completed;
  effects_may_have_occurred = pos 0;
  recovery_required = pos 0;
  exit_code_known = pos 0;
  exit_code = pos 0;
  commit_order = pos 1;
}

abbrev pub ended_copy : OwnedRecord
ended_copy = record begun_copy {
  state = terminal;
  ended_at = codes "t1";
  exit_code_known = pos 1;
  exit_code = negsuc 0;
}

pub begun_lem : record_validate (some begun) ≡ ok
unfolding record_validate record_fields_valid identifier_valid identity_validate identifier_is_valid
    ◌==ℤ◌ running_valid
begun_lem = refl

pub begun-IsTyped : IsTyped begun
begun-IsTyped = record {
  session_id = ground arith;
  operation_id = ground arith;
  attempt_id = ground arith;
  runnable_reference = ground arith;
  process_identity = ground arith;
  started_at = ground arith;
  ended_at = ground arith;
  recovery_reference = ground arith;
  relaunch_reference = ground arith;
  result = tt;
  exit_code = omega arith;
}

pub ended_lem : IsStorable ended_copy
unfolding state_code state_of_int outcome_code outcome_of_int ◌==ℤ◌
ended_lem = record {
  session_id = ground arith;
  operation_id = ground arith;
  attempt_id = ground arith;
  runnable_reference = ground arith;
  process_identity = ground arith;
  started_at = ground arith;
  ended_at = ground arith;
  recovery_transaction = ground arith;
  recovery_inspect_command = ground arith;
  recovery_reference = ground arith;
  relaunch_reference = ground arith;
  state = (omega arith, refl);
  outcome = (omega arith, refl);
  effects = omega arith;
  required = omega arith;
  known = omega arith;
  exit_code = omega arith;
  order = (omega arith, refl);
}
