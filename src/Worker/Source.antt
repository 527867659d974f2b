-- ===== src/Worker/Source.antt =====
-- The identity check of a scanned file around a transcription (worker.py): the file must be the one
-- that was registered, before the call and after it.
use soriham_api.Files.{Signature, same_signature}
use soriham_api.Prelude.{String, Option, none, some, str_eq, if◌then◌else◌}

-- the reads of one identity check; `none` is an OSError
pub record FileReads : Type 0 where
  pub signature : Option Signature
  pub hash : Option String
  pub signature_after : Option Signature

pub data Check : Type 0 where
  same : Signature → Check
  changed unreadable : Check

abbrev pub check_last : Signature → Option Signature → Check
check_last s none = unreadable
check_last s (some t) = if same_signature t s then same s else changed

abbrev pub check_hash : Signature → String → Option String → Option Signature → Check
check_hash s expected none after = unreadable
check_hash s expected (some h) after = if str_eq h expected then check_last s after else changed

abbrev pub check_expected : Signature → Option String → FileReads → Check
check_expected s none f = changed
check_expected s (some expected) f = check_hash s expected f.hash f.signature_after

-- before the call: the file must be the one that was registered
abbrev pub check_input_from : Option Signature → Option String → FileReads → Check
check_input_from none expected f = unreadable
check_input_from (some s) expected f = check_expected s expected f

unfoldable pub check_input : Option String → FileReads → Check
check_input expected f = check_input_from f.signature expected f

-- after the call: the file must still be the one that was read
abbrev pub check_output_from : Signature → Option Signature → Option String → FileReads → Check
check_output_from s none expected f = unreadable
check_output_from s (some t) expected f =
    if same_signature t s then check_expected s expected f else changed

unfoldable pub check_output : Signature → Option String → FileReads → Check
check_output s expected f = check_output_from s f.signature expected f
