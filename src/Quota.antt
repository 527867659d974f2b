-- ===== src/Quota.antt =====
-- quota.py: how much a workspace has used, and what its limits let through. Audio lengths are whole
-- milliseconds, so minutes are compared as milliseconds without the rounding of the code's floats.
pub mod Limits
pub mod Ledger
use soriham_api.Prelude.{
  ℕ, ◌+◌, ◌*◌, ◌-◌, Bool, true, false, ◌&&◌, not, Option, none, some, List, ◌==◌, leb, ltb, get_or,
  if◌then◌else◌,
}
use soriham_api.Table.{find_where, sum_where}
use soriham_api.Models.{Workspace, Recording, RecordingStatus, JobLog, Stage, LogStatus}

-- 30 days, in seconds
abbrev pub window : ℕ
window = 30 * 86400

abbrev pub minute_ms : ℕ
minute_ms = 60000

pub record Usage : Type 0 where
  pub used_ms : ℕ
  pub quota_minutes : Option ℕ
  pub used_bytes : ℕ
  pub quota_bytes : Option ℕ

-- `max(0, quota - used)`: subtraction on ℕ stops at 0
abbrev pub left_of : Option ℕ → ℕ → Option ℕ
left_of none used = none
left_of (some q) used = some (q - used)

abbrev pub minutes_in_ms : Option ℕ → Option ℕ
minutes_in_ms none = none
minutes_in_ms (some q) = some (q * minute_ms)

-- Usage.minutes_left, in milliseconds
unfoldable pub minutes_left : Usage → Option ℕ
minutes_left u = left_of (minutes_in_ms u.quota_minutes) u.used_ms

-- Usage.bytes_left
unfoldable pub bytes_left : Usage → Option ℕ
bytes_left u = left_of u.quota_bytes u.used_bytes

pub data Refusal : Type 0 where
  quota_exceeded duration_unknown : Refusal

abbrev pub is_transcribe : Stage → Bool
is_transcribe Stage.transcribe = true
is_transcribe Stage.enrich = false

abbrev pub is_done_log : LogStatus → Bool
is_done_log LogStatus.done = true
is_done_log LogStatus.error = false

-- started_at >= now - 30 days
abbrev pub counts_for : ℕ → ℕ → JobLog → Bool
counts_for workspace_id now l =
    l.workspace_id == workspace_id
    && is_transcribe l.stage
    && is_done_log l.status
    && leb now (l.started_at + window)

-- status not in STORED_STATUSES_EXCLUDED
abbrev pub takes_space : RecordingStatus → Bool
takes_space RecordingStatus.missing = false
takes_space RecordingStatus.duplicate = false
takes_space other = true

abbrev pub is_stored_in : ℕ → Recording → Bool
is_stored_in workspace_id r =
    r.workspace_id == workspace_id && takes_space r.status && r.path_current

abbrev pub audio_of : JobLog → ℕ
audio_of l = get_or l.audio_ms 0

unfoldable pub measure : List JobLog → List Recording → Workspace → ℕ → Usage
measure logs recordings w now = record {
  used_ms = sum_where (counts_for w.id now) audio_of logs;
  quota_minutes = w.quota_minutes;
  used_bytes = sum_where (is_stored_in w.id) (λ r. r.size_bytes) recordings;
  quota_bytes = w.quota_bytes;
}

-- check_storage: `some` is the exception that it raises
unfoldable pub check_storage : Usage → ℕ → Option Refusal
unfolding bytes_left
check_storage u incoming = elim (bytes_left u) [
  | none ↦ none
  | some left ↦ (if leb incoming left then none else some quota_exceeded)
]

abbrev pub check_length : ℕ → Option ℕ → Option Refusal
check_length left none = some duration_unknown
check_length left (some d) = if ltb left d then some quota_exceeded else none

unfoldable pub check_minutes : Usage → Option ℕ → Option Refusal
unfolding minutes_left
check_minutes u duration = elim (minutes_left u) [
  | none ↦ none
  | some left ↦ check_length left duration
]

abbrev pub block_in :
    List JobLog → List Recording → Option Workspace → Option ℕ → ℕ → Option Refusal
block_in logs recordings none duration now = none
block_in logs recordings (some w) duration now =
    check_minutes (measure logs recordings w now) duration

unfoldable pub transcription_block :
    List Workspace → List JobLog → List Recording → Recording → ℕ → Option Refusal
unfolding check_minutes measure
transcription_block workspaces logs recordings r now =
    block_in logs recordings (find_where (λ w. w.id == r.workspace_id) workspaces) r.duration_ms now

abbrev pub is_allowed : Option Refusal → Bool
is_allowed none = true
is_allowed (some e) = false

unfoldable pub allows_transcription :
    List Workspace → List JobLog → List Recording → Recording → ℕ → Bool
unfolding transcription_block
allows_transcription workspaces logs recordings r now =
    is_allowed (transcription_block workspaces logs recordings r now)
