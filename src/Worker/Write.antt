-- ===== src/Worker/Write.antt =====
-- What the stages of worker.py write: a recording under its id, and a line in the ledger.
use soriham_api.Prelude.{
  ℕ, String, Bool, Option, none, some, [], ◌∷◌, ◌++◌, ◌==◌, is_some, if◌then◌else◌,
}
use soriham_api.Table.{find_where, update_where}
use soriham_api.Models.{Recording, SttMeta, JobLog, Stage, LogStatus}
use soriham_api.Worker.{Db}

-- SOURCE_CHANGED_PREFIX of ingest.py
abbrev pub source_changed_prefix : String
source_changed_prefix = "원본 변경: "

-- DIARIZE_ERROR_PREFIX
abbrev pub diarize_error_prefix : String
diarize_error_prefix = "화자분리 실패: "

-- how a stage ends: it returns, or it raises
pub data Ending : Type 0 where
  completed recording_changed runner_unavailable failed : Ending

abbrev pub has_id : ℕ → Recording → Bool
has_id id r = r.id == id

abbrev pub write_recording : ℕ → ℕ → (Recording → Recording) → Db → Db
write_recording id now f db = record db {
  recordings = update_where (has_id id) (λ r. record (f r) { updated_at = now }) db.recordings;
}

abbrev pub no_meta : SttMeta
no_meta = record { elapsed_sec = none; device = none; model = none; diarize_error = none }

-- _log_stage with its own transaction: the reference is dropped if the recording is gone
unfoldable pub log_row :
    Db → Recording → Stage → LogStatus → ℕ → ℕ → SttMeta → Option String → JobLog
log_row db r stage status started ended meta error = record {
  workspace_id = r.workspace_id;
  recording_id = if is_some (find_where (has_id r.id) db.recordings) then some r.id else none;
  stage = stage;
  status = status;
  started_at = started;
  finished_at = some ended;
  audio_ms = r.duration_ms;
  elapsed_sec = meta.elapsed_sec;
  device = meta.device;
  model = meta.model;
  error = error;
}

abbrev pub add_log : Db → JobLog → Db
add_log db row = record db { logs = db.logs ++ row ∷ [] }
