-- ===== src/Models/Recordings.antt =====
-- Recordings, their segments and the ledger of processing stages (models.py).
use soriham_api.Files.{Signature}
use soriham_api.Prelude.{ℕ, Bool, Option, List, String}

pub data RecordingStatus : Type 0 where
  pending transcribing diarizing enriching summarizing done error missing duplicate quota_blocked :
      RecordingStatus

pub data RecordingSource : Type 0 where
  upload scan : RecordingSource

-- the runner's report on a transcription: the entries that the program reads
pub record SttMeta : Type 0 where
  pub elapsed_sec : Option ℕ
  pub device : Option String
  pub model : Option String
  pub diarize_error : Option String

pub record Recording : Type 0 where
  pub id : ℕ
  pub public_id : ℕ
  pub workspace_id : ℕ
  pub created_by_user_id : Option ℕ
  pub source : RecordingSource
  pub path : String
  pub path_current : Bool
  pub file_signature : Option Signature
  pub filename : String
  pub size_bytes : ℕ
  pub partial_hash : String
  pub content_hash : Option String
  pub recorded_at : Option ℕ
  pub duration_ms : Option ℕ
  pub language : Option String
  pub title : Option String
  pub summary : Option String
  pub status : RecordingStatus
  pub error : Option String
  pub stt_meta : Option SttMeta
  pub runner_request_id : Option ℕ
  pub runner_started_at : Option ℕ
  pub progress : Option ℕ
  pub stage_started_at : Option ℕ
  pub duplicate_of_id : Option ℕ
  pub updated_at : ℕ

pub record Segment : Type 0 where
  pub recording_id : ℕ
  pub idx : ℕ
  pub start_ms : ℕ
  pub end_ms : ℕ
  pub speaker_key : Option String
  pub text : String
  pub words : Option (List String)
  pub kind : String

pub data Stage : Type 0 where
  transcribe enrich : Stage

pub data LogStatus : Type 0 where
  done error : LogStatus

pub record JobLog : Type 0 where
  pub workspace_id : ℕ
  pub recording_id : Option ℕ
  pub stage : Stage
  pub status : LogStatus
  pub started_at : ℕ
  pub finished_at : Option ℕ
  pub audio_ms : Option ℕ
  pub elapsed_sec : Option ℕ
  pub device : Option String
  pub model : Option String
  pub error : Option String
