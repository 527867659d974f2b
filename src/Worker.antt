-- ===== src/Worker.antt =====
-- worker.py: the queue of recordings and the stages that process them. The database is a record of
-- the tables that the worker touches; a function takes it and gives back the committed tables.
-- Instants are whole seconds. Every UPDATE of a recording also sets `updated_at` (models.py).
pub mod Recovery
pub mod Claim
pub mod Source
pub mod Write
pub mod Transcribe
pub mod Enrich
pub mod Process
pub mod Loop
use soriham_api.Prelude.{
  ℕ, ◌+◌, ◌*◌, Bool, true, false, ◌&&◌, ◌||◌, Option, none, some, List, ◌==◌, ◌≡◌, is_some,
  if◌then◌else◌,
}
use soriham_api.Table.{find_where, All}
use soriham_api.Models.{Workspace, Recording, RecordingStatus, Segment, JobLog}

pub record Db : Type 0 where
  pub workspaces : List Workspace
  pub recordings : List Recording
  pub segments : List Segment
  pub logs : List JobLog

-- STALE_AFTER
abbrev pub stale_after : ℕ
stale_after = 300

-- HEARTBEAT_EVERY
abbrev pub heartbeat_every : ℕ
heartbeat_every = 30

abbrev pub maintenance_every : ℕ
maintenance_every = 20

-- CLAIM_TIERS: recordings that wait for transcription, then those that wait for a summary
abbrev pub is_pending : RecordingStatus → Bool
is_pending RecordingStatus.pending = true
is_pending other = false

abbrev pub is_enriching : RecordingStatus → Bool
is_enriching RecordingStatus.enriching = true
is_enriching other = false

-- CLAIMABLE_STATUSES
abbrev pub is_claimable : RecordingStatus → Bool
is_claimable s = is_pending s || is_enriching s

-- IN_FLIGHT
abbrev pub is_in_flight : RecordingStatus → Bool
is_in_flight RecordingStatus.transcribing = true
is_in_flight RecordingStatus.diarizing = true
is_in_flight RecordingStatus.summarizing = true
is_in_flight other = false

abbrev pub is_error : RecordingStatus → Bool
is_error RecordingStatus.error = true
is_error other = false

abbrev pub is_done : RecordingStatus → Bool
is_done RecordingStatus.done = true
is_done other = false

abbrev pub is_quota_blocked : RecordingStatus → Bool
is_quota_blocked RecordingStatus.quota_blocked = true
is_quota_blocked other = false

-- _has_transcript: a stored result, also an empty one, or a segment
unfoldable pub has_transcript : List Segment → Recording → Bool
has_transcript segments r =
    is_some r.stt_meta || is_some (find_where (λ s. s.recording_id == r.id) segments)

-- resume_status of ingest.py
unfoldable pub resume_status : List Segment → Recording → RecordingStatus
unfolding has_transcript
resume_status segments r =
    if is_some r.duplicate_of_id
    then RecordingStatus.duplicate
    else if is_some r.summary
    then RecordingStatus.done
    else if has_transcript segments r
    then RecordingStatus.enriching
    else RecordingStatus.pending

-- the CASE expression of `retry_failed` and `release_quota_blocked`
unfoldable pub resume_case : List Segment → Recording → RecordingStatus
unfolding has_transcript
resume_case segments r =
    if is_some r.summary
    then RecordingStatus.done
    else if has_transcript segments r
    then RecordingStatus.enriching
    else RecordingStatus.pending

-- no row under an id is in flight
abbrev pub IsSettled : ℕ → Db → Type 0
IsSettled id db = All (λ x. x.id ≡ id → is_in_flight x.status ≡ false) db.recordings
