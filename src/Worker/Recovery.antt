-- ===== src/Worker/Recovery.antt =====
-- Putting recordings back into the queue (worker.py): after a crash, by hand, for a missing
-- summary, and when a quota has room again.
pub mod Resume
pub mod Release
use soriham_api.Prelude.{
  ℕ, zero, suc, ◌+◌, Bool, true, false, ◌&&◌, ◌||◌, Option, none, some, List, [], ◌∷◌, ◌==◌, ltb,
  is_none, is_some, if◌then◌else◌, length, take, drop,
}
use soriham_api.Table.Chunks.{update_chunks}
use soriham_api.Table.{find_where, filter_where, update_where, count_where}
use soriham_api.Models.{Workspace, Recording, RecordingStatus, Segment, JobLog}
use soriham_api.Quota.{Usage, measure, check_minutes, is_allowed}
use soriham_api.Worker.{
  Db, stale_after, is_in_flight, is_error, is_done, is_quota_blocked, has_transcript, resume_status,
  resume_case,
}

-- Recording.updated_at < now - STALE_AFTER
abbrev pub is_abandoned : ℕ → Recording → Bool
is_abandoned now r = is_in_flight r.status && r.path_current && ltb (r.updated_at + stale_after) now

unfoldable pub recovered : List Segment → ℕ → Recording → Recording
unfolding resume_status
recovered segments now r = record r {
  status = resume_status segments r;
  progress = none;
  stage_started_at = none;
  updated_at = now;
}

unfoldable pub recover_in_flight : Db → ℕ → Db × ℕ
unfolding recovered
recover_in_flight db now = (
  record db {
    recordings = update_where (is_abandoned now) (recovered db.segments now) db.recordings;
  },
  count_where (is_abandoned now) db.recordings,
)

-- the optional `workspace_id` of `retry_failed`
abbrev pub in_scope : Option ℕ → Recording → Bool
in_scope none r = true
in_scope (some w) r = r.workspace_id == w

abbrev pub is_failed : Option ℕ → Recording → Bool
is_failed scope r = is_error r.status && r.path_current && in_scope scope r

unfoldable pub retried : List Segment → ℕ → Recording → Recording
unfolding resume_case
retried segments now r = record r {
  status = resume_case segments r;
  error = none;
  progress = none;
  stage_started_at = none;
  updated_at = now;
}

unfoldable pub retry_failed : Db → Option ℕ → ℕ → Db × ℕ
unfolding retried
retry_failed db scope now = (
  record db { recordings = update_where (is_failed scope) (retried db.segments now) db.recordings },
  count_where (is_failed scope) db.recordings,
)

abbrev pub is_unenriched : List Segment → Recording → Bool
is_unenriched segments r =
    is_done r.status && r.path_current && is_none r.summary && has_transcript segments r

abbrev pub requeued : ℕ → Recording → Recording
requeued now r = record r { status = RecordingStatus.enriching; updated_at = now }

unfoldable pub requeue_unenriched : Db → ℕ → Db × ℕ
unfolding has_transcript
requeue_unenriched db now = (
  record db { recordings = update_where (is_unenriched db.segments) (requeued now) db.recordings },
  count_where (is_unenriched db.segments) db.recordings,
)

abbrev pub is_blocked_row : Recording → Bool
is_blocked_row r = is_quota_blocked r.status && r.path_current

-- the dictionary `usages`: what was measured for a workspace, or None for one that is gone
abbrev pub Cache : Type 0
Cache = List (ℕ × Option Usage)

unfoldable pub cached : ℕ → Cache → Option (Option Usage)
cached w [] = none
cached w ((v, u) ∷ rest) = if v == w then some u else cached w rest

abbrev pub measure_row : Db → ℕ → Option Workspace → Option Usage
measure_row db now none = none
measure_row db now (some w) = some (measure db.logs db.recordings w now)

unfoldable pub measured : Db → ℕ → ℕ → Option Usage
measured db now w = measure_row db now (find_where (λ x. x.id == w) db.workspaces)

-- a workspace is measured once
abbrev pub usage_for : Db → ℕ → Cache → ℕ → Option (Option Usage) → Option Usage × Cache
usage_for db now cache w none = (measured db now w, (w, measured db now w) ∷ cache)
usage_for db now cache w (some u) = (u, cache)

abbrev pub passes : Option Usage → Option ℕ → Bool
passes none duration = true
passes (some u) duration = is_allowed (check_minutes u duration)

-- the loop over the blocked rows
unfoldable pub freed_ids : Db → ℕ → Cache → List Recording → List ℕ
unfolding cached measured
freed_ids db now cache [] = []
freed_ids db now cache (r ∷ rows) =
    let (u, cache') = usage_for db now cache r.workspace_id (cached r.workspace_id cache) in
    let rest = freed_ids db now cache' rows in if passes u r.duration_ms then r.id ∷ rest else rest

abbrev pub released : List Segment → ℕ → Recording → Recording
released segments now r = record r {
  status = resume_case segments r;
  progress = none;
  stage_started_at = none;
  updated_at = now;
}

-- MAINTENANCE_CHUNK
abbrev pub maintenance_chunk : ℕ
maintenance_chunk = 200

abbrev pub recording_id_of : Recording → ℕ
recording_id_of r = r.id

-- one UPDATE for each chunk of ids: `range(0, len(freed), MAINTENANCE_CHUNK)`
unfoldable pub release_chunks : ℕ → List Segment → ℕ → List ℕ → List Recording → List Recording
unfolding resume_case update_chunks
release_chunks rounds segments now =
    update_chunks recording_id_of maintenance_chunk (released segments now) rounds

unfoldable pub release_quota_blocked : Db → ℕ → Db × ℕ
unfolding freed_ids release_chunks
release_quota_blocked db now =
    let freed = freed_ids db now [] (filter_where is_blocked_row db.recordings) in
    (
      record db { recordings = release_chunks (length freed) db.segments now freed db.recordings },
      length freed,
    )
