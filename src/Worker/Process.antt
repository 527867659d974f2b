-- ===== src/Worker/Process.antt =====
-- process_one and idle_maintenance (worker.py): one turn of the worker's loop. What goes on outside
-- the tables is an argument, per stage.
use soriham_api.Prelude.{
  ℕ, ◌≡◌, ◌≢◌, refl, String, Bool, true, false, Option, none, some, Option-cases, is_some, inl, inr,
  arith, if◌then◌else◌,
}
use soriham_api.Table.{find_where}
use soriham_api.Table.Find.{find_where-Row}
use soriham_api.Models.{Recording, RecordingStatus}
use soriham_api.Quota.{Refusal, quota_exceeded, duration_unknown, transcription_block}
use soriham_api.Worker.{Db, is_enriching, is_in_flight, IsSettled}
use soriham_api.Worker.Claim.{Locks, claim_next}
use soriham_api.Worker.Write.{
  Ending, completed, recording_changed, runner_unavailable, failed, has_id, write_recording,
}
use soriham_api.Worker.Transcribe.{
  Env, transcribe_stage, after_call, request_of, lock_current_request,
}
use soriham_api.Worker.Transcribe.Effects.{transcribe_stage-IsSettled, write_recording-All}
use soriham_api.Worker.Enrich.{
  EnrichEnv, enrich_stage, enrich_stage-IsSettled, IsAccepted, absent-IsSettled,
}

-- the return value, or RunnerUnavailable
pub data Turn : Type 0 where
  idle worked runner_away : Turn

pub record Turns : Type 0 where
  pub locks : Locks
  pub claimed_at : ℕ
  pub transcribing : Env
  pub enriching : EnrichEnv

-- the text of DurationUnknown
abbrev pub unknown_length : String
unknown_length = "오디오 길이를 읽지 못해 받을 수 없습니다. 다른 형식으로 변환해 다시 올려 주세요"

abbrev pub refused_row : Refusal → Recording → Recording
refused_row duration_unknown r = record r {
  status = RecordingStatus.error;
  error = some unknown_length;
}
refused_row quota_exceeded r = record r { status = RecordingStatus.quota_blocked }

-- the quota is for transcription: a recording that waits for its summary is not held back
unfoldable pub refusal : Db → Recording → ℕ → Option Refusal
unfolding transcription_block
refusal db r now =
    if is_enriching r.status
    then none
    else transcription_block db.workspaces db.logs db.recordings r now

-- the stage goes on with the row that the transcription stored
abbrev pub enrich_row : EnrichEnv → Db → Option Recording → Db × Turn
enrich_row env db none = (db, worked)
enrich_row env db (some r) = ((enrich_stage env db r).0, worked)

abbrev pub after_transcription : EnrichEnv → ℕ → Db → Ending → Db × Turn
after_transcription env id db completed = enrich_row env db (find_where (has_id id) db.recordings)
after_transcription env id db runner_unavailable = (db, runner_away)
after_transcription env id db recording_changed = (db, worked)
after_transcription env id db failed = (db, worked)

abbrev pub run_stages : Turns → Db → Recording → Bool → Db × Turn
run_stages t db r true = ((enrich_stage t.enriching db r).0, worked)
run_stages t db r false =
    let stage = transcribe_stage t.transcribing db r in
    after_transcription t.enriching r.id stage.0 stage.1

abbrev pub run_claimed : Turns → Db → Recording → Option Refusal → Db × Turn
run_claimed t db r none = run_stages t db r (is_enriching r.status)
run_claimed t db r (some e) = (write_recording r.id t.claimed_at (refused_row e) db, worked)

-- where nothing is claimed, nothing is committed
abbrev pub on_claim : Turns → Db → Db × Option Recording → Db × Turn
on_claim t db (stamped, none) = (db, idle)
on_claim t db (stamped, some r) = run_claimed t stamped r (refusal stamped r t.claimed_at)

unfoldable pub process_one : Turns → Db → Db × Turn
unfolding claim_next transcribe_stage enrich_stage refusal
process_one t db = on_claim t db (claim_next db t.locks t.claimed_at)

-- what the stages need so that no other process has taken the recording away
abbrev pub IsOurs : Turns → Db → Recording → Type 0
IsOurs t db r =
    is_enriching r.status ≡ false
    → is_some
        (lock_current_request (after_call t.transcribing db r) r.id (request_of t.transcribing r))
      ≡ true

-- the database accepts the texts of the runner and what the enricher writes
abbrev pub AreStorable : Turns → Type 0
AreStorable t = (t.transcribing.is_storable ≡ true) × IsAccepted t.enriching.enricher

module _ (t : Turns) (db : Db) (r : Recording) (ok : AreStorable t) where
  enrich_row-IsSettled :
      (row : Option Recording)
      → find_where (has_id r.id) db.recordings ≡ row
      → IsSettled r.id (enrich_row t.enriching db row).0
  enrich_row-IsSettled none e = absent-IsSettled r.id db e
  enrich_row-IsSettled (some x) e = rw (← same) (enrich_stage-IsSettled t.enriching db x ok.1)
    where
      same : x.id ≡ r.id
      same = let hit = (find_where-Row (has_id r.id) db.recordings x e).1 in ground arith

  after_transcription-IsSettled :
      (e : Ending)
      → (e ≢ completed → IsSettled r.id db)
      → IsSettled r.id (after_transcription t.enriching r.id db e).0
  after_transcription-IsSettled completed h =
      enrich_row-IsSettled (find_where (has_id r.id) db.recordings) refl
  after_transcription-IsSettled recording_changed h = h (λ x. cc)
  after_transcription-IsSettled runner_unavailable h = h (λ x. cc)
  after_transcription-IsSettled failed h = h (λ x. cc)

run_stages-IsSettled :
    (t : Turns) (db : Db) (r : Recording) (b : Bool)
    → is_enriching r.status ≡ b
    → IsOurs t db r
    → AreStorable t
    → IsSettled r.id (run_stages t db r b).0
run_stages-IsSettled t db r true e ours ok = enrich_stage-IsSettled t.enriching db r ok.1
run_stages-IsSettled t db r false e ours ok =
    elim (Option-cases
      (lock_current_request (after_call t.transcribing db r) r.id (request_of t.transcribing r))) [
        | inl gone ↦ let held = ours e in cc
        | inr (l, e') ↦
            after_transcription-IsSettled t (transcribe_stage t.transcribing db r).0 r ok
              (transcribe_stage t.transcribing db r).1
              (transcribe_stage-IsSettled t.transcribing db r l e' ok.0)
      ]

run_claimed-IsSettled :
    (t : Turns) (db : Db) (r : Recording) (e : Option Refusal)
    → IsOurs t db r
    → AreStorable t
    → IsSettled r.id (run_claimed t db r e).0
run_claimed-IsSettled t db r none ours ok =
    run_stages-IsSettled t db r (is_enriching r.status) refl ours ok
run_claimed-IsSettled t db r (some quota_exceeded) ours ok =
    write_recording-All (λ x. is_in_flight x.status ≡ false) r.id t.claimed_at
      (refused_row quota_exceeded) db (λ x. refl)
run_claimed-IsSettled t db r (some duration_unknown) ours ok =
    write_recording-All (λ x. is_in_flight x.status ≡ false) r.id t.claimed_at
      (refused_row duration_unknown) db (λ x. refl)

-- A turn of the worker that claimed a recording leaves no row under its id in flight, whatever the
-- quota, the runner, the files and the enricher answer, provided that a recording that waits for
-- transcription was not replaced or deleted during the call, and that the database accepts the texts
-- of the runner and what the enricher writes.
pub process_one-IsSettled :
    (t : Turns) (db stamped : Db) (r : Recording)
    → claim_next db t.locks t.claimed_at ≡ (stamped, some r)
    → IsOurs t stamped r
    → AreStorable t
    → IsSettled r.id (process_one t db).0
unfolding process_one
process_one-IsSettled t db stamped r e ours ok =
    rw e (run_claimed-IsSettled t stamped r (refusal stamped r t.claimed_at) ours ok)

-- A recording that the quota check refuses is held without the runner or the enricher: whatever
-- they would answer, the turn ends the same, and without a line in the ledger.
pub process_one-refused :
    (t t' : Turns) (db stamped : Db) (r : Recording) (e : Refusal)
    → t.locks ≡ t'.locks
    → t.claimed_at ≡ t'.claimed_at
    → claim_next db t.locks t.claimed_at ≡ (stamped, some r)
    → is_enriching r.status ≡ false
    → transcription_block stamped.workspaces stamped.logs stamped.recordings r t.claimed_at ≡ some e
    → (process_one t db ≡ process_one t' db) × ((process_one t db).0.logs ≡ stamped.logs)
unfolding process_one refusal
process_one-refused t t' db stamped r e l n c w b =
    (rw (← l) (rw (← n) (rw c (rw w (rw b refl)))), rw c (rw w (rw b refl)))
