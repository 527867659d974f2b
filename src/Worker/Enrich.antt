-- ===== src/Worker/Enrich.antt =====
-- enrich_stage (worker.py): the summary after a transcription. The enricher is a program of its own
-- that writes to the tables; what it leaves, and whether it raises, is an argument.
use soriham_api.Prelude.{
  ℕ, ◌≡◌, refl, String, str_append, starts_with, Bool, true, false, Option, none, some, arith,
  if◌then◌else◌,
}
use soriham_api.Table.{find_where}
use soriham_api.Table.Rows.{All-update_where_new, All-map}
use soriham_api.Table.Find.{find_where-All_none}
use soriham_api.Models.{Recording, RecordingStatus, Stage, LogStatus}
use soriham_api.Worker.{Db, is_in_flight, IsSettled}
use soriham_api.Worker.Write.{
  Ending, completed, failed, has_id, write_recording, add_log, log_row, no_meta,
  diarize_error_prefix,
}

-- the tables are those after the last commit of the enricher; `broke` has the error's text, and
-- `refused` says that the database does not accept what is then to be committed with what it wrote
pub data Enrichment : Type 0 where
  enriched : Db → Enrichment
  broke : Db → String → Enrichment
  refused : Db → Enrichment

-- `enricher` is missing where none is configured
pub record EnrichEnv : Type 0 where
  pub enrich_started : ℕ
  pub enrich_ended : ℕ
  pub enricher : Option (Db → Enrichment)

abbrev pub is_summarizing : RecordingStatus → Bool
is_summarizing RecordingStatus.summarizing = true
is_summarizing other = false

-- the first commit: nothing is written for a recording that is marked already
abbrev pub begin_summary : EnrichEnv → Recording → Db → Db
begin_summary env r db =
    if is_summarizing r.status
    then db
    else write_recording r.id env.enrich_started
        (λ x. record x {
          status = RecordingStatus.summarizing;
          stage_started_at = some env.enrich_started;
        })
        db

-- the warning of the transcription stage, which outlives the summary
unfoldable pub carried : Option String → Option String
carried none = none
carried (some e) = if starts_with e diarize_error_prefix then some e else none

abbrev pub summarized : Option String → Recording → Recording
summarized error r = record r {
  error = error;
  status = if r.path_current then RecordingStatus.done else RecordingStatus.missing;
  progress = none;
  stage_started_at = none;
}

abbrev pub finish : EnrichEnv → Db → ℕ → (Recording → Option String) → Db
finish env db id error = write_recording id env.enrich_ended (λ x. summarized (error x) x) db

abbrev pub enrich_log : EnrichEnv → Db → Recording → LogStatus → Option String → Db
enrich_log env db r status error =
    add_log db (log_row db r Stage.enrich status env.enrich_started env.enrich_ended no_meta error)

-- for a recording that is gone, the last commit or the read after the rollback fails
abbrev pub on_enriched : EnrichEnv → Recording → Enrichment → Option Recording → Db × Ending
on_enriched env r (enriched db) none = (db, failed)
on_enriched env r (enriched db) (some now_there) =
    (finish env (enrich_log env db r LogStatus.done none) r.id (λ x. carried r.error), completed)
on_enriched env r (broke db e) none = (db, failed)
on_enriched env r (broke db e) (some now_there) = (
  finish env (enrich_log env db r LogStatus.error (some e)) r.id
      (λ x. some (str_append "enrich: " e)),
  completed,
)
on_enriched env r (refused db) there = (db, failed)

abbrev pub tables_of : Enrichment → Db
tables_of (enriched db) = db
tables_of (broke db e) = db
tables_of (refused db) = db

abbrev pub is_refused : Enrichment → Bool
is_refused (enriched db) = false
is_refused (broke db e) = false
is_refused (refused db) = true

-- whatever the tables hold, what the enricher writes is accepted
abbrev pub IsAccepted : Option (Db → Enrichment) → Type 0
IsAccepted none = Unit
IsAccepted (some enrich) = (db : Db) → is_refused (enrich db) ≡ false

abbrev pub on_plain : EnrichEnv → Db → ℕ → Option Recording → Db × Ending
on_plain env db id none = (db, failed)
on_plain env db id (some now_there) = (finish env db id (λ x. x.error), completed)

abbrev pub run_enricher : EnrichEnv → Recording → Db → Option (Db → Enrichment) → Db × Ending
run_enricher env r db none = on_plain env db r.id (find_where (has_id r.id) db.recordings)
run_enricher env r db (some enrich) =
    let answer = enrich db in
    on_enriched env r answer (find_where (has_id r.id) (tables_of answer).recordings)

unfoldable pub enrich_stage : EnrichEnv → Db → Recording → Db × Ending
unfolding carried log_row
enrich_stage env db r = run_enricher env r (begin_summary env r db) env.enricher

finish-IsSettled :
    (env : EnrichEnv) (db : Db) (id : ℕ) (error : Recording → Option String)
    → IsSettled id (finish env db id error)
finish-IsSettled env db id error =
    All-update_where_new (λ x. x.id ≡ id → is_in_flight x.status ≡ false) (has_id id)
      (λ r. record (summarized (error r) r) { updated_at = env.enrich_ended }) db.recordings
      (λ x _ _. ground arith) (λ x miss same. ground arith)

pub absent-IsSettled :
    (id : ℕ) (db : Db) → find_where (has_id id) db.recordings ≡ none → IsSettled id db
absent-IsSettled id db gone =
    All-map (λ x. has_id id x ≡ false) (λ x. x.id ≡ id → is_in_flight x.status ≡ false)
      db.recordings (λ x miss same. ground arith)
      (find_where-All_none (has_id id) db.recordings gone)

on_enriched-IsSettled :
    (env : EnrichEnv) (r : Recording) (a : Enrichment) (row : Option Recording)
    → find_where (has_id r.id) (tables_of a).recordings ≡ row
    → is_refused a ≡ false
    → IsSettled r.id (on_enriched env r a row).0
on_enriched-IsSettled env r (enriched db) none e ok = absent-IsSettled r.id db e
on_enriched-IsSettled env r (enriched db) (some x) e ok =
    finish-IsSettled env (enrich_log env db r LogStatus.done none) r.id (λ x. carried r.error)
on_enriched-IsSettled env r (broke db t) none e ok = absent-IsSettled r.id db e
on_enriched-IsSettled env r (broke db t) (some x) e ok =
    finish-IsSettled env (enrich_log env db r LogStatus.error (some t)) r.id
      (λ x. some (str_append "enrich: " t))
on_enriched-IsSettled env r (refused db) row e ok = cc

on_plain-IsSettled :
    (env : EnrichEnv) (db : Db) (id : ℕ) (row : Option Recording)
    → find_where (has_id id) db.recordings ≡ row
    → IsSettled id (on_plain env db id row).0
on_plain-IsSettled env db id none e = absent-IsSettled id db e
on_plain-IsSettled env db id (some x) e = finish-IsSettled env db id (λ x. x.error)

run_enricher-IsSettled :
    (env : EnrichEnv) (r : Recording) (db : Db) (f : Option (Db → Enrichment))
    → IsAccepted f
    → IsSettled r.id (run_enricher env r db f).0
run_enricher-IsSettled env r db none ok =
    on_plain-IsSettled env db r.id (find_where (has_id r.id) db.recordings) refl
run_enricher-IsSettled env r db (some enrich) ok =
    on_enriched-IsSettled env r (enrich db)
      (find_where (has_id r.id) (tables_of (enrich db)).recordings) refl (ok db)

-- Whatever the enricher does, failure and deletion of the recording included, no row under the
-- recording's id is in flight after the stage, provided that the database accepts what it wrote.
pub enrich_stage-IsSettled :
    (env : EnrichEnv) (db : Db) (r : Recording)
    → IsAccepted env.enricher
    → IsSettled r.id (enrich_stage env db r).0
unfolding enrich_stage
enrich_stage-IsSettled env db r = run_enricher-IsSettled env r (begin_summary env r db) env.enricher
