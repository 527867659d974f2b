-- ===== src/Tests/Stages.antt =====
-- worker.py: a transcription that succeeds, one that cannot reach the runner, and one whose file is
-- replaced in the meantime.
use soriham_api.Prelude.{◌≡◌, ◌≢◌, refl, true, false, none, some, List, [], ◌∷◌, ◌==◌, arith}
use soriham_api.Table.Best.{best}
use soriham_api.Table.{filter_where, sum_where, find_where, update_where}
use soriham_api.Worker.{Db, IsSettled}
use soriham_api.Worker.Source.{FileReads}
use soriham_api.Worker.Write.{completed}
use soriham_api.Worker.Transcribe.{
  Env, RunnerSegment, RunnerResult, result, unavailable, after_call, transcribe_stage, on_result,
  on_unavailable, lock_current_request, begun,
}
use soriham_api.Worker.Transcribe.Effects.{transcribe_stage-no_partial}
use soriham_api.Models.{RecordingStatus}
use mathlib.Core.Option
use soriham_api.Quota.{quota_exceeded, transcription_block, measure}
use soriham_api.Worker.Claim.{claim_next, stamp}
use soriham_api.Worker.Enrich.{EnrichEnv, broke}
use soriham_api.Worker.Process.{Turns, IsOurs, process_one, process_one-IsSettled}
use soriham_api.Worker.Loop.{Loop}
use soriham_api.Tests.Queue.{db, old, other, served}

abbrev unread : FileReads
unread = record { signature = none; hash = none; signature_after = none }

abbrev spoken : List RunnerSegment
spoken =
    record {
      start_ms = 0;
      end_ms = 61000;
      speaker = none;
      text = "hello";
      words = some [];
      kind = none;
    }
    ∷ []

abbrev heard : RunnerResult
heard = record { segments = some spoken; language = some "en"; meta = none }

abbrev good : Env
good = record {
  started = 1000;
  ended = 1100;
  fresh_id = 77;
  input = unread;
  answer = result heard;
  output = unread;
  is_storable = true;
  meanwhile = λ d. d;
}

abbrev away : Env
away = record good { answer = unavailable }

-- the file of every recording is replaced during the call
abbrev replaced : Env
replaced = record good {
  meanwhile = λ d. record d {
    recordings =
        update_where (λ r. r.id == 1) (λ r. record r { runner_request_id = none }) d.recordings;
  };
}

away_does_not : (transcribe_stage away db old).1 ≢ completed
unfolding transcribe_stage on_unavailable after_call lock_current_request update_where find_where
    begun
away_does_not = ground arith

transcribe_stage-no_partial_example :
    (transcribe_stage away db old).0.segments ≡ (after_call away db old).segments
transcribe_stage-no_partial_example = transcribe_stage-no_partial away db old away_does_not

replaced_loses : lock_current_request (after_call replaced db old) 1 77 ≡ none
unfolding after_call lock_current_request update_where find_where begun
replaced_loses = refl

-- an answer that the database refuses: the recording stays in transcription
abbrev refused_text : Env
refused_text = record good { is_storable = false }

refused_stays :
    Option.map
      (λ r. r.status)
      (find_where (λ r. r.id == 1) (transcribe_stage refused_text db old).0.recordings)
    ≡ some RecordingStatus.transcribing
unfolding transcribe_stage on_result after_call lock_current_request update_where find_where begun
refused_stays = refl

abbrev failing : EnrichEnv
failing = record {
  enrich_started = 1100;
  enrich_ended = 1200;
  enricher = some (λ d. broke d "no model");
}

abbrev turn : Turns
turn = record {
  locks = record { workspace_held = λ w. false; recording_held = λ r. false };
  claimed_at = 1000;
  transcribing = good;
  enriching = failing;
}

turn_claims : claim_next db turn.locks 1000 ≡ (stamp db 20 1000, some other)
unfolding claim_next find_where filter_where update_where best
turn_claims = refl

turn-IsOurs : IsOurs turn (stamp db 20 1000) other
unfolding after_call lock_current_request update_where find_where begun stamp
turn-IsOurs = λ e. refl

process_one-IsSettled_example : IsSettled 2 (process_one turn db).0
process_one-IsSettled_example =
    process_one-IsSettled turn db (stamp db 20 1000) other turn_claims turn-IsOurs (refl, λ d. refl)

-- one workspace whose minutes are used up
abbrev full : Db
full = record db {
  workspaces = record served { quota_minutes = some 0 } ∷ [];
  recordings = old ∷ [];
}

full_claims : claim_next full turn.locks 1000 ≡ (full, some old)
unfolding claim_next find_where filter_where update_where best
full_claims = refl

full_refuses :
    transcription_block full.workspaces full.logs full.recordings old 1000 ≡ some quota_exceeded
unfolding transcription_block find_where measure sum_where
full_refuses = refl

abbrev begun_loop : Loop
begun_loop = record {
  tables = record { queue = db; sessions = []; attempts = [] };
  since_maintenance = 19;
  pause = 0;
}
