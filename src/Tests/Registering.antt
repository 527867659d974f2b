-- ===== src/Tests/Registering.antt =====
-- ingest.py: a scanned file is replaced at its path, and another one is gone.
use soriham_api.Prelude.{Bool, ◌↔◌, ◌≡◌, refl, true, false, none, some, [], ◌∷◌}
use soriham_api.Files.{Signature}
use soriham_api.Table.{find_where, filter_where, update_where}
use soriham_api.Models.{Recording, Segment, RecordingStatus, RecordingSource}
use soriham_api.Worker.{Db}
use soriham_api.Worker.Recovery.Resume.{NoRedo}
use soriham_api.Ingest.{Call, ingest_file}
use soriham_api.Ingest.Places.{HasKeys}
use soriham_api.Ingest.Register.{ingest_file-HasKeys}
use soriham_api.Ingest.Artefacts.{Keeps, ingest_file-Keeps}
use soriham_api.Ingest.Queue.{ingest_file-NoRedo}
use soriham_api.Ingest.Sweep.{Walk, sweep_missing}
use soriham_api.Ingest.Sweep.Lost.{IsLost, sweep_missing-exact}
use soriham_api.Tests.Queue.{old, served, line}

abbrev scanned : Recording
scanned = record old {
  source = RecordingSource.scan;
  status = RecordingStatus.done;
  summary = some "kept";
}

abbrev stored : Db
stored = record { workspaces = served ∷ []; recordings = scanned ∷ []; segments = []; logs = [] }

abbrev now_there : Signature
now_there = record { device = 1; inode = 2; size = 5; mtime = 3; ctime = 4 }

abbrev replaced : Call
replaced = record {
  path = "/data/w/1.m4a";
  name = "1.m4a";
  workspace_id = 10;
  source = RecordingSource.scan;
  created_by = none;
  verify_existing = false;
  signature = some now_there;
  contents = some (record { digest = "q"; full = "02"; duration_ms = some 9 });
  signature_read = some now_there;
  meanwhile = λ db. db;
  signature_locked = some now_there;
  disk = record {
    signature = λ p. some now_there;
    hash = λ p. some "02";
    signature_after = λ p. some now_there;
  };
  disk_again = record { signature = λ p. none; hash = λ p. none; signature_after = λ p. none };
  recorded_at = none;
  fresh_id = 9;
  fresh_public_id = 709;
  now = 50;
}

keys : HasKeys stored
keys = ((tt, tt), (tt, tt))

ingest_file-HasKeys_example : HasKeys (ingest_file stored replaced).0
ingest_file-HasKeys_example = ingest_file-HasKeys stored replaced keys keys (refl, tt)

abbrev segment : Segment
segment = record line { recording_id = 1 }

abbrev transcribed : Db
transcribed = record stored { segments = segment ∷ [] }

kept : Keeps 1 scanned (segment ∷ []) transcribed
unfolding find_where filter_where
kept = (refl, refl)

ingest_file-Keeps_example : Keeps 1 scanned (segment ∷ []) (ingest_file transcribed replaced).0
ingest_file-Keeps_example =
    ingest_file-Keeps transcribed replaced 1 scanned (segment ∷ []) kept kept

settled : NoRedo stored
settled = (λ h e. cc, tt)

ingest_file-NoRedo_example : NoRedo (ingest_file stored replaced).0
unfolding find_where
ingest_file-NoRedo_example = ingest_file-NoRedo stored replaced refl settled settled

abbrev walk : Walk
walk = record {
  owner = λ p. some 0;
  complete = λ b. true;
  seen = "/data/x" ∷ [];
  device = λ p. some 1;
}

sweep_missing-exact_example :
    (lost : Recording → Bool) × ((r : Recording)
      → (lost r ≡ true) ↔ IsLost walk 10 (scanned ∷ []) (0 ∷ []) r)
    × (sweep_missing walk 10 50 (0 ∷ []) (scanned ∷ [])
        ≡ update_where lost
            (λ r. record r { status = RecordingStatus.missing; updated_at = 50 })
            (scanned ∷ []))
sweep_missing-exact_example = sweep_missing-exact walk 10 50 (0 ∷ []) (scanned ∷ []) (tt, tt)
