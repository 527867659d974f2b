-- ===== src/Lib.antt =====
-- soriham-api: a service that registers audio recordings, transcribes and summarises them with a
-- worker, and opens them to members, to people and to links (src/soriham_api in the repository).
--
-- Parts and files.
-- Table: a database table as the list of its rows, with the statements that the program runs
--   (SELECT, UPDATE, DELETE, COUNT, SUM, ORDER BY ... LIMIT 1) and their laws.
-- Models: the row types of src/soriham_api/models.py. The other parts share them.
-- Permissions: src/soriham_api/permissions.py, the permission of a caller on a workspace and on
--   a recording. It reads the tables of members and shares.
-- RateLimit: src/soriham_api/ratelimit.py and the two wrappers of deps.py that run it in a
--   transaction of its own.
-- Auth: the login sessions of src/soriham_api/auth.py. The digest of a token and argon2's check
--   are arguments.
-- Quota: src/soriham_api/quota.py, the usage of a workspace and its limits.
-- Sharing: src/soriham_api/sharing.py, shares with a person or an address and share links. Its
--   rows are what Permissions reads.
-- Tenancy: src/soriham_api/tenancy.py, the use of invitations and the removal of a member;
--   Tenancy/Roles has roles and the issue of invitations, Tenancy/Accounts signup, approval and
--   the status of an account, Tenancy/Pending what is claimed at approval. Its member rows are
--   what Permissions reads, and a change of status ends sessions by Auth.
-- Files: src/soriham_api/files.py, the signature by which a file is told from another.
-- Ingest: src/soriham_api/ingest.py, the registration of a file (`ingest_file`) and the end of a
--   scan (Ingest/Sweep). What a call reads from the disk, and what other processes commit until
--   it has its locks, are fields of `Call`. It writes the rows that Worker takes up.
-- Watch: the handler of src/soriham_api/watch.py. Each section under its lock is a step; the
--   events that come while an item is processed are a field of `Attempt`. It calls
--   `ingest_file`, whose result is another field.
-- Deps: the other dependencies of src/soriham_api/deps.py. `current_principal` makes a caller of
--   a cookie by Auth, `recording_at` answers by Permissions.
-- Media: src/soriham_api/media.py. Media/Header reads a Range header, Media/Stream sends the
--   bytes, Media/Response answers with both. What each round of the stream meets is a `Look`.
-- Storage: src/soriham_api/storage.py, the folders that may be read from.
-- Uploads: src/soriham_api/uploads.py, the staging of an upload and its move to a free name.
-- Worker: src/soriham_api/worker.py. Worker/Recovery and Worker/Claim are the queue and its
--   maintenance, Worker/Transcribe and Worker/Enrich the two stages, Worker/Process one turn,
--   Worker/Loop the loop. It asks Quota before a recording goes to the runner and
--   `resume_status` of ingest.py for the point to resume at. The runner, the file reads, the
--   enricher and what other processes commit during a call are fields of `Env` and `EnrichEnv`,
--   and so is whether the database accepts what those wrote at the last commit of a stage.
-- Tests: runs on concrete rows, and each property at an input.
--
-- Conventions. Texts are `String`, keys and public ids numbers, nullable columns `Option`. An
-- instant is a number of seconds and an audio length a number of milliseconds, so the rounding
-- of the code's floats is not modelled. A function takes the tables it reads and returns the
-- tables it leaves; an exception is a value of the result. Comparisons with `now - interval` are
-- written with the interval on the other side, since subtraction on the natural numbers stops at
-- 0. Log messages are left out, and so are user-facing texts but for the answers of Deps. The
-- unique constraints of models.py are hypotheses of the theorems that rest on them.
--
-- Bounds and fuel. `claim_rounds` runs as many rounds as there are eligible workspaces, as the
-- code does. `update_chunks` has as many rounds as there are ids, and each takes a chunk of
-- them. `rounds` of Media/Stream has as many rounds as bytes were announced, and each sends at
-- least one; `next_path` has one more than there are paths in the way, and the candidates
-- differ; `emit` of Media/Decimal has one more than the number, and each divides it by ten.
-- `draw_slug` runs over the random tokens that are drawn, a list that is given.
--
-- Not modelled: the start of `run_worker` and its retry after a database failure, the walk of a
-- scan and backfill_content_hashes (ingest.py), the supervision of the watcher's threads
-- (watch.py), the cleaning of file names and of the staging folder (uploads.py), tags and
-- bootstrap (tenancy.py), and the HTTP routes. A beat or a progress report inside a call is part
-- of the field `meanwhile` of `Env`.
pub mod Prelude
pub mod Table
pub mod Files
pub mod Models
pub mod Permissions
pub mod RateLimit
pub mod Auth
pub mod Quota
pub mod Sharing
pub mod Tenancy
pub mod Deps
pub mod Media
pub mod Storage
pub mod Uploads
pub mod Watch
pub mod Worker
pub mod Ingest
mod Tests
