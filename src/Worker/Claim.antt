-- ===== src/Worker/Claim.antt =====
-- claim_next (worker.py): which recording is processed next. Rows that other workers hold
-- (FOR UPDATE SKIP LOCKED) are two tests on ids.
pub mod Select
pub mod Fair
use soriham_api.Prelude.{
  ℕ, zero, suc, ◌+◌, Bool, true, false, ◌&&◌, ◌||◌, not, Option, none, some, List, [], ◌∷◌, ◌==◌,
  ltb, if◌then◌else◌, length,
}
use soriham_api.Table.{filter_where, update_where}
use soriham_api.Table.Best.{best}
use soriham_api.Models.{Workspace, Recording, RecordingStatus}
use soriham_api.Worker.{Db, is_pending, is_enriching, is_claimable}
use soriham_api.Table.Chunks.{contains}

pub record Locks : Type 0 where
  pub workspace_held : ℕ → Bool
  pub recording_held : ℕ → Bool

-- recorded_at DESC NULLS LAST
abbrev pub newer_time : Option ℕ → Option ℕ → Bool
newer_time none t = false
newer_time (some s) none = true
newer_time (some s) (some t) = ltb t s

abbrev pub same_time : Option ℕ → Option ℕ → Bool
same_time none none = true
same_time none (some t) = false
same_time (some s) none = false
same_time (some s) (some t) = s == t

-- recorded_at DESC NULLS LAST, id DESC
unfoldable pub newer : Recording → Recording → Bool
newer a b =
    newer_time a.recorded_at b.recorded_at
    || (same_time a.recorded_at b.recorded_at && ltb b.id a.id)

-- last_claimed_at ASC NULLS FIRST
abbrev pub earlier_time : Option ℕ → Option ℕ → Bool
earlier_time none none = false
earlier_time none (some t) = true
earlier_time (some s) none = false
earlier_time (some s) (some t) = ltb s t

-- last_claimed_at ASC NULLS FIRST, id
unfoldable pub waits_longer : Workspace → Workspace → Bool
waits_longer a b =
    earlier_time a.last_claimed_at b.last_claimed_at
    || (same_time a.last_claimed_at b.last_claimed_at && ltb a.id b.id)

-- DISTINCT
unfoldable pub distinct : List ℕ → List ℕ
unfolding contains
distinct [] = []
distinct (x ∷ xs) = let rest = distinct xs in if contains rest x then rest else x ∷ rest

abbrev pub has_work : Recording → Bool
has_work r = is_claimable r.status && r.path_current

unfoldable pub workspace_ids : List Recording → List ℕ
workspace_ids [] = []
workspace_ids (r ∷ rows) = r.workspace_id ∷ workspace_ids rows

unfoldable pub workspaces_with_work : Db → List ℕ
unfolding workspace_ids distinct
workspaces_with_work db = distinct (workspace_ids (filter_where has_work db.recordings))

-- the WHERE clause of one tier
abbrev pub in_tier : (RecordingStatus → Bool) → Locks → ℕ → Recording → Bool
in_tier tier locks w r =
    r.workspace_id == w && tier r.status && r.path_current && not (locks.recording_held r.id)

abbrev pub or_else : Option Recording → Option Recording → Option Recording
or_else none b = b
or_else (some a) b = some a

-- _claim_in_workspace: the tiers of CLAIM_TIERS in turn
unfoldable pub claim_in_workspace : Db → Locks → ℕ → Option Recording
unfolding newer
claim_in_workspace db locks w =
    or_else (best newer (filter_where (in_tier is_pending locks w) db.recordings))
      (best newer (filter_where (in_tier is_enriching locks w) db.recordings))

abbrev pub is_candidate : List ℕ → Locks → Workspace → Bool
is_candidate eligible locks w = contains eligible w.id && not (locks.workspace_held w.id)

unfoldable pub longest_waiting : Db → Locks → List ℕ → Option Workspace
unfolding waits_longer contains
longest_waiting db locks eligible =
    best waits_longer (filter_where (is_candidate eligible locks) db.workspaces)

-- last_claimed_at = now
unfoldable pub stamp : Db → ℕ → ℕ → Db
stamp db w now = record db {
  workspaces =
      update_where (λ x. x.id == w) (λ x. record x { last_claimed_at = some now }) db.workspaces;
}

-- one round: the workspace is stamped also when it gives nothing; `next` is the rest of the loop
abbrev pub claim_or : Db → (Db → Db × Option Recording) → Option Recording → Db × Option Recording
claim_or db next none = next db
claim_or db next (some r) = (db, some r)

abbrev pub claim_round :
    Db → Locks → ℕ → (Db → Db × Option Recording) → Option Workspace → Db × Option Recording
claim_round db locks now next none = (db, none)
claim_round db locks now next (some w) =
    claim_or (stamp db w.id now) next (claim_in_workspace (stamp db w.id now) locks w.id)

-- `for _ in range(len(eligible))`
unfoldable pub claim_rounds : ℕ → Db → Locks → List ℕ → ℕ → Db × Option Recording
unfolding longest_waiting stamp claim_in_workspace
claim_rounds zero db locks eligible now = (db, none)
claim_rounds (suc n) db locks eligible now =
    claim_round db locks now (λ d. claim_rounds n d locks eligible now)
      (longest_waiting db locks eligible)

abbrev pub claim_from : List ℕ → Db → Locks → ℕ → Db × Option Recording
claim_from [] db locks now = (db, none)
claim_from (w ∷ []) db locks now = (db, claim_in_workspace db locks w)
claim_from (w ∷ v ∷ rest) db locks now =
    claim_rounds (length (w ∷ v ∷ rest)) db locks (w ∷ v ∷ rest) now

unfoldable pub claim_next : Db → Locks → ℕ → Db × Option Recording
unfolding workspaces_with_work claim_rounds
claim_next db locks now = claim_from (workspaces_with_work db) db locks now
