-- ===== src/Worker/Claim/Select.antt =====
-- What is claimed: a free waiting recording, transcription before summaries, the newest first.
use mathlib.Core.Path.{subst}
use soriham_api.Prelude.{
  ℕ, zero, suc, ◌≡◌, refl, sym, length, Bool, true, false, inl, inr, Option, none, some, List, [],
  ◌∷◌, arith, Option-cases,
}
use soriham_api.Table.{filter_where, Row}
use soriham_api.Table.Rows.{All-Row}
use soriham_api.Table.Best.{
  best, best-none, best-Row, best-least, filter_where-Row, Row-filter_where,
}
use soriham_api.Models.{Recording, RecordingStatus}
use soriham_api.Worker.{Db, is_pending, is_enriching, is_claimable}
use soriham_api.Worker.Claim.{
  Locks, newer, in_tier, claim_in_workspace, claim_rounds, claim_from, claim_next, longest_waiting,
  stamp, workspaces_with_work,
}

newer_asym : (a b : Recording) → newer a b ≡ true → newer b a ≡ false
unfolding newer
newer_asym a b h = ground arith

newer_negtrans : (a b c : Recording) → newer a b ≡ false → newer b c ≡ false → newer a c ≡ false
unfolding newer
newer_negtrans a b c h k = ground arith

newer_irrefl : (a : Recording) → newer a a ≡ false
unfolding newer
newer_irrefl a = ground arith

-- the recording that a worker should take from the workspace `w`
pub record IsChosen (rows : List Recording) (locks : Locks) (w : ℕ) (r : Recording) : Type 0 where
  pub stored : Row r rows
  pub home : r.workspace_id ≡ w
  pub current : r.path_current ≡ true
  pub free : locks.recording_held r.id ≡ false
  pub waiting : is_claimable r.status ≡ true
  -- a recording that waits for a summary is taken only when none waits for transcription
  pub tiers :
      (y : Recording)
      → Row y rows
      → in_tier is_pending locks w y ≡ true
      → is_pending r.status ≡ true
  pub newest :
      (y : Recording) → Row y rows → in_tier is_pending locks w y ≡ true → newer y r ≡ false
  pub newest_summary :
      (y : Recording)
      → Row y rows
      → in_tier is_enriching locks w y ≡ true
      → is_enriching r.status ≡ true
      → newer y r ≡ false

module _ (rows : List Recording) (locks : Locks) (w : ℕ) (tier : RecordingStatus → Bool) where
  abbrev pool : List Recording
  pool = filter_where (in_tier tier locks w) rows

  tier-Row :
      (r : Recording) → best newer pool ≡ some r → Row r rows × (in_tier tier locks w r ≡ true)
  tier-Row r h = filter_where-Row (in_tier tier locks w) rows r (best-Row newer pool r h)

  tier_newest :
      (r y : Recording)
      → best newer pool ≡ some r
      → Row y rows
      → in_tier tier locks w y ≡ true
      → newer y r ≡ false
  tier_newest r y h row test =
      All-Row (λ y. newer y r ≡ false) pool y
        (best-least newer pool r newer_asym newer_negtrans newer_irrefl h)
        (Row-filter_where (in_tier tier locks w) rows y row test)

  tier_empty :
      (y : Recording) → best newer pool ≡ none → Row y rows → in_tier tier locks w y ≡ true → ⊥
  tier_empty y h row test =
      no_row y (best-none newer pool h) (Row-filter_where (in_tier tier locks w) rows y row test)
    where
      no_row : (y : Recording) {l : List Recording} → l ≡ [] → Row y l → ⊥
      no_row y e r = elim (subst (Row y) e r) [ ]

-- What is claimed in a workspace is the recording that should be taken, and nothing is claimed only
-- if nothing there is free and waiting.
pub claim_in_workspace-IsChosen :
    (db : Db) (locks : Locks) (w : ℕ)
    → ((r : Recording) → claim_in_workspace db locks w ≡ some r → IsChosen db.recordings locks w r)
      × (claim_in_workspace db locks w ≡ none
          → (y : Recording) → Row y db.recordings
          → in_tier is_claimable locks w y ≡ false)
unfolding claim_in_workspace
claim_in_workspace-IsChosen db locks w =
    elim (Option-cases (best newer (filter_where (in_tier is_pending locks w) db.recordings))) [
      | inr (p, e) ↦
          let (row, test) = tier-Row db.recordings locks w is_pending p e in
          (
            λ r h.
                let same : some p ≡ some r = rw e at h in
                let pr : p ≡ r = cc in
                subst (IsChosen db.recordings locks w) pr (record {
                  stored = row;
                  home = ground arith;
                  current = ground arith;
                  free = ground arith;
                  waiting = ground arith;
                  tiers = λ y _ _. ground arith;
                  newest = λ y ry ty. tier_newest db.recordings locks w is_pending p y e ry ty;
                  newest_summary = λ y ry ty en. ground arith;
                }),
            λ h. absurd (let bad : some p ≡ none = rw e at h in cc),
          )
      | inl e ↦
          let empty = tier_empty db.recordings locks w is_pending in
          elim (Option-cases
            (best newer (filter_where (in_tier is_enriching locks w) db.recordings))) [
              | inr (p, f) ↦
                  let (row, test) = tier-Row db.recordings locks w is_enriching p f in
                  (
                    λ r h.
                        let same : some p ≡ some r = rw (e, f) at h in
                        let pr : p ≡ r = cc in
                        subst (IsChosen db.recordings locks w) pr (record {
                          stored = row;
                          home = ground arith;
                          current = ground arith;
                          free = ground arith;
                          waiting = ground arith;
                          tiers = λ y ry ty. absurd (empty y e ry ty);
                          newest = λ y ry ty. absurd (empty y e ry ty);
                          newest_summary = λ y ry ty en.
                              tier_newest db.recordings locks w is_enriching p y f ry ty;
                        }),
                    λ h. absurd (let bad : some p ≡ none = rw (e, f) at h in cc),
                  )
              | inl f ↦ (
                λ r h. absurd (let bad : none ≡ some r = rw (e, f) at h in cc),
                λ h y ry.
                    not_claimable locks w y (empty y e ry)
                      (tier_empty db.recordings locks w is_enriching y f ry),
              )
            ]
    ]
  where
    not_claimable :
        (locks : Locks) (w : ℕ) (y : Recording)
        → ¬ (in_tier is_pending locks w y ≡ true)
        → ¬ (in_tier is_enriching locks w y ≡ true)
        → in_tier is_claimable locks w y ≡ false
    not_claimable locks w y a b = ground arith

module _ (locks : Locks) (eligible : List ℕ) (now : ℕ) where
  -- what a claim may do to the tables, and what it may return
  abbrev Claims : Db → Db × Option Recording → Type 0
  Claims db (db', found) =
      (db'.recordings ≡ db.recordings)
      × (db'.segments ≡ db.segments)
      × (db'.logs ≡ db.logs)
      × ((r : Recording) → found ≡ some r → IsChosen db.recordings locks r.workspace_id r)

  home_IsChosen :
      (db : Db) (w : ℕ) (r : Recording)
      → claim_in_workspace db locks w ≡ some r
      → IsChosen db.recordings locks r.workspace_id r
  home_IsChosen db w r h =
      let chosen = (claim_in_workspace-IsChosen db locks w).0 r h in
      subst (λ v. IsChosen db.recordings locks v r) (sym chosen.home) chosen

  claim_rounds-Claims : (n : ℕ) (db : Db) → Claims db (claim_rounds n db locks eligible now)
  unfolding claim_rounds
  claim_rounds-Claims zero db = (refl, refl, refl, λ r h. cc)
  claim_rounds-Claims (suc n) db = elim (Option-cases (longest_waiting db locks eligible)) [
    | inl e ↦ rw e (refl, refl, refl, λ r h. cc)
    | inr (w, e) ↦ elim (Option-cases (claim_in_workspace (stamp db w.id now) locks w.id)) [
      | inl f ↦ rw (e, f) (claim_rounds-Claims n (stamp db w.id now))
      | inr (r, f) ↦
          rw (e, f)
            (
              refl,
              refl,
              refl,
              λ s h.
                  let rs : r ≡ s = cc in
                  subst (λ v. IsChosen db.recordings locks v.workspace_id v) rs
                    (home_IsChosen (stamp db w.id now) w.id r f),
            )
    ]
  ]

claim_from-Claims :
    (locks : Locks) (now : ℕ) (ids : List ℕ) (db : Db)
    → Claims locks ids now db (claim_from ids db locks now)
claim_from-Claims locks now [] db = (refl, refl, refl, λ r h. cc)
claim_from-Claims locks now (w ∷ []) db =
    (refl, refl, refl, λ r h. home_IsChosen locks [] now db w r h)
claim_from-Claims locks now (w ∷ v ∷ rest) db =
    claim_rounds-Claims locks (w ∷ v ∷ rest) now (length (w ∷ v ∷ rest)) db

-- Whatever rows other workers hold, a claim leaves recordings, segments and the ledger alone, and a
-- recording that it returns is stored, current, free and waiting; no free recording of its workspace
-- waits for transcription if it waits for a summary only, and none of its tier there is newer.
pub claim_next-IsChosen :
    (db : Db) (locks : Locks) (now : ℕ)
    → ((claim_next db locks now).0.recordings ≡ db.recordings)
      × ((claim_next db locks now).0.segments ≡ db.segments)
      × ((claim_next db locks now).0.logs ≡ db.logs)
      × ((r : Recording)
          → (claim_next db locks now).1 ≡ some r
          → IsChosen db.recordings locks r.workspace_id r)
unfolding claim_next
claim_next-IsChosen db locks now = claim_from-Claims locks now (workspaces_with_work db) db
