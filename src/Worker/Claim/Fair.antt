-- ===== src/Worker/Claim/Fair.antt =====
-- The queue neither stalls nor starves a workspace.
use mathlib.Core.Path.{subst}
use soriham_api.Prelude.{
  ℕ, ◌≡◌, refl, ap, ◌∙◌, true, false, inl, inr, none, some, List, [], ◌∷◌, arith, Option-cases,
  Bool-cases, ◌==◌,
}
use soriham_api.Table.{filter_where, Row, here, there, All}
use soriham_api.Table.Rows.{All-Row}
use soriham_api.Table.Best.{best-none, best-Row, best-least, filter_where-Row, Row-filter_where}
use soriham_api.Models.{Recording, Workspace}
use soriham_api.Worker.{Db}
use soriham_api.Table.Chunks.{contains}
use soriham_api.Worker.Claim.{
  Locks, waits_longer, claim_in_workspace, claim_rounds, claim_from, claim_next, longest_waiting,
  is_candidate, stamp, workspaces_with_work, workspace_ids, distinct, has_work,
}
use soriham_api.Worker.Claim.Select.{claim_in_workspace-IsChosen}

-- no other worker holds a row
abbrev pub unlocked : Locks
unlocked = record { workspace_held = λ w. false; recording_held = λ r. false }

contains-distinct : (xs : List ℕ) (x : ℕ) → contains (distinct xs) x ≡ contains xs x
unfolding distinct contains
contains-distinct [] x = refl
contains-distinct (y ∷ ys) x = elim (Bool-cases (contains (distinct ys) y)) [
  | inl e ↦ rw e (elim (Bool-cases (y == x)) [
    | inl f ↦ let yx : y ≡ x = ground arith in rw f (rw yx at e)
    | inr f ↦ rw (f, contains-distinct ys x)
  ])
  | inr e ↦ rw (e, contains-distinct ys x)
]

contains-workspace_ids :
    (rows : List Recording) (w : ℕ)
    → contains (workspace_ids rows) w ≡ true
    → (r : Recording) × Row r rows × (r.workspace_id ≡ w)
unfolding contains workspace_ids
contains-workspace_ids [] w h = absurd (let bad : false ≡ true = h in cc)
contains-workspace_ids (x ∷ rows) w h = elim (Bool-cases (x.workspace_id == w)) [
  | inl e ↦ (x, here rows, ground arith)
  | inr e ↦
      let (r, row, eq) = contains-workspace_ids rows w (rw e at h) in (r, there x rows row, eq)
]

workspace_ids-contains :
    (rows : List Recording) (r : Recording)
    → Row r rows
    → contains (workspace_ids rows) r.workspace_id ≡ true
unfolding contains workspace_ids
workspace_ids-contains [] r row = elim row [ ]
workspace_ids-contains (x ∷ rows) r (here _) = ground arith
workspace_ids-contains (x ∷ rows) r (there _ _ row) =
    ground (arith, workspace_ids-contains rows r row)

module _ (db : Db) where
  -- a workspace is eligible exactly if one of its recordings waits
  eligible-Row :
      (w : ℕ)
      → contains (workspaces_with_work db) w ≡ true
      → (r : Recording) × Row r db.recordings × (has_work r ≡ true) × (r.workspace_id ≡ w)
  unfolding workspaces_with_work
  eligible-Row w h =
      let (r, row, eq) =
        contains-workspace_ids (filter_where has_work db.recordings) w
          (rw contains-distinct at h) in
      let (stored, test) = filter_where-Row has_work db.recordings r row in (r, stored, test, eq)

  Row-eligible :
      (r : Recording)
      → Row r db.recordings
      → has_work r ≡ true
      → contains (workspaces_with_work db) r.workspace_id ≡ true
  unfolding workspaces_with_work
  Row-eligible r row test =
      contains-distinct (workspace_ids (filter_where has_work db.recordings)) r.workspace_id
      ∙ workspace_ids-contains (filter_where has_work db.recordings) r
          (Row-filter_where has_work db.recordings r row test)

  -- an eligible workspace gives a recording when nothing is held
  eligible_gives :
      (w : ℕ)
      → contains (workspaces_with_work db) w ≡ true
      → (r : Recording) × (claim_in_workspace db unlocked w ≡ some r)
  eligible_gives w h = elim (Option-cases (claim_in_workspace db unlocked w)) [
    | inr (r, e) ↦ (r, e)
    | inl e ↦
        let (r, row, test, eq) = eligible-Row w h in
        let idle = (claim_in_workspace-IsChosen db unlocked w).1 e r row in absurd (ground arith)
  ]

waits_longer_asym : (a b : Workspace) → waits_longer a b ≡ true → waits_longer b a ≡ false
unfolding waits_longer
waits_longer_asym a b h = ground arith

waits_longer_negtrans :
    (a b c : Workspace)
    → waits_longer a b ≡ false
    → waits_longer b c ≡ false
    → waits_longer a c ≡ false
unfolding waits_longer
waits_longer_negtrans a b c h k = ground arith

waits_longer_irrefl : (a : Workspace) → waits_longer a a ≡ false
unfolding waits_longer
waits_longer_irrefl a = ground arith

-- the foreign key: the workspace of every recording is in its table
abbrev pub HasWorkspaces : Db → Type 0
HasWorkspaces db =
    All (λ r. (w : Workspace) × Row w db.workspaces × (w.id ≡ r.workspace_id)) db.recordings

no_candidate :
    (db : Db) (w : ℕ)
    → HasWorkspaces db
    → contains (workspaces_with_work db) w ≡ true
    → longest_waiting db unlocked (workspaces_with_work db) ≡ none
    → ⊥
unfolding longest_waiting
no_candidate db w fk h e =
    let eligible = workspaces_with_work db in
    let (r, row, test, eq) = eligible-Row db w h in
    let (v, stored, id) =
      All-Row (λ r. (w : Workspace) × Row w db.workspaces × (w.id ≡ r.workspace_id)) db.recordings r
        fk row in
    let same : v.id ≡ w = id ∙ eq in
    let candidate : is_candidate eligible unlocked v ≡ true = rw (same, h) in
    empty (best-none waits_longer (filter_where (is_candidate eligible unlocked) db.workspaces) e)
      (Row-filter_where (is_candidate eligible unlocked) db.workspaces v stored candidate)
  where
    empty : {l : List Workspace} {v : Workspace} → l ≡ [] → Row v l → ⊥
    empty {v} e r = elim (subst (Row v) e r) [ ]

first_round :
    (db : Db) (locks : Locks) (now w1 w2 : ℕ) (rest : List ℕ) (w : Workspace) (r : Recording)
    → workspaces_with_work db ≡ w1 ∷ w2 ∷ rest
    → longest_waiting db locks (w1 ∷ w2 ∷ rest) ≡ some w
    → claim_in_workspace (stamp db w.id now) locks w.id ≡ some r
    → claim_next db locks now ≡ (stamp db w.id now, some r)
unfolding claim_next claim_rounds
first_round db locks now w1 w2 rest w r many e g =
    ap (λ (ids : List ℕ). claim_from ids db locks now) many ∙ rw (e, g)

-- Where no other worker holds a row and at least two workspaces have work, a claim returns a
-- recording of the workspace that has waited longest among those with work (one that was never
-- served first), and stamps that workspace, and only that one, with the time of the claim.
pub claim_next-fair :
    (db : Db) (now w1 w2 : ℕ) (rest : List ℕ)
    → HasWorkspaces db
    → workspaces_with_work db ≡ w1 ∷ w2 ∷ rest
    → (w : Workspace) × (r : Recording) × (claim_next db unlocked now ≡ (stamp db w.id now, some r))
      × Row w db.workspaces
      × (r.workspace_id ≡ w.id)
      × ((v : Workspace)
          → Row v db.workspaces
          → contains (workspaces_with_work db) v.id ≡ true
          → waits_longer v w ≡ false)
claim_next-fair db now w1 w2 rest fk many =
    elim (Option-cases (longest_waiting db unlocked eligible)) [
      | inl e ↦ absurd (no_candidate db w1 fk (rw many (unfold contains in ground arith)) e)
      | inr (w, e) ↦
          let (row, test) =
            filter_where-Row (is_candidate eligible unlocked) db.workspaces w
              (best-Row waits_longer _ w (unfold longest_waiting in e)) in
          let work : contains eligible w.id ≡ true = ground arith in
          let (r, g) =
            eligible_gives (stamp db w.id now) w.id (unfold workspaces_with_work stamp in work) in
          let chosen = (claim_in_workspace-IsChosen (stamp db w.id now) unlocked w.id).0 r g in
          (
            w,
            r,
            first_round db unlocked now w1 w2 rest w r many (rw many at e) g,
            row,
            chosen.home,
            λ v rv tv.
                All-Row (λ x. waits_longer x w ≡ false)
                  (filter_where (is_candidate eligible unlocked) db.workspaces) v
                  (best-least waits_longer _ w waits_longer_asym waits_longer_negtrans
                    waits_longer_irrefl (unfold longest_waiting in e))
                  (Row-filter_where (is_candidate eligible unlocked) db.workspaces v rv (rw tv)),
          )
    ]
  where
    eligible : List ℕ
    eligible = workspaces_with_work db

nothing : (w : ℕ) → contains [] w ≡ true → ⊥
unfolding contains
nothing w h = cc

only : (w : ℕ) → contains (w ∷ []) w ≡ true
unfolding contains
only w = ground arith

single :
    (db : Db) (now w : ℕ) (r : Recording)
    → workspaces_with_work db ≡ w ∷ []
    → claim_in_workspace db unlocked w ≡ some r
    → claim_next db unlocked now ≡ (db, some r)
unfolding claim_next
single db now w r one g = ap (λ (ids : List ℕ). claim_from ids db unlocked now) one ∙ rw g

-- Where no other worker holds a row, nothing is claimed only if nothing waits.
pub claim_next-progress :
    (db : Db) (now : ℕ)
    → HasWorkspaces db
    → (claim_next db unlocked now).1 ≡ none
    → (r : Recording) → Row r db.recordings
    → has_work r ≡ false
claim_next-progress db now fk h r row = elim (Bool-cases (has_work r)) [
  | inr e ↦ e
  | inl e ↦ absurd (claims db now fk h (workspaces_with_work db) refl r row e)
]
  where
    claims :
        (db : Db) (now : ℕ)
        → HasWorkspaces db
        → (claim_next db unlocked now).1 ≡ none
        → (ids : List ℕ) → workspaces_with_work db ≡ ids
        → (r : Recording) → Row r db.recordings
        → has_work r ≡ true
        → ⊥
    claims db now fk h [] eq r row e =
        let listed = Row-eligible db r row e in absurd (nothing r.workspace_id (rw eq at listed))
    claims db now fk h (w ∷ []) eq r row e =
        let (s, g) = eligible_gives db w (rw eq (only w)) in
        let found : claim_next db unlocked now ≡ (db, some s) = single db now w s eq g in
        let bad : some s ≡ none = rw found at h in cc
    claims db now fk h (w ∷ v ∷ rest) eq r row e =
        let (x, s, found, _, _, _) = claim_next-fair db now w v rest fk eq in
        let bad : some s ≡ none = rw found at h in cc
