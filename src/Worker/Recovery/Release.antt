-- ===== src/Worker/Recovery/Release.antt =====
-- Releasing what a quota held back: the cached, chunked loop does what one statement with the
-- worker's own quota check would do.
use soriham_api.Prelude.{
  ℕ, ◌≤◌, ◌≡◌, refl, ap, ◌∙◌, Bool, ◌&&◌, Option, some, List, [], ◌∷◌, arith, ◌==◌, length,
  Bool-cases, Option-cases, inl, inr,
}
use soriham_api.Table.{update_where, filter_where, All, Unique}
use soriham_api.Table.Chunks.{
  contains, keys_where, contains-keys_where, keys_where-filter_where, update_chunks-eq-update_where,
}
use soriham_api.Table.Rows.{update_where-congr}
use soriham_api.Models.{Recording, Segment}
use soriham_api.Quota.{Usage, allows_transcription}
use soriham_api.Worker.{Db}
use soriham_api.Worker.Recovery.{
  is_blocked_row, Cache, cached, measured, passes, freed_ids, recording_id_of, released,
  maintenance_chunk, release_chunks, release_quota_blocked,
}

module _ (db : Db) (now : ℕ) where
  abbrev IsSound : Cache → Type 0
  IsSound cache = All (λ e. e.1 ≡ measured db now e.0) cache

  cached-IsSound :
      (w : ℕ) (cache : Cache) (u : Option Usage)
      → IsSound cache
      → cached w cache ≡ some u
      → u ≡ measured db now w
  unfolding cached
  cached-IsSound w [] u h e = cc
  cached-IsSound w ((v, x) ∷ rest) u (hx, h) e = elim (Bool-cases (v == w)) [
    | inl f ↦
        let same : some x ≡ some u = rw f at e in
        let vw : v ≡ w = ground arith in rw (← vw) (let xu : x ≡ u = cc in rw (← xu) hx)
    | inr f ↦ cached-IsSound w rest u h (rw f at e)
  ]

  allowed : Recording → Bool
  allowed r = allows_transcription db.workspaces db.logs db.recordings r now

  passes-measured :
      (r : Recording) → passes (measured db now r.workspace_id) r.duration_ms ≡ allowed r
  unfolding measured allowed allows_transcription
  passes-measured r = ground arith

  freed_ids-eq-keys_where :
      (cache : Cache) (rows : List Recording)
      → IsSound cache
      → freed_ids db now cache rows ≡ keys_where recording_id_of allowed rows
  unfolding freed_ids
  freed_ids-eq-keys_where cache [] h = refl
  freed_ids-eq-keys_where cache (r ∷ rows) h = elim (Option-cases (cached r.workspace_id cache)) [
    | inl e ↦ rw (
      e,
      passes-measured r,
      freed_ids-eq-keys_where ((r.workspace_id, measured db now r.workspace_id) ∷ cache) rows
          (refl, h),
    )
    | inr (u, e) ↦ rw (
      e,
      cached-IsSound r.workspace_id cache u h e,
      passes-measured r,
      freed_ids-eq-keys_where cache rows h,
    )
  ]

-- primary key of recordings
abbrev pub same_id : Recording → Recording → Bool
same_id a b = a.id == b.id

release_chunks-eq-update_where :
    (rounds : ℕ) (segments : List Segment) (now : ℕ) (ids : List ℕ) (rows : List Recording)
    → length ids ≤ rounds
    → release_chunks rounds segments now ids rows
      ≡ update_where (λ r. contains ids r.id) (released segments now) rows
unfolding release_chunks
release_chunks-eq-update_where rounds segments now ids rows =
    update_chunks-eq-update_where recording_id_of maintenance_chunk (released segments now) rounds
      ids rows (omega arith) (λ r. refl) (λ r. refl)

-- Releasing what a quota held back, with its cache of measurements and its chunks of ids, puts back
-- exactly the held recordings that the worker's own check lets through now, each to its resume
-- point, and changes no other row. Ids of recordings are unique.
pub release_quota_blocked-exact :
    (db : Db) (now : ℕ)
    → Unique same_id db.recordings
    → (release_quota_blocked db now).0 ≡ record db {
      recordings =
          update_where
            (λ r.
              is_blocked_row r && allows_transcription db.workspaces db.logs db.recordings r now)
            (released db.segments now)
            db.recordings;
    }
unfolding release_quota_blocked allowed
release_quota_blocked-exact db now u =
    ap (λ (rs : List Recording). record db { recordings = rs })
      (release_chunks-eq-update_where _ db.segments now _ db.recordings le_self
        ∙ ap
            (λ (ids : List ℕ).
              update_where (λ r. contains ids r.id) (released db.segments now) db.recordings)
            (freed_ids-eq-keys_where db now [] (filter_where is_blocked_row db.recordings) tt
              ∙ keys_where-filter_where recording_id_of (allowed db now) is_blocked_row
                  db.recordings)
        ∙ update_where-congr _ _ (released db.segments now) db.recordings (
            contains-keys_where recording_id_of (λ r. is_blocked_row r && allowed db now r)
              db.recordings u))
  where
    le_self :
        length (freed_ids db now [] (filter_where is_blocked_row db.recordings))
        ≤ length (freed_ids db now [] (filter_where is_blocked_row db.recordings))
    le_self = omega arith
