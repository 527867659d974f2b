-- ===== src/Ingest/Sweep.antt =====
-- The end of scan (ingest.py): recordings whose files are gone. What the walk over the folders found
-- is an argument: which scanned root owns a path, which roots were read to the end on one device,
-- the files that were seen, and the device of the nearest directory that is there.
pub mod Gone
pub mod Lost
use soriham_api.Prelude.{
  ℕ, ◌≡◌, ◌∙◌, refl, sym, ap, String, Bool, true, false, ◌&&◌, ◌||◌, not, Option, none, some, List,
  [], ◌∷◌, ◌==◌, ltb, opt_eq, str_eq, length, arith, Bool-cases, inl, inr, if◌then◌else◌,
}
use soriham_api.Files.{Signature}
use soriham_api.Table.{update_where, All, Unique}
use soriham_api.Table.Rows.{
  All-map2, update_where-update_where, update_where-none, update_where-congr,
}
use soriham_api.Table.Keys.{All-of_Row}
use soriham_api.Table.Chunks.{
  contains, keys_where, contains-keys_where, update_chunks, update_chunks-eq-update_where,
}
use soriham_api.Models.{Recording, RecordingStatus}
use soriham_api.Ingest.{is_missing, is_scan}
use soriham_api.Ingest.Places.{same_id}

pub record Walk : Type 0 where
  pub owner : String → Option ℕ
  pub complete : ℕ → Bool
  pub seen : List String
  pub device : String → Option ℕ

-- SCAN_COMMIT_EVERY
abbrev pub scan_commit_every : ℕ
scan_commit_every = 200

-- SWEEP_BLACKOUT_MIN
abbrev pub sweep_blackout_min : ℕ
sweep_blackout_min = 20

unfoldable pub is_seen : List String → String → Bool
is_seen [] path = false
is_seen (p ∷ ps) path = str_eq p path || is_seen ps path

-- `any(owner(path) == base for path in seen)`
unfoldable pub has_seen : Walk → ℕ → List String → Bool
has_seen walk base [] = false
has_seen walk base (p ∷ ps) = opt_eq (walk.owner p) base || has_seen walk base ps

-- the rows that a scan of the workspace answers for
abbrev pub is_scanned : ℕ → Recording → Bool
is_scanned workspace r =
    r.path_current && not (is_missing r.status) && r.workspace_id == workspace && is_scan r.source

-- the device of the registration is in view, if it was noted
abbrev pub on_device : Option ℕ → Option Signature → Bool
on_device found none = true
on_device found (some s) = opt_eq found s.device

unfoldable pub is_gone : Walk → ℕ → ℕ → Recording → Bool
unfolding is_seen
is_gone walk workspace base r =
    is_scanned workspace r
    && opt_eq (walk.owner r.path) base
    && walk.complete base
    && not (is_seen walk.seen r.path)
    && on_device (walk.device r.path) r.file_signature

abbrev pub id_of_row : Recording → ℕ
id_of_row r = r.id

-- gone_by_root[base]
abbrev pub gone_ids : Walk → ℕ → List Recording → ℕ → List ℕ
gone_ids walk workspace stored base = keys_where id_of_row (is_gone walk workspace base) stored

-- nothing at all was seen, and too much is gone: the disk is taken to be missing
unfoldable pub is_blackout : Walk → ℕ → List Recording → ℕ → Bool
unfolding has_seen is_gone
is_blackout walk workspace stored base =
    not (has_seen walk base walk.seen)
    && ltb sweep_blackout_min (length (gone_ids walk workspace stored base))

abbrev pub marked : ℕ → Recording → Recording
marked now r = record r { status = RecordingStatus.missing; updated_at = now }

unfoldable pub sweep_root : Walk → ℕ → ℕ → List Recording → ℕ → List Recording → List Recording
unfolding is_blackout update_chunks
sweep_root walk workspace now stored base rows =
    if is_blackout walk workspace stored base
    then rows
    else update_chunks id_of_row scan_commit_every (marked now)
        (length (gone_ids walk workspace stored base)) (gone_ids walk workspace stored base) rows

-- the roots in turn; what is gone was found before the first statement
unfoldable pub sweep_roots :
    Walk → ℕ → ℕ → List Recording → List ℕ → List Recording → List Recording
unfolding sweep_root
sweep_roots walk workspace now stored [] rows = rows
sweep_roots walk workspace now stored (base ∷ rest) rows =
    sweep_roots walk workspace now stored rest (sweep_root walk workspace now stored base rows)

unfoldable pub sweep_missing : Walk → ℕ → ℕ → List ℕ → List Recording → List Recording
unfolding sweep_roots
sweep_missing walk workspace now roots rows = sweep_roots walk workspace now rows roots rows

-- the condition of all roots together: some root that is in view misses the recording
abbrev pub is_lost : Walk → ℕ → List Recording → List ℕ → Recording → Bool
is_lost walk workspace stored [] r = false
is_lost walk workspace stored (base ∷ rest) r =
    not (is_blackout walk workspace stored base) && is_gone walk workspace base r
    || is_lost walk workspace stored rest r

module _ (walk : Walk) (workspace now : ℕ) (stored : List Recording) where
  abbrev is_listed : ℕ → ℕ → Bool
  is_listed base id =
      not (is_blackout walk workspace stored base)
      && contains (gone_ids walk workspace stored base) id

  abbrev is_listed_in : List ℕ → ℕ → Bool
  is_listed_in [] id = false
  is_listed_in (base ∷ rest) id = is_listed base id || is_listed_in rest id

  sweep_root-eq-update_where :
      (base : ℕ) (rows : List Recording)
      → sweep_root walk workspace now stored base rows
        ≡ update_where (λ r. is_listed base r.id) (marked now) rows
  unfolding sweep_root
  sweep_root-eq-update_where base rows =
      elim (Bool-cases (is_blackout walk workspace stored base)) [
        | inl e ↦ rw e (sym (update_where-none (λ r. false) (marked now) rows (λ r. refl)))
        | inr e ↦ rw e (
            update_chunks-eq-update_where id_of_row scan_commit_every (marked now)
              (length (gone_ids walk workspace stored base)) (gone_ids walk workspace stored base)
              rows (omega arith) (λ r. refl) (λ r. refl) (omega arith))
      ]

  sweep_roots-eq-update_where :
      (roots : List ℕ) (rows : List Recording)
      → sweep_roots walk workspace now stored roots rows
        ≡ update_where (λ r. is_listed_in roots r.id) (marked now) rows
  unfolding sweep_roots
  sweep_roots-eq-update_where [] rows =
      sym (update_where-none (λ r. false) (marked now) rows (λ r. refl))
  sweep_roots-eq-update_where (base ∷ rest) rows =
      sweep_roots-eq-update_where rest (sweep_root walk workspace now stored base rows)
      ∙ ap (update_where (λ r. is_listed_in rest r.id) (marked now))
          (sweep_root-eq-update_where base rows)
      ∙ update_where-update_where (λ r. is_listed base r.id) (λ r. is_listed_in rest r.id)
          (marked now) rows (λ r. refl) (λ r. refl)

  is_listed_in-eq-is_lost :
      Unique same_id stored
      → (roots : List ℕ)
      → All (λ r. is_listed_in roots r.id ≡ is_lost walk workspace stored roots r) stored
  is_listed_in-eq-is_lost unique [] =
      All-of_Row (λ r. is_listed_in [] r.id ≡ is_lost walk workspace stored [] r) stored
        (λ x _. refl)
  is_listed_in-eq-is_lost unique (base ∷ rest) =
      All-map2 stored
        (λ r
            (here : contains (gone_ids walk workspace stored base) r.id
              ≡ is_gone walk workspace base r)
            (later : is_listed_in rest r.id ≡ is_lost walk workspace stored rest r).
          rw (here, later) refl)
        (contains-keys_where id_of_row (is_gone walk workspace base) stored unique)
        (is_listed_in-eq-is_lost unique rest)

-- Where ids are unique, the chunked statements of all roots are one statement, whose condition is
-- `is_lost` on the rows before the first of them.
pub sweep_missing-eq-update_where :
    (walk : Walk) (workspace now : ℕ) (roots : List ℕ) (rows : List Recording)
    → Unique same_id rows
    → sweep_missing walk workspace now roots rows
      ≡ update_where (is_lost walk workspace rows roots) (marked now) rows
unfolding sweep_missing
sweep_missing-eq-update_where walk workspace now roots rows unique =
    sweep_roots-eq-update_where walk workspace now rows roots rows
    ∙ update_where-congr (λ r. is_listed_in walk workspace now rows roots r.id)
        (is_lost walk workspace rows roots) (marked now) rows
        (is_listed_in-eq-is_lost walk workspace now rows unique roots)
