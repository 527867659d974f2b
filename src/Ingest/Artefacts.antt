-- ===== src/Ingest/Artefacts.antt =====
-- A registration takes nothing from a recording that was made of it, whatever file stands at its path.
use soriham_api.Prelude.{
  ℕ, ◌≡◌, refl, Bool, List, ap, ◌∙◌, ◌==◌, Option, none, some, [], ◌∷◌, String, arith, Bool-cases,
  Option-cases, inl, inr, if◌then◌else◌,
}
use mathlib.Core.Option
use soriham_api.Files.{Signature}
use soriham_api.Table.{find_where, filter_where}
use soriham_api.Table.Find.{find_where-update_where, find_where-append}
use soriham_api.Models.{Recording, Segment, SttMeta}
use soriham_api.Worker.{Db}
use soriham_api.Worker.Write.{write_recording, has_id}
use soriham_api.Ingest.{
  Call, Contents, Ingested, is_at, is_elsewhere, is_same_file, is_scan, place, settle, register,
  register_at, rediscover, rediscovered, let_go, let_go_of, moved_here, new_recording, find_moved,
  find_original, ingest_file, add_recording,
}
use soriham_api.Ingest.Register.{Course, known, stopped, overtaken, through, ingest_file-Course}

-- what was made of a recording, and who owns it
pub record Artefacts : Type 0 where
  pub owner : ℕ
  pub title : Option String
  pub summary : Option String
  pub language : Option String
  pub report : Option SttMeta

abbrev pub artefacts_of : Recording → Artefacts
artefacts_of r = record {
  owner = r.workspace_id;
  title = r.title;
  summary = r.summary;
  language = r.language;
  report = r.stt_meta;
}

-- the row under an id still has what was made of it
abbrev KeepsRow : ℕ → Recording → Db → Type 0
KeepsRow id r db =
    Option.map artefacts_of (find_where (has_id id) db.recordings) ≡ some (artefacts_of r)

-- a line of the transcript of a recording
abbrev pub is_line : ℕ → Segment → Bool
is_line id s = s.recording_id == id

-- the row under an id still has what was made of it, and its transcript is these lines
abbrev pub Keeps : ℕ → Recording → List Segment → Db → Type 0
Keeps id r lines db = KeepsRow id r db × (filter_where (is_line id) db.segments ≡ lines)

write_recording-Keeps :
    (db : Db) (i now id : ℕ) (f : Recording → Recording) (r : Recording)
    → ((x : Recording) → (f x).id ≡ x.id)
    → ((x : Recording) → artefacts_of (f x) ≡ artefacts_of x)
    → KeepsRow id r db
    → KeepsRow id r (write_recording i now f db)
write_recording-Keeps db i now id f r ids same kept =
    rw
      (find_where-update_where (has_id id) (has_id i) (λ x. record (f x) { updated_at = now })
        db.recordings (λ x. ap (λ t. t == id) (ids x)))
      (artefacts-map (find_where (has_id id) db.recordings) ∙ kept)
  where
    artefacts-map :
        (o : Option Recording)
        → Option.map artefacts_of
            (Option.map (λ x. if has_id i x then record (f x) { updated_at = now } else x) o)
          ≡ Option.map artefacts_of o
    artefacts-map none = refl
    artefacts-map (some x) = elim (Bool-cases (has_id i x)) [
      | inl e ↦ rw e (ap some (same x))
      | inr e ↦ rw e refl
    ]

add_recording-Keeps :
    (db : Db) (new : Recording) (id : ℕ) (r : Recording)
    → KeepsRow id r db
    → KeepsRow id r (add_recording db new)
add_recording-Keeps db new id r kept =
    rw (find_where-append (has_id id) db.recordings (new ∷ []))
      (elim (Option-cases (find_where (has_id id) db.recordings)) [
        | inl e ↦
            let bad : Option.map artefacts_of none ≡ some (artefacts_of r) = rw e at kept in cc
        | inr (x, e) ↦ rw e (rw e at kept)
      ])

module _ (c : Call) (s : Signature) (k : Contents) (id : ℕ) (r : Recording) where
  settle-Keeps :
      (db : Db) (row : Option Recording) → KeepsRow id r db → KeepsRow id r (settle db c s k row).0
  unfolding moved_here
  settle-Keeps db none kept =
      let original = find_original c.disk_again db.recordings c.workspace_id k.full k.digest in
      add_recording-Keeps db (new_recording c s k original) id r kept
  settle-Keeps db (some x) kept =
      write_recording-Keeps db x.id c.now id (moved_here db c s k) r (λ y. refl) (λ y. refl) kept

  place-Keeps : (db : Db) → KeepsRow id r db → KeepsRow id r (place db c s k).0
  unfolding place
  place-Keeps db = settle-Keeps db (find_moved c.disk db.recordings c.workspace_id k.full)

  rediscover-Keeps :
      (db : Db) (x : Recording) → KeepsRow id r db → KeepsRow id r (rediscover db c s k x).0
  unfolding rediscovered
  rediscover-Keeps db x =
      write_recording-Keeps db x.id c.now id (rediscovered db s k) r (λ y. ground arith)
        (λ y. ground arith)

  register_at-Keeps :
      (db : Db) (row : Option Recording)
      → KeepsRow id r db
      → KeepsRow id r (register_at db c s k row).0
  register_at-Keeps db none kept = place-Keeps db kept
  register_at-Keeps db (some x) kept = elim (Bool-cases (is_elsewhere c x)) [
    | inl f ↦ rw f kept
    | inr f ↦ rw f (elim (Bool-cases (is_same_file k x)) [
      | inl g ↦ rw g (rediscover-Keeps db x kept)
      | inr g ↦ rw g (elim (Bool-cases (is_scan c.source)) [
        | inl h ↦ rw h (
            place-Keeps (let_go_of db c x)
              (write_recording-Keeps db x.id c.now id let_go r (λ y. refl) (λ y. refl) kept))
        | inr h ↦ rw h kept
      ])
    ])
  ]

  register-Keeps : (db : Db) → KeepsRow id r db → KeepsRow id r (register db c s k).0
  unfolding register
  register-Keeps db = register_at-Keeps db (find_where (is_at c.path) db.recordings)

Course-KeepsRow :
    (db : Db) (c : Call) (out : Db × Ingested) (id : ℕ) (r : Recording)
    → Course db c out
    → KeepsRow id r db
    → KeepsRow id r (c.meanwhile db)
    → KeepsRow id r out.0
Course-KeepsRow db c out id r (known x e) kept later = rw e kept
Course-KeepsRow db c out id r (stopped x e) kept later = rw e kept
Course-KeepsRow db c out id r (overtaken x e) kept later = rw e later
Course-KeepsRow db c out id r (through s k es ek e) kept later =
    rw e (register-Keeps c s k id r (c.meanwhile db) later)

settle-segments :
    (db : Db) (c : Call) (s : Signature) (k : Contents) (row : Option Recording)
    → (settle db c s k row).0.segments ≡ db.segments
settle-segments db c s k none = refl
settle-segments db c s k (some x) = refl

register_at-segments :
    (db : Db) (c : Call) (s : Signature) (k : Contents) (row : Option Recording)
    → (register_at db c s k row).0.segments ≡ db.segments
unfolding place
register_at-segments db c s k none =
    settle-segments db c s k (find_moved c.disk db.recordings c.workspace_id k.full)
register_at-segments db c s k (some x) =
    let moved_to =
      settle-segments (let_go_of db c x) c s k
        (find_moved c.disk (let_go_of db c x).recordings c.workspace_id k.full) in
    ground arith

Course-lines :
    (db : Db) (c : Call) (out : Db × Ingested) (P : List Segment → Type 0)
    → Course db c out
    → P db.segments
    → P (c.meanwhile db).segments
    → P out.0.segments
unfolding register
Course-lines db c out P (known x e) kept later = rw e kept
Course-lines db c out P (stopped x e) kept later = rw e kept
Course-lines db c out P (overtaken x e) kept later = rw e later
Course-lines db c out P (through s k es ek e) kept later =
    let now = c.meanwhile db in
    rw (e, register_at-segments now c s k (find_where (is_at c.path) now.recordings)) later

-- A recording that is there before the call, and still when it has the locks, is there after it with
-- its title, summary, language, transcription report, workspace and every line of its transcript,
-- whatever becomes of the file at the path.
pub ingest_file-Keeps :
    (db : Db) (c : Call) (id : ℕ) (r : Recording) (lines : List Segment)
    → Keeps id r lines db
    → Keeps id r lines (c.meanwhile db)
    → Keeps id r lines (ingest_file db c).0
ingest_file-Keeps db c id r lines (row, transcript) (row', transcript') =
    let course = ingest_file-Course db c in
    (
      Course-KeepsRow db c (ingest_file db c) id r course row row',
      Course-lines db c (ingest_file db c) (λ segments. filter_where (is_line id) segments ≡ lines)
          course transcript transcript',
    )
