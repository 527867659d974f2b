-- ===== src/Ingest/Places.antt =====
-- The keys of the recordings under registration: no two rows hold one path at a time.
use soriham_api.Prelude.{
  ℕ, String, ◌≡◌, ◌∙◌, refl, sym, ap, Bool, true, false, ◌&&◌, ◌==◌, Option, none, some, str_eq,
  eq_iff, arith, Bool-cases, inl, inr,
}
use soriham_api.Files.{Signature}
use soriham_api.Table.{find_where, All, Row, Unique}
use soriham_api.Table.Rows.{All-map, All-update_where, Unique-append}
use soriham_api.Table.Keys.{
  All-of_Row, Takes, All-update_where_Row, Unique-update_where_sub, Unique-update_where_fresh,
}
use soriham_api.Table.Find.{find_where-All_none, find_where-Unique}
use soriham_api.Models.{Recording}
use soriham_api.Worker.{Db}
use soriham_api.Worker.Write.{write_recording, has_id}
use soriham_api.Ingest.{
  Call, Contents, is_at, is_elsewhere, is_same_file, is_scan, place, settle, insert_new, register,
  register_at, rediscover, rediscovered, let_go, let_go_of, moved_here, new_recording, find_moved,
  find_original,
}

abbrev pub same_id : Recording → Recording → Bool
same_id a b = a.id == b.id

-- uq_recordings_current_path
abbrev pub same_place : Recording → Recording → Bool
same_place a b = a.path_current && b.path_current && str_eq a.path b.path

abbrev pub HasKeys : Db → Type 0
HasKeys db = Unique same_id db.recordings × Unique same_place db.recordings

-- a key that the database has not given yet
abbrev pub IsFresh : ℕ → Db → Type 0
IsFresh id db = All (λ x. (x.id == id) ≡ false) db.recordings

same_place-at :
    (path : String) (a b : Recording) → a.path ≡ path → same_place a b ≡ true → is_at path b ≡ true
same_place-at path a b e h =
    let same : str_eq a.path b.path ≡ true = ground arith in
    let eq : a.path ≡ b.path = (eq_iff a.path b.path).0 same in
    let at : str_eq b.path path ≡ true = (eq_iff b.path path).1 (sym eq ∙ e) in ground arith

same_place-at_left :
    (path : String) (a b : Recording) → b.path ≡ path → same_place a b ≡ true → is_at path a ≡ true
same_place-at_left path a b e h =
    let same : str_eq a.path b.path ≡ true = ground arith in
    let eq : a.path ≡ b.path = (eq_iff a.path b.path).0 same in
    let at : str_eq a.path path ≡ true = (eq_iff a.path path).1 (eq ∙ e) in ground arith

at_one_place :
    (path : String) (a b : Recording)
    → is_at path a ≡ true
    → is_at path b ≡ true
    → same_place a b ≡ true
at_one_place path a b ha hb =
    let ea : str_eq a.path path ≡ true = ground arith in
    let eb : str_eq b.path path ≡ true = ground arith in
    let eq : str_eq a.path b.path ≡ true =
      (eq_iff a.path b.path).1 ((eq_iff a.path path).0 ea ∙ sym ((eq_iff b.path path).0 eb)) in
    ground arith

-- a write that keeps ids, and makes a row current nowhere that it was not
module _ (db : Db) (id now : ℕ) (f : Recording → Recording)
    (ids : (x : Recording) → (f x).id ≡ x.id) (keys : HasKeys db) where
  ids_kept : Unique same_id (write_recording id now f db).recordings
  ids_kept =
      Unique-update_where_sub same_id (has_id id) (λ r. record (f r) { updated_at = now })
        db.recordings (λ x y h. rw (← ids x) h) (λ x y h. rw (← ids y) h) keys.0

  write_recording-HasKeys :
      ((x y : Recording) → same_place (f x) y ≡ true → same_place x y ≡ true)
      → ((x y : Recording) → same_place x (f y) ≡ true → same_place x y ≡ true)
      → HasKeys (write_recording id now f db)
  write_recording-HasKeys l r = (
    ids_kept,
    Unique-update_where_sub same_place (has_id id) (λ r. record (f r) { updated_at = now })
        db.recordings l r keys.1,
  )

  move-HasKeys :
      (path : String)
      → ((x : Recording) → (f x).path ≡ path)
      → All (λ x. is_at path x ≡ false) db.recordings
      → HasKeys (write_recording id now f db)
  move-HasKeys path there free = (
    ids_kept,
    Unique-update_where_fresh same_place same_id (is_at path) (has_id id)
        (λ r. record (f r) { updated_at = now }) db.recordings (λ x y hx hy. ground arith)
        (All-of_Row
          (λ x.
            has_id id x ≡ true → Takes same_place (is_at path) (record (f x) { updated_at = now }))
          db.recordings
          (λ x _ _. (
            λ y h. same_place-at path (f x) y (there x) h,
            λ y h. same_place-at_left path y (f x) (there x) h,
          )))
        keys.0 keys.1 free,
  )

module _ (db : Db) (s : Signature) (k : Contents) (x : Recording) where
  rediscovered-keys :
      ((rediscovered db s k x).id ≡ x.id)
      × ((rediscovered db s k x).path ≡ x.path)
      × ((rediscovered db s k x).path_current ≡ x.path_current)
  unfolding rediscovered
  rediscovered-keys = (ground arith, ground arith, ground arith)

  rediscovered-same_place : (y : Recording) → same_place (rediscovered db s k x) y ≡ same_place x y
  rediscovered-same_place y =
      let e = rediscovered-keys in
      ap (λ t. t && y.path_current && str_eq (rediscovered db s k x).path y.path) e.2
      ∙ ap (λ t. x.path_current && y.path_current && str_eq t y.path) e.1

  same_place-rediscovered : (y : Recording) → same_place y (rediscovered db s k x) ≡ same_place y x
  same_place-rediscovered y =
      let e = rediscovered-keys in
      ap (λ t. y.path_current && t && str_eq y.path (rediscovered db s k x).path) e.2
      ∙ ap (λ t. y.path_current && x.path_current && str_eq y.path t) e.1

module _ (c : Call) (s : Signature) (k : Contents) where
  insert_new-HasKeys :
      (db : Db) (original : Option Recording)
      → HasKeys db
      → IsFresh c.fresh_id db
      → All (λ x. is_at c.path x ≡ false) db.recordings
      → HasKeys (insert_new db c s k original).0
  unfolding new_recording
  insert_new-HasKeys db original keys fresh free = (
    Unique-append same_id db.recordings (new_recording c s k original) keys.0 fresh,
    Unique-append same_place db.recordings (new_recording c s k original) keys.1 (
        All-map (λ x. is_at c.path x ≡ false)
          (λ x. same_place x (new_recording c s k original) ≡ false) db.recordings
          (λ x h. ground arith) free),
  )

  settle-HasKeys :
      (db : Db) (row : Option Recording)
      → HasKeys db
      → IsFresh c.fresh_id db
      → All (λ x. is_at c.path x ≡ false) db.recordings
      → HasKeys (settle db c s k row).0
  unfolding moved_here
  settle-HasKeys db none keys fresh free =
      insert_new-HasKeys db
        (find_original c.disk_again db.recordings c.workspace_id k.full k.digest) keys fresh free
  settle-HasKeys db (some r) keys fresh free =
      move-HasKeys db r.id c.now (moved_here db c s k) (λ x. refl) keys c.path (λ x. refl) free

  rediscover-HasKeys : (db : Db) (r : Recording) → HasKeys db → HasKeys (rediscover db c s k r).0
  rediscover-HasKeys db r keys =
      write_recording-HasKeys db r.id c.now (rediscovered db s k)
        (λ x. (rediscovered-keys db s k x).0) keys
        (λ x y h. sym (rediscovered-same_place db s k x y) ∙ h)
        (λ x y h. sym (same_place-rediscovered db s k y x) ∙ h)

  let_go-HasKeys : (db : Db) (r : Recording) → HasKeys db → HasKeys (let_go_of db c r)
  let_go-HasKeys db r keys =
      write_recording-HasKeys db r.id c.now let_go (λ x. refl) keys (λ x y h. cc)
        (λ x y h. ground arith)

  -- the row of the path was the only one there
  let_go-free :
      (db : Db) (r : Recording)
      → HasKeys db
      → find_where (is_at c.path) db.recordings ≡ some r
      → All (λ x. is_at c.path x ≡ false) (let_go_of db c r).recordings
  let_go-free db r keys e =
      All-update_where_Row (λ x. is_at c.path x ≡ false) (has_id r.id)
        (λ x. record (let_go x) { updated_at = c.now }) db.recordings (λ x _ _. ground arith)
        (λ x row apart. elim (Bool-cases (is_at c.path x)) [
          | inl there ↦ absurd (only x row there apart)
          | inr away ↦ away
        ])
    where
      only :
          (x : Recording) → Row x db.recordings → is_at c.path x ≡ true → has_id r.id x ≡ false → ⊥
      only x row there apart =
          let found : find_where (is_at c.path) db.recordings ≡ some x =
            find_where-Unique same_place (is_at c.path) db.recordings x keys.1
              (λ y hy hx. at_one_place c.path y x hy hx) row there in
          let eq : r ≡ x = cc in let id : r.id ≡ x.id = ap (λ t. t.id) eq in ground arith

  let_go-IsFresh :
      (db : Db) (r : Recording) → IsFresh c.fresh_id db → IsFresh c.fresh_id (let_go_of db c r)
  let_go-IsFresh db r fresh =
      All-update_where (λ x. (x.id == c.fresh_id) ≡ false) (has_id r.id)
        (λ x. record (let_go x) { updated_at = c.now }) db.recordings (λ x _ h. h) fresh

  place-HasKeys :
      (db : Db)
      → HasKeys db
      → IsFresh c.fresh_id db
      → All (λ x. is_at c.path x ≡ false) db.recordings
      → HasKeys (place db c s k).0
  unfolding place
  place-HasKeys db = settle-HasKeys db (find_moved c.disk db.recordings c.workspace_id k.full)

  register_at-HasKeys :
      (db : Db) (row : Option Recording)
      → find_where (is_at c.path) db.recordings ≡ row
      → HasKeys db
      → IsFresh c.fresh_id db
      → HasKeys (register_at db c s k row).0
  register_at-HasKeys db none e keys fresh =
      place-HasKeys db keys fresh (find_where-All_none (is_at c.path) db.recordings e)
  register_at-HasKeys db (some r) e keys fresh = elim (Bool-cases (is_elsewhere c r)) [
    | inl f ↦ rw f keys
    | inr f ↦ rw f (elim (Bool-cases (is_same_file k r)) [
      | inl g ↦ rw g (rediscover-HasKeys db r keys)
      | inr g ↦ rw g (elim (Bool-cases (is_scan c.source)) [
        | inl h ↦ rw h (
            place-HasKeys (let_go_of db c r) (let_go-HasKeys db r keys) (let_go-IsFresh db r fresh)
              (let_go-free db r keys e))
        | inr h ↦ rw h keys
      ])
    ])
  ]

  pub register-HasKeys :
      (db : Db) → HasKeys db → IsFresh c.fresh_id db → HasKeys (register db c s k).0
  unfolding register
  register-HasKeys db = register_at-HasKeys db (find_where (is_at c.path) db.recordings) refl
