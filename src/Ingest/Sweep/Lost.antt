-- ===== src/Ingest/Sweep/Lost.antt =====
-- Which recordings a sweep takes for lost.
use soriham_api.Prelude.{
  ℕ, ◌≤◌, ◌≡◌, refl, sym, String, Bool, true, false, some, List, [], ◌∷◌, ltb, length, arith,
  Bool-cases, ◌⊎◌, ◌↔◌, inl, inr,
}
use soriham_api.Table.{update_where, count_where, Row, here, there, Unique}
use soriham_api.Table.Chunks.{keys_where}
use soriham_api.Models.{Recording, RecordingStatus}
use soriham_api.Ingest.Places.{same_id}
use soriham_api.Ingest.Sweep.{
  Walk, has_seen, is_gone, is_blackout, is_lost, id_of_row, gone_ids, sweep_missing,
  sweep_missing-eq-update_where,
}
use soriham_api.Ingest.Sweep.Gone.{
  IsGone, has_seen-Row, Row-has_seen, is_gone-IsGone, IsGone-is_gone,
}

-- something was seen under the root, or no more than twenty recordings of it are gone, however they
-- are told
abbrev pub IsMounted : Walk → ℕ → List Recording → ℕ → Type 0
IsMounted walk workspace rows base =
    ((p : String) × Row p walk.seen × (walk.owner p ≡ some base))
    ⊎ ((gone : Recording → Bool)
        → ((x : Recording) → (gone x ≡ true) ↔ IsGone walk workspace base x)
        → count_where gone rows ≤ 20)

-- one of the scanned roots, which is not taken for a missing disk, misses the recording
abbrev pub IsLost : Walk → ℕ → List Recording → List ℕ → Recording → Type 0
IsLost walk workspace rows roots r =
    (base : ℕ) × Row base roots × IsMounted walk workspace rows base × IsGone walk workspace base r

length-keys_where :
    (p : Recording → Bool) (rows : List Recording)
    → length (keys_where id_of_row p rows) ≡ count_where p rows
unfolding count_where
length-keys_where p [] = refl
length-keys_where p (r ∷ rows) = elim (Bool-cases (p r)) [
  | inl e ↦ rw e (let rest = length-keys_where p rows in omega arith)
  | inr e ↦ rw e (let rest = length-keys_where p rows in omega arith)
]

count_where-congr :
    (p q : Recording → Bool) (rows : List Recording)
    → ((r : Recording) → p r ≡ q r)
    → count_where p rows ≡ count_where q rows
unfolding count_where
count_where-congr p q [] same = refl
count_where-congr p q (r ∷ rows) same = rw (same r, count_where-congr p q rows same) refl

-- two tests of one predicate
same_test : (P : Type 0) (a b : Bool) → (a ≡ true) ↔ P → (b ≡ true) ↔ P → a ≡ b
same_test P true b f g = sym (g.1 (f.0 refl))
same_test P false b f g = elim (Bool-cases b) [
  | inl e ↦ let bad : false ≡ true = f.1 (g.0 e) in cc
  | inr e ↦ sym e
]

module _ (walk : Walk) (workspace : ℕ) (rows : List Recording) where
  gone_count :
      (base : ℕ)
      → length (gone_ids walk workspace rows base) ≡ count_where (is_gone walk workspace base) rows
  gone_count base = length-keys_where (is_gone walk workspace base) rows

  is_gone_iff :
      (base : ℕ) (x : Recording)
      → (is_gone walk workspace base x ≡ true) ↔ IsGone walk workspace base x
  is_gone_iff base x = (is_gone-IsGone walk base workspace x, IsGone-is_gone walk base workspace x)

  in_view-IsMounted :
      (base : ℕ) → is_blackout walk workspace rows base ≡ false → IsMounted walk workspace rows base
  unfolding is_blackout
  in_view-IsMounted base e = elim (Bool-cases (has_seen walk base walk.seen)) [
    | inl seen ↦ inl (has_seen-Row walk base walk.seen seen)
    | inr unseen ↦ inr (λ gone is.
        let few : length (gone_ids walk workspace rows base) ≤ 20 = ground arith in
        let same = count_where-congr gone (is_gone walk workspace base) rows (λ x.
          same_test (IsGone walk workspace base x) (gone x) (is_gone walk workspace base x) (is x)
            (is_gone_iff base x)) in
        rw (same, ← gone_count base) few)
  ]

  IsMounted-in_view :
      (base : ℕ) → IsMounted walk workspace rows base → is_blackout walk workspace rows base ≡ false
  unfolding is_blackout
  IsMounted-in_view base (inl (p, row, own)) =
      let seen = Row-has_seen walk base p walk.seen row own in rw seen refl
  IsMounted-in_view base (inr few) =
      let bound = few (is_gone walk workspace base) (is_gone_iff base) in
      let count = gone_count base in
      let small : ltb 20 (length (gone_ids walk workspace rows base)) ≡ false = ground arith in
      rw small
        (elim (Bool-cases (has_seen walk base walk.seen)) [ inl e ↦ rw e refl | inr e ↦ rw e refl ])

  is_lost-IsLost :
      (roots : List ℕ) (r : Recording)
      → is_lost walk workspace rows roots r ≡ true
      → IsLost walk workspace rows roots r
  is_lost-IsLost [] r e = cc
  is_lost-IsLost (base ∷ rest) r e = elim (Bool-cases (is_lost walk workspace rows rest r)) [
    | inl later ↦
        let (b, row, mounted, gone) = is_lost-IsLost rest r later in
        (b, there base rest row, mounted, gone)
    | inr other ↦
        let view : is_blackout walk workspace rows base ≡ false = ground arith in
        let gone : is_gone walk workspace base r ≡ true = ground arith in
        (base, here rest, in_view-IsMounted base view, is_gone-IsGone walk base workspace r gone)
  ]

  Row-is_lost :
      (r : Recording) (base : ℕ) (roots : List ℕ)
      → Row base roots
      → IsMounted walk workspace rows base
      → IsGone walk workspace base r
      → is_lost walk workspace rows roots r ≡ true
  Row-is_lost r base _ (here rest) mounted gone =
      rw (IsMounted-in_view base mounted, IsGone-is_gone walk base workspace r gone) refl
  Row-is_lost r base _ (there b rest row) mounted gone =
      let later = Row-is_lost r base rest row mounted gone in ground arith

-- Where ids are unique, the sweep, which goes through the roots in chunks of ids, marks as missing
-- exactly the recordings that are lost and changes nothing else: those that are current, scanned, of
-- the workspace and not missing yet, whose root was read to the end without their file, on the device
-- of their registration, unless nothing was seen under the root and more than twenty are gone.
pub sweep_missing-exact :
    (walk : Walk) (workspace now : ℕ) (roots : List ℕ) (rows : List Recording)
    → Unique same_id rows
    → (lost : Recording → Bool) × ((r : Recording)
        → (lost r ≡ true) ↔ IsLost walk workspace rows roots r)
      × (sweep_missing walk workspace now roots rows
          ≡ update_where lost
              (λ r. record r { status = RecordingStatus.missing; updated_at = now })
              rows)
sweep_missing-exact walk workspace now roots rows unique = (
  is_lost walk workspace rows roots,
  λ r. (
    is_lost-IsLost walk workspace rows roots r,
    λ (base, row, mounted, gone). Row-is_lost walk workspace rows r base roots row mounted gone,
  ),
  sweep_missing-eq-update_where walk workspace now roots rows unique,
)
