-- ===== src/Ingest/Sweep/Gone.antt =====
-- What a root misses: the test of the sweep, and what it stands for.
use soriham_api.Prelude.{
  ℕ, ◌≡◌, ◌≢◌, ◌∙◌, refl, sym, ap, String, true, false, Option, none, some, List, [], ◌∷◌, ◌==◌,
  opt_eq, str_eq, str_eq_refl, eq_iff, ==_iff, arith, Bool-cases, ◌↔◌, inl, inr,
}
use soriham_api.Files.{Signature}
use soriham_api.Table.{Row, here, there}
use soriham_api.Models.{Recording, RecordingStatus, RecordingSource}
use soriham_api.Ingest.{is_missing, is_scan}
use soriham_api.Ingest.Sweep.{Walk, is_seen, has_seen, is_gone, on_device}

-- a scanned recording of the workspace that this root owns, has read to the end and did not see, on
-- the device where it was registered, if that was noted
pub record IsGone (walk : Walk) (workspace base : ℕ) (r : Recording) : Type 0 where
  pub current : r.path_current ≡ true
  pub known : r.status ≢ RecordingStatus.missing
  pub here : r.workspace_id ≡ workspace
  pub scanned : r.source ≡ RecordingSource.scan
  pub owned : walk.owner r.path ≡ some base
  pub complete : walk.complete base ≡ true
  pub unseen : Row r.path walk.seen → ⊥
  pub in_view : (s : Signature) → r.file_signature ≡ some s → walk.device r.path ≡ some s.device

opt_eq_iff : (o : Option ℕ) (b : ℕ) → (opt_eq o b ≡ true) ↔ (o ≡ some b)
opt_eq_iff none b = (λ e. cc, λ e. cc)
opt_eq_iff (some a) b = (
  λ e. let same : a ≡ b = ground arith in ap some same,
  λ e. let same : a ≡ b = cc in ground arith,
)

is_seen-Row : (ps : List String) (path : String) → is_seen ps path ≡ true → Row path ps
unfolding is_seen
is_seen-Row [] path e = cc
is_seen-Row (p ∷ ps) path e = elim (Bool-cases (str_eq p path)) [
  | inl same ↦ let eq : p ≡ path = (eq_iff p path).0 same in rw eq (here ps)
  | inr other ↦ there p ps (is_seen-Row ps path (rw other at e))
]

Row-is_seen : (path : String) (ps : List String) → Row path ps → is_seen ps path ≡ true
unfolding is_seen
Row-is_seen path _ (here ps) = rw (str_eq_refl path) refl
Row-is_seen path _ (there p ps r) = let seen = Row-is_seen path ps r in ground arith

true_ne_false : true ≢ false
true_ne_false e = cc

not_missing : (s : RecordingStatus) → s ≢ RecordingStatus.missing → is_missing s ≡ false
not_missing s ne = elim (Bool-cases (is_missing s)) [
  | inl e ↦ absurd (ne (is_missing_eq s e))
  | inr e ↦ e
]
  where
    is_missing_eq : (s : RecordingStatus) → is_missing s ≡ true → s ≡ RecordingStatus.missing
    is_missing_eq s e = ground arith

module _ (walk : Walk) (base : ℕ) where
  pub has_seen-Row :
      (ps : List String)
      → has_seen walk base ps ≡ true
      → (p : String) × Row p ps × (walk.owner p ≡ some base)
  unfolding has_seen
  has_seen-Row [] e = cc
  has_seen-Row (p ∷ ps) e = elim (Bool-cases (opt_eq (walk.owner p) base)) [
    | inl own ↦ (p, here ps, (opt_eq_iff (walk.owner p) base).0 own)
    | inr other ↦ let (q, row, own) = has_seen-Row ps (rw other at e) in (q, there p ps row, own)
  ]

  pub Row-has_seen :
      (p : String) (ps : List String)
      → Row p ps
      → walk.owner p ≡ some base
      → has_seen walk base ps ≡ true
  unfolding has_seen
  Row-has_seen p _ (here ps) own = rw ((opt_eq_iff (walk.owner p) base).1 own) refl
  Row-has_seen p _ (there q ps r) own = let seen = Row-has_seen p ps r own in ground arith

  module _ (workspace : ℕ) (r : Recording) where
    device-in_view :
        (noted : Option Signature)
        → on_device (walk.device r.path) noted ≡ true
        → (s : Signature) → noted ≡ some s
        → walk.device r.path ≡ some s.device
    device-in_view none e s same = cc
    device-in_view (some t) e s same =
        let eq : t ≡ s = cc in rw (← eq) ((opt_eq_iff (walk.device r.path) t.device).0 e)

    in_view-device :
        (noted : Option Signature)
        → ((s : Signature) → noted ≡ some s → walk.device r.path ≡ some s.device)
        → on_device (walk.device r.path) noted ≡ true
    in_view-device none h = refl
    in_view-device (some t) h = (opt_eq_iff (walk.device r.path) t.device).1 (h t refl)

    pub is_gone-IsGone : is_gone walk workspace base r ≡ true → IsGone walk workspace base r
    unfolding is_gone
    is_gone-IsGone e =
        let own : opt_eq (walk.owner r.path) base ≡ true = ground arith in
        let device : on_device (walk.device r.path) r.file_signature ≡ true = ground arith in
        let unseen : is_seen walk.seen r.path ≡ false = ground arith in
        record {
          current = ground arith;
          known = λ same. ground arith;
          here = ground arith;
          scanned = ground arith;
          owned = (opt_eq_iff (walk.owner r.path) base).0 own;
          complete = ground arith;
          unseen = λ row.
              let seen = Row-is_seen r.path walk.seen row in
              elim (true_ne_false (sym seen ∙ unseen)) [ ];
          in_view = device-in_view r.file_signature device;
        }

    pub IsGone-is_gone : IsGone walk workspace base r → is_gone walk workspace base r ≡ true
    unfolding is_gone
    IsGone-is_gone g =
        let own : opt_eq (walk.owner r.path) base ≡ true =
          (opt_eq_iff (walk.owner r.path) base).1 g.owned in
        let device : on_device (walk.device r.path) r.file_signature ≡ true =
          in_view-device r.file_signature g.in_view in
        let unseen : is_seen walk.seen r.path ≡ false =
          elim (Bool-cases (is_seen walk.seen r.path)) [
            | inl seen ↦ absurd (g.unseen (is_seen-Row walk.seen r.path seen))
            | inr e ↦ e
          ] in
        let known : is_missing r.status ≡ false = not_missing r.status g.known in
        let scan : is_scan r.source ≡ true = rw g.scanned refl in
        let current = g.current in
        let here : (r.workspace_id == workspace) ≡ true =
          (==_iff r.workspace_id workspace).1 g.here in
        let complete = g.complete in
        rw (own, device, unseen, known, scan, current, here, complete) refl
