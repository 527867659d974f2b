-- ===== src/Table/Chunks.antt =====
-- UPDATE of the rows whose ids are in a list, in chunks of a fixed size.
use soriham_api.Prelude.{
  ℕ, zero, suc, ◌≤◌, ◌<◌, ◌≡◌, ◌∙◌, refl, sym, ap, Bool, true, false, ◌&&◌, ◌||◌, List, [], ◌∷◌,
  ◌==◌, length, take, drop, length-drop, arith, Bool-cases, inl, inr, if◌then◌else◌,
}
use mathlib.Core.Path.{fun_ext}
use soriham_api.Table.{update_where, filter_where, All, Unique}
use soriham_api.Table.Rows.{All-map2, update_where-update_where, update_where-none}

unfoldable pub contains : List ℕ → ℕ → Bool
contains [] n = false
contains (m ∷ ms) n = m == n || contains ms n

pub contains-take-drop :
    (n : ℕ) (ids : List ℕ) (m : ℕ)
    → contains (take n ids) m || contains (drop n ids) m ≡ contains ids m
unfolding contains
contains-take-drop zero ids m = refl
contains-take-drop (suc n) [] m = refl
contains-take-drop (suc n) (x ∷ ids) m = ground (arith, contains-take-drop n ids m)

module _ {ℓ} {A : Type ℓ} (key : A → ℕ) where
  -- the keys of the rows that pass
  abbrev pub keys_where : (A → Bool) → List A → List ℕ
  keys_where p [] = []
  keys_where p (r ∷ rows) = let rest = keys_where p rows in if p r then key r ∷ rest else rest

  pub keys_where-filter_where :
      (p q : A → Bool) (rows : List A)
      → keys_where p (filter_where q rows) ≡ keys_where (λ r. q r && p r) rows
  unfolding filter_where
  keys_where-filter_where p q [] = refl
  keys_where-filter_where p q (r ∷ rows) = elim (Bool-cases (q r)) [
    | inl e ↦ rw (e, keys_where-filter_where p q rows)
    | inr e ↦ rw (e, keys_where-filter_where p q rows)
  ]

  abbrev pub same_key : A → A → Bool
  same_key a b = key a == key b

  contains-not_same :
      (p : A → Bool) (r : A) (rows : List A)
      → All (λ x. same_key r x ≡ true → ⊥) rows
      → contains (keys_where p rows) (key r) ≡ false
  unfolding contains
  contains-not_same p r [] h = refl
  contains-not_same p r (x ∷ rows) (hx, h) = elim (Bool-cases (p x)) [
    | inl e ↦
        rw (e, contains-not_same p r rows h)
          (elim (Bool-cases (key x == key r)) [ inl f ↦ absurd (hx (ground arith)) | inr f ↦ rw f ])
    | inr e ↦ rw e (contains-not_same p r rows h)
  ]

  -- under unique keys, a key of the list belongs to a row that passes
  pub contains-keys_where :
      (p : A → Bool) (rows : List A)
      → Unique same_key rows
      → All (λ r. contains (keys_where p rows) (key r) ≡ p r) rows
  unfolding contains
  contains-keys_where p [] u = tt
  contains-keys_where p (x ∷ rows) (ne, u) = elim (Bool-cases (p x)) [
    | inl e ↦
        rw e
          (ground arith, All-map2 rows (λ y ny hy. ground arith) ne (contains-keys_where p rows u))
    | inr e ↦ (
      rw e (contains-not_same p x rows ne),
      All-map2 rows (λ y ny hy. rw e hy) ne (contains-keys_where p rows u),
    )
  ]

  -- `for start in range(0, len(ids), size)`: as many rounds as ids are enough
  unfoldable pub update_chunks : ℕ → (A → A) → ℕ → List ℕ → List A → List A
  unfolding contains
  update_chunks size f zero ids rows = rows
  update_chunks size f (suc rounds) ids rows =
      update_chunks size f rounds (drop size ids)
        (update_where (λ r. contains (take size ids) (key r)) f rows)

  pub update_chunks-eq-update_where :
      (size : ℕ) (f : A → A) (rounds : ℕ) (ids : List ℕ) (rows : List A)
      → 0 < size
      → ((r : A) → f (f r) ≡ f r)
      → ((r : A) → key (f r) ≡ key r)
      → length ids ≤ rounds
      → update_chunks size f rounds ids rows ≡ update_where (λ r. contains ids (key r)) f rows
  unfolding update_chunks contains
  update_chunks-eq-update_where size f zero [] rows pos idem kept h =
      sym (update_where-none (λ r. false) f rows (λ r. refl))
  update_chunks-eq-update_where size f zero (i ∷ ids) rows pos idem kept h = absurd (omega arith)
  update_chunks-eq-update_where size f (suc rounds) ids rows pos idem kept h =
      update_chunks-eq-update_where size f rounds (drop size ids)
        (update_where (λ r. contains (take size ids) (key r)) f rows) pos idem kept
        (omega (arith, length-drop size ids))
      ∙ update_where-update_where (λ r. contains (take size ids) (key r))
          (λ r. contains (drop size ids) (key r)) f rows idem
          (λ r. ap (λ n. contains (drop size ids) n) (kept r))
      ∙ ap (λ p. update_where p f rows) (fun_ext λ r. contains-take-drop size ids (key r))
