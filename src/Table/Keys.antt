-- ===== src/Table/Keys.antt =====
-- How statements act on unique constraints.
use soriham_api.Prelude.{
  Bool, true, false, ◌≡◌, ◌∙◌, refl, List, [], ◌∷◌, ◌++◌, inl, inr, Bool-cases, some,
}
use soriham_api.Table.{
  find_where, filter_where, update_where, delete_where, All, Row, here, there, Unique,
}
use soriham_api.Table.Find.{find_where-Unique}
use soriham_api.Table.Rows.{
  All-Row, All-delete_where, All-update_where, All-map, update_where-congr, update_where-none,
}

module _ {ℓ κ} {A : Type ℓ} (P : A → Type κ) where
  -- what holds of every row that stands in the table
  pub All-of_Row : (xs : List A) → ((x : A) → Row x xs → P x) → All P xs
  All-of_Row [] h = tt
  All-of_Row (x ∷ xs) h = (h x (here xs), All-of_Row xs (λ y r. h y (there x xs r)))

  pub All-update_where_Row :
      (p : A → Bool) (f : A → A) (xs : List A)
      → ((x : A) → Row x xs → p x ≡ true → P (f x))
      → ((x : A) → Row x xs → p x ≡ false → P x)
      → All P (update_where p f xs)
  unfolding update_where
  All-update_where_Row p f [] hit miss = tt
  All-update_where_Row p f (x ∷ xs) hit miss =
      let rest : All P (update_where p f xs) =
        All-update_where_Row p f xs (λ y r. hit y (there x xs r)) (λ y r. miss y (there x xs r)) in
      elim (Bool-cases (p x)) [
        | inl e ↦ rw e (hit x (here xs) e, rest)
        | inr e ↦ rw e (miss x (here xs) e, rest)
      ]

module _ {ℓ} {A : Type ℓ} (same : A → A → Bool) where
  -- an update that makes no two rows agree that did not
  pub Unique-update_where_sub :
      (p : A → Bool) (f : A → A) (xs : List A)
      → ((x y : A) → same (f x) y ≡ true → same x y ≡ true)
      → ((x y : A) → same x (f y) ≡ true → same x y ≡ true)
      → Unique same xs
      → Unique same (update_where p f xs)
  unfolding update_where
  Unique-update_where_sub p f [] l r u = tt
  Unique-update_where_sub p f (x ∷ xs) l r u =
      let rest : All (λ y. same x y ≡ true → ⊥) (update_where p f xs) =
        All-update_where (λ y. same x y ≡ true → ⊥) p f xs (λ y _ no yes. no (r x y yes)) u.0 in
      elim (Bool-cases (p x)) [
        | inl e ↦ rw e (
          All-map (λ y. same x y ≡ true → ⊥) (λ y. same (f x) y ≡ true → ⊥) (update_where p f xs)
              (λ y no yes. no (l x y yes)) rest,
          Unique-update_where_sub p f xs l r u.1,
        )
        | inr e ↦ rw e (rest, Unique-update_where_sub p f xs l r u.1)
      ]

  pub Unique-delete_where :
      (p : A → Bool) (xs : List A) → Unique same xs → Unique same (delete_where p xs)
  unfolding delete_where
  Unique-delete_where p [] u = tt
  Unique-delete_where p (x ∷ xs) u = elim (Bool-cases (p x)) [
    | inl e ↦ rw e (Unique-delete_where p xs u.1)
    | inr e ↦
        rw e (All-delete_where (λ y. same x y ≡ true → ⊥) p xs u.0, Unique-delete_where p xs u.1)
  ]

  -- a row agrees only with rows in question
  abbrev pub Takes : (A → Bool) → A → Type ℓ
  Takes at x = ((y : A) → same x y ≡ true → at y ≡ true) × ((y : A) → same y x ≡ true → at y ≡ true)

  -- an update of one row that gives it a key that no row has
  pub Unique-update_where_fresh :
      (same_id : A → A → Bool) (at p : A → Bool) (f : A → A) (xs : List A)
      → ((x y : A) → p x ≡ true → p y ≡ true → same_id x y ≡ true)
      → All (λ x. p x ≡ true → Takes at (f x)) xs
      → Unique same_id xs
      → Unique same xs
      → All (λ x. at x ≡ false) xs
      → Unique same (update_where p f xs)
  unfolding update_where
  Unique-update_where_fresh same_id at p f [] one takes ui u free = tt
  Unique-update_where_fresh same_id at p f (x ∷ xs) one takes ui u free = elim (Bool-cases (p x)) [
    | inl e ↦ rw e (
        rw (alone e) (
          All-map (λ y. at y ≡ false) (λ y. same (f x) y ≡ true → ⊥) xs
              (λ y h t. clash ((takes.0 e).0 y t) h) free.1,
          u.1,
        ))
    | inr e ↦ rw e (
      All-update_where_Row (λ y. same x y ≡ true → ⊥) p f xs
          (λ y row hit t.
            clash ((All-Row (λ z. p z ≡ true → Takes at (f z)) xs y takes.1 row hit).1 x t) free.0)
          (λ y row _. All-Row (λ z. same x z ≡ true → ⊥) xs y u.0 row),
      Unique-update_where_fresh same_id at p f xs one takes.1 ui.1 u.1 free.1,
    )
  ]
    where
      clash : {b : Bool} → b ≡ true → b ≡ false → ⊥
      clash e h = cc

      other : (e : p x ≡ true) (y : A) → (same_id x y ≡ true → ⊥) → p y ≡ false
      other e y apart = elim (Bool-cases (p y)) [
        | inl hit ↦ absurd (apart (one x y e hit))
        | inr miss ↦ miss
      ]

      alone : p x ≡ true → update_where p f xs ≡ xs
      alone e =
          update_where-congr p (λ _. false) f xs
            (All-map (λ y. same_id x y ≡ true → ⊥) (λ y. p y ≡ false) xs (other e) ui.0)
          ∙ update_where-none (λ _. false) f xs (λ _. refl)

module _ {ℓ} {A : Type ℓ} where
  -- two rows that a question cannot tell apart under a unique constraint are one
  pub Unique-one :
      (same : A → A → Bool) (q : A → Bool) (xs : List A) (x y : A)
      → Unique same xs
      → ((a b : A) → q a ≡ true → q b ≡ true → same a b ≡ true)
      → Row x xs
      → Row y xs
      → q x ≡ true
      → q y ≡ true
      → x ≡ y
  Unique-one same q xs x y u one rx ry hx hy =
      let fx : find_where q xs ≡ some x =
        find_where-Unique same q xs x u (λ z hz _. one z x hz hx) rx hx in
      let fy : find_where q xs ≡ some y =
        find_where-Unique same q xs y u (λ z hz _. one z y hz hy) ry hy in
      cc

module _ {ℓ κ} {A : Type ℓ} (P : A → Type κ) where
  pub All-delete_where_miss :
      (p : A → Bool) (xs : List A) → All (λ x. p x ≡ false → P x) xs → All P (delete_where p xs)
  unfolding delete_where
  All-delete_where_miss p [] h = tt
  All-delete_where_miss p (x ∷ xs) h = elim (Bool-cases (p x)) [
    | inl e ↦ rw e (All-delete_where_miss p xs h.1)
    | inr e ↦ rw e (h.0 e, All-delete_where_miss p xs h.1)
  ]

module _ {ℓ} {A : Type ℓ} (q p : A → Bool) where
  -- the rows that a statement neither takes nor gives
  pub filter_where-update_where :
      (f : A → A) (xs : List A)
      → ((x : A) → Row x xs → p x ≡ true → (q x ≡ false) × (q (f x) ≡ false))
      → filter_where q (update_where p f xs) ≡ filter_where q xs
  unfolding filter_where update_where
  filter_where-update_where f [] h = refl
  filter_where-update_where f (x ∷ xs) h =
      let rest = filter_where-update_where f xs (λ y r. h y (there x xs r)) in
      elim (Bool-cases (p x)) [
        | inl e ↦ let (out, still) = h x (here xs) e in rw (e, out, still) rest
        | inr e ↦ rw (e, rest) refl
      ]

  pub filter_where-delete_where :
      (xs : List A)
      → ((x : A) → Row x xs → p x ≡ true → q x ≡ false)
      → filter_where q (delete_where p xs) ≡ filter_where q xs
  unfolding filter_where delete_where
  filter_where-delete_where [] h = refl
  filter_where-delete_where (x ∷ xs) h =
      let rest = filter_where-delete_where xs (λ y r. h y (there x xs r)) in
      elim (Bool-cases (p x)) [
        | inl e ↦ let out = h x (here xs) e in rw (e, out) rest
        | inr e ↦ rw (e, rest) refl
      ]

module _ {ℓ} {A : Type ℓ} (p : A → Bool) (x : A) (misses : p x ≡ false) where
  pub Row-update_where_miss : (f : A → A) (xs : List A) → Row x xs → Row x (update_where p f xs)
  unfolding update_where
  Row-update_where_miss f [] r = elim r [ ]
  Row-update_where_miss f (y ∷ ys) (here _) = rw misses (here (update_where p f ys))
  Row-update_where_miss f (y ∷ ys) (there _ _ r) = there _ _ (Row-update_where_miss f ys r)

  pub Row-delete_where_miss : (xs : List A) → Row x xs → Row x (delete_where p xs)
  unfolding delete_where
  Row-delete_where_miss [] r = elim r [ ]
  Row-delete_where_miss (y ∷ ys) (here _) = rw misses (here (delete_where p ys))
  Row-delete_where_miss (y ∷ ys) (there _ _ r) = elim (Bool-cases (p y)) [
    | inl e ↦ rw e (Row-delete_where_miss ys r)
    | inr e ↦ rw e (there y (delete_where p ys) (Row-delete_where_miss ys r))
  ]

pub Row-append {ℓ} : {A : Type ℓ} (x : A) (xs ys : List A) → Row x xs → Row x (xs ++ ys)
Row-append x [] ys r = elim r [ ]
Row-append x (y ∷ xs) ys (here _) = here (xs ++ ys)
Row-append x (y ∷ xs) ys (there _ _ r) = there y (xs ++ ys) (Row-append x xs ys r)
