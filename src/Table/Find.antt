-- ===== src/Table/Find.antt =====
-- SELECT of one row: what the row that is found satisfies, and how the answer changes with the
-- table. Under a unique constraint the row is the only candidate.
use soriham_api.Prelude.{
  Bool, true, false, ◌≡◌, refl, Option, none, some, List, [], ◌∷◌, ◌++◌, inl, inr, arith, is_some,
  if◌then◌else◌, Bool-cases,
}
use mathlib.Core.Option
use soriham_api.Table.{find_where, update_where, delete_where, All, Row, here, there, Unique}
use soriham_api.Table.Rows.{All-Row, All-delete_where}

module _ {ℓ} {A : Type ℓ} where
  pub find_where-Row :
      (p : A → Bool) (xs : List A) (x : A) → find_where p xs ≡ some x → Row x xs × (p x ≡ true)
  unfolding find_where
  find_where-Row p [] x h = cc
  find_where-Row p (y ∷ ys) x h = elim (Bool-cases (p y)) [
    | inl e ↦
        let same : some y ≡ some x = rw e at h in
        let eq : y ≡ x = cc in (rw (← eq) (here ys), rw (← eq) e)
    | inr e ↦
        let rest : find_where p ys ≡ some x = rw e at h in
        (there y ys (find_where-Row p ys x rest).0, (find_where-Row p ys x rest).1)
  ]

  pub find_where-none :
      (p : A → Bool) (xs : List A) (x : A) → find_where p xs ≡ none → Row x xs → p x ≡ false
  unfolding find_where
  find_where-none p [] x h r = elim r [ ]
  find_where-none p (y ∷ ys) x h (here _) = ground arith
  find_where-none p (y ∷ ys) x h (there _ _ r) =
      ground (arith, find_where-none p ys x (ground arith) r)

  pub find_where-All_none :
      (p : A → Bool) (xs : List A) → find_where p xs ≡ none → All (λ x. p x ≡ false) xs
  unfolding find_where
  find_where-All_none p [] h = tt
  find_where-All_none p (x ∷ xs) h = elim (Bool-cases (p x)) [
    | inl e ↦ let bad : some x ≡ none = rw e at h in cc
    | inr e ↦ (e, find_where-All_none p xs (rw e at h))
  ]

  pub find_where-append :
      (p : A → Bool) (xs ys : List A)
      → find_where p (xs ++ ys)
        ≡ (if is_some (find_where p xs) then find_where p xs else find_where p ys)
  unfolding find_where
  find_where-append p [] ys = refl
  find_where-append p (x ∷ xs) ys = elim (Bool-cases (p x)) [
    | inl e ↦ rw e
    | inr e ↦ rw e (find_where-append p xs ys)
  ]

  -- an INSERT that the question sees, or does not see
  pub find_where-insert_self :
      (p : A → Bool) (xs : List A) (x : A)
      → find_where p xs ≡ none
      → p x ≡ true
      → find_where p (xs ++ x ∷ []) ≡ some x
  unfolding find_where
  find_where-insert_self p [] x h e = rw e
  find_where-insert_self p (y ∷ ys) x h e = elim (Bool-cases (p y)) [
    | inl f ↦ absurd (let bad : some y ≡ none = rw f at h in cc)
    | inr f ↦ rw f (find_where-insert_self p ys x (rw f at h) e)
  ]

  pub find_where-insert_ne :
      (p : A → Bool) (xs : List A) (x : A)
      → p x ≡ false
      → find_where p (xs ++ x ∷ []) ≡ find_where p xs
  unfolding find_where
  find_where-insert_ne p [] x e = rw e
  find_where-insert_ne p (y ∷ ys) x e = ground (arith, find_where-insert_ne p ys x e)

  -- rows that the question does not see may be deleted
  pub find_where-delete_where :
      (q p : A → Bool) (xs : List A)
      → ((x : A) → p x ≡ true → q x ≡ false)
      → find_where q (delete_where p xs) ≡ find_where q xs
  unfolding find_where delete_where
  find_where-delete_where q p [] h = refl
  find_where-delete_where q p (x ∷ xs) h = elim (Bool-cases (p x)) [
    | inl e ↦ rw (e, h x e) (find_where-delete_where q p xs h)
    | inr e ↦ rw (e, find_where-delete_where q p xs h)
  ]

  -- a row that is deleted is not found
  pub find_where-delete_where_none :
      (q p : A → Bool) (xs : List A)
      → ((x : A) → q x ≡ true → p x ≡ true)
      → find_where q (delete_where p xs) ≡ none
  unfolding find_where delete_where
  find_where-delete_where_none q p [] h = refl
  find_where-delete_where_none q p (x ∷ xs) h = elim (Bool-cases (p x)) [
    | inl e ↦ rw e (find_where-delete_where_none q p xs h)
    | inr e ↦ elim (Bool-cases (q x)) [
      | inl f ↦ absurd (let bad : true ≡ false = cc (h x f) in cc)
      | inr f ↦ rw (e, f) (find_where-delete_where_none q p xs h)
    ]
  ]

  -- an update of rows that the question does not see
  pub find_where-update_where_ne :
      (q p : A → Bool) (f : A → A) (xs : List A)
      → ((x : A) → q (f x) ≡ q x)
      → ((x : A) → p x ≡ true → q x ≡ false)
      → find_where q (update_where p f xs) ≡ find_where q xs
  unfolding find_where update_where
  find_where-update_where_ne q p f [] hq h = refl
  find_where-update_where_ne q p f (x ∷ xs) hq h = elim (Bool-cases (p x)) [
    | inl e ↦ rw (e, hq x, h x e) (find_where-update_where_ne q p f xs hq h)
    | inr e ↦ rw (e, find_where-update_where_ne q p f xs hq h)
  ]

  -- an update that changes no answer to the question acts on the row that is found
  pub find_where-update_where :
      (q p : A → Bool) (f : A → A) (xs : List A)
      → ((x : A) → q (f x) ≡ q x)
      → find_where q (update_where p f xs)
        ≡ Option.map (λ x. if p x then f x else x) (find_where q xs)
  unfolding find_where update_where
  find_where-update_where q p f [] hq = refl
  find_where-update_where q p f (x ∷ xs) hq = elim (Bool-cases (p x)) [
    | inl e ↦ elim (Bool-cases (q x)) [
      | inl g ↦ rw (e, hq x, g) (rw e)
      | inr g ↦ rw (e, hq x, g) (find_where-update_where q p f xs hq)
    ]
    | inr e ↦ elim (Bool-cases (q x)) [
      | inl g ↦ rw (e, g) (rw e)
      | inr g ↦ rw (e, g) (find_where-update_where q p f xs hq)
    ]
  ]

  -- an update of exactly the rows in question
  pub find_where-update_where_self :
      (q : A → Bool) (f : A → A) (xs : List A)
      → ((x : A) → q (f x) ≡ q x)
      → find_where q (update_where q f xs) ≡ Option.map f (find_where q xs)
  unfolding find_where update_where
  find_where-update_where_self q f [] hq = refl
  find_where-update_where_self q f (x ∷ xs) hq = elim (Bool-cases (q x)) [
    | inl e ↦ rw (e, hq x, e)
    | inr e ↦ rw (e, e, find_where-update_where_self q f xs hq)
  ]

  -- under a unique constraint a row that passes is the row that is found
  pub find_where-Unique :
      (same : A → A → Bool) (q : A → Bool) (xs : List A) (x : A)
      → Unique same xs
      → ((y : A) → q y ≡ true → q x ≡ true → same y x ≡ true)
      → Row x xs
      → q x ≡ true
      → find_where q xs ≡ some x
  unfolding find_where
  find_where-Unique same q [] x u h r e = elim r [ ]
  find_where-Unique same q (y ∷ ys) x u h (here _) e = rw e
  find_where-Unique same q (y ∷ ys) x u h (there _ _ r) e = elim (Bool-cases (q y)) [
    | inl f ↦ absurd (All-Row (λ z. same y z ≡ true → ⊥) ys x u.0 r (h y f e))
    | inr f ↦ rw f (find_where-Unique same q ys x u.1 h r e)
  ]

  abbrev pub unless : (A → Bool) → Option A → Option A
  unless p none = none
  unless p (some x) = if p x then none else some x

  find_where-All-false :
      (q : A → Bool) (xs : List A) → All (λ x. q x ≡ false) xs → find_where q xs ≡ none
  unfolding find_where
  find_where-All-false q [] h = refl
  find_where-All-false q (x ∷ xs) (hx, h) = rw hx (find_where-All-false q xs h)

  All-not_same :
      (same : A → A → Bool) (q : A → Bool) (x : A) (xs : List A)
      → ((y : A) → q x ≡ true → q y ≡ true → same x y ≡ true)
      → q x ≡ true
      → All (λ y. same x y ≡ true → ⊥) xs
      → All (λ y. q y ≡ false) xs
  All-not_same same q x [] h e u = tt
  All-not_same same q x (y ∷ ys) h e (ne, u) = (
    elim (Bool-cases (q y)) [ inl f ↦ absurd (ne (h y e f)) | inr f ↦ f ],
    All-not_same same q x ys h e u,
  )

  -- under a unique constraint a deletion hides the row that is found, or changes nothing
  pub find_where-delete_where-Unique :
      (same : A → A → Bool) (q p : A → Bool) (xs : List A)
      → Unique same xs
      → ((x y : A) → q x ≡ true → q y ≡ true → same x y ≡ true)
      → find_where q (delete_where p xs) ≡ unless p (find_where q xs)
  unfolding find_where delete_where
  find_where-delete_where-Unique same q p [] u h = refl
  find_where-delete_where-Unique same q p (x ∷ xs) u h = elim (Bool-cases (q x)) [
    | inl e ↦ elim (Bool-cases (p x)) [
      | inl f ↦
          rw (e, f)
            (find_where-All-false q (delete_where p xs)
              (All-delete_where (λ y. q y ≡ false) p xs (All-not_same same q x xs (h x) e u.0)))
      | inr f ↦ rw (e, f, e)
    ]
    | inr e ↦ elim (Bool-cases (p x)) [
      | inl f ↦ rw (e, f) (find_where-delete_where-Unique same q p xs u.1 h)
      | inr f ↦ rw (e, f, e) (find_where-delete_where-Unique same q p xs u.1 h)
    ]
  ]
