-- ===== src/Table/Best.antt =====
-- ORDER BY ... LIMIT 1: the first row in an order, over the rows that pass a test.
use mathlib.Core.Path.{subst}
use soriham_api.Prelude.{
  Bool, true, false, ◌≡◌, refl, Option, none, some, List, [], ◌∷◌, if◌then◌else◌, inl, inr,
  Bool-cases, Option-cases,
}
use soriham_api.Table.{filter_where, All, Row, here, there}

module _ {ℓ} {A : Type ℓ} where
  abbrev pub first_of_two : (A → A → Bool) → A → Option A → Option A
  first_of_two before x none = some x
  first_of_two before x (some y) = if before y x then some y else some x

  unfoldable pub best : (A → A → Bool) → List A → Option A
  best before [] = none
  best before (x ∷ xs) = first_of_two before x (best before xs)

  pub best-none : (before : A → A → Bool) (xs : List A) → best before xs ≡ none → xs ≡ []
  unfolding best
  best-none before [] h = refl
  best-none before (x ∷ xs) h = elim (Option-cases (best before xs)) [
    | inl e ↦ absurd (let bad : some x ≡ none = rw e at h in cc)
    | inr (y, e) ↦ elim (Bool-cases (before y x)) [
      | inl f ↦ absurd (let bad : some y ≡ none = rw (e, f) at h in cc)
      | inr f ↦ absurd (let bad : some x ≡ none = rw (e, f) at h in cc)
    ]
  ]

  pub best-Row : (before : A → A → Bool) (xs : List A) (x : A) → best before xs ≡ some x → Row x xs
  unfolding best
  best-Row before [] x h = cc
  best-Row before (y ∷ ys) x h = elim (Option-cases (best before ys)) [
    | inl e ↦ let eq : some y ≡ some x = rw e at h in let yx : y ≡ x = cc in rw (← yx) (here ys)
    | inr (z, e) ↦ elim (Bool-cases (before z y)) [
      | inl f ↦
          let eq : some z ≡ some x = rw (e, f) at h in
          let zx : z ≡ x = cc in there y ys (best-Row before ys x (rw zx at e))
      | inr f ↦
          let eq : some y ≡ some x = rw (e, f) at h in let yx : y ≡ x = cc in rw (← yx) (here ys)
    ]
  ]

  All-weaken :
      (before : A → A → Bool) (xs : List A) (z y : A)
      → ((a b c : A) → before a b ≡ false → before b c ≡ false → before a c ≡ false)
      → before z y ≡ false
      → All (λ x. before x z ≡ false) xs
      → All (λ x. before x y ≡ false) xs
  All-weaken before [] z y negtrans e h = tt
  All-weaken before (x ∷ xs) z y negtrans e (hx, h) =
      (negtrans x z y hx e, All-weaken before xs z y negtrans e h)

  -- In an order no row stands before the one that is picked.
  pub best-least :
      (before : A → A → Bool) (xs : List A) (x : A)
      → ((a b : A) → before a b ≡ true → before b a ≡ false)
      → ((a b c : A) → before a b ≡ false → before b c ≡ false → before a c ≡ false)
      → ((a : A) → before a a ≡ false)
      → best before xs ≡ some x
      → All (λ y. before y x ≡ false) xs
  unfolding best
  best-least before [] x asym negtrans irrefl h = tt
  best-least before (y ∷ ys) x asym negtrans irrefl h = elim (Option-cases (best before ys)) [
    | inl e ↦
        let eq : some y ≡ some x = rw e at h in
        let yx : y ≡ x = cc in (rw yx (irrefl x), rw (best-none before ys e) tt)
    | inr (z, e) ↦
        let least = best-least before ys z asym negtrans irrefl e in
        elim (Bool-cases (before z y)) [
          | inl f ↦
              let eq : some z ≡ some x = rw (e, f) at h in
              let zx : z ≡ x = cc in
              subst (λ v. (before y v ≡ false) × All (λ w. before w v ≡ false) ys) zx
                (asym z y f, least)
          | inr f ↦
              let eq : some y ≡ some x = rw (e, f) at h in
              let yx : y ≡ x = cc in
              subst (λ v. (before y v ≡ false) × All (λ w. before w v ≡ false) ys) yx
                (irrefl y, All-weaken before ys z y negtrans f least)
        ]
  ]

  Row-cons :
      (p : A → Bool) (y : A) (ys : List A) (x : A)
      → p y ≡ true
      → (Row x (filter_where p ys) → Row x ys × (p x ≡ true))
      → Row x (y ∷ filter_where p ys)
      → Row x (y ∷ ys) × (p x ≡ true)
  Row-cons p y ys x e rest (here _) = (here ys, e)
  Row-cons p y ys x e rest (there _ _ r) = (there y ys (rest r).0, (rest r).1)

  -- the rows that pass a test
  pub filter_where-Row :
      (p : A → Bool) (xs : List A) (x : A) → Row x (filter_where p xs) → Row x xs × (p x ≡ true)
  unfolding filter_where
  filter_where-Row p [] x r = elim r [ ]
  filter_where-Row p (y ∷ ys) x r = elim (Bool-cases (p y)) [
    | inl e ↦ Row-cons p y ys x e (filter_where-Row p ys x) (rw e at r)
    | inr e ↦ let (row, test) = filter_where-Row p ys x (rw e at r) in (there y ys row, test)
  ]

  pub Row-filter_where :
      (p : A → Bool) (xs : List A) (x : A) → Row x xs → p x ≡ true → Row x (filter_where p xs)
  unfolding filter_where
  Row-filter_where p [] x r h = elim r [ ]
  Row-filter_where p (y ∷ ys) x (here _) h = rw h (here (filter_where p ys))
  Row-filter_where p (y ∷ ys) x (there _ _ r) h = elim (Bool-cases (p y)) [
    | inl e ↦ rw e (there y (filter_where p ys) (Row-filter_where p ys x r h))
    | inr e ↦ rw e (Row-filter_where p ys x r h)
  ]
