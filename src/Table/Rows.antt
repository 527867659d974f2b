-- ===== src/Table/Rows.antt =====
-- Statements act row by row: what every row satisfies survives them.
use soriham_api.Prelude.{
  ℕ, ◌+◌, Bool, true, false, ◌||◌, ◌≡◌, refl, List, [], ◌∷◌, ◌++◌, inl, inr, arith, Bool-cases,
  length, ◌≢◌, sym, ◌∙◌,
}
use soriham_api.Table.{
  update_where, delete_where, count_where, sum_where, All, Row, here, there, Unique,
}

module _ {ℓ κ} {A : Type ℓ} (P : A → Type κ) where
  pub All-append : (xs ys : List A) → All P xs → All P ys → All P (xs ++ ys)
  All-append [] ys hx hy = hy
  All-append (x ∷ xs) ys hx hy = (hx.0, All-append xs ys hx.1 hy)

  pub All-Row : (xs : List A) (x : A) → All P xs → Row x xs → P x
  All-Row [] x h r = elim r [ ]
  All-Row (y ∷ ys) x h (here _) = h.0
  All-Row (y ∷ ys) x h (there _ _ r) = All-Row ys x h.1 r

  pub All-delete_where : (p : A → Bool) (xs : List A) → All P xs → All P (delete_where p xs)
  unfolding delete_where
  All-delete_where p [] h = tt
  All-delete_where p (x ∷ xs) h = elim (Bool-cases (p x)) [
    | inl e ↦ rw e (All-delete_where p xs h.1)
    | inr e ↦ rw e (h.0, All-delete_where p xs h.1)
  ]

  pub All-update_where :
      (p : A → Bool) (f : A → A) (xs : List A)
      → ((x : A) → p x ≡ true → P x → P (f x))
      → All P xs
      → All P (update_where p f xs)
  unfolding update_where
  All-update_where p f [] keep h = tt
  All-update_where p f (x ∷ xs) keep h = elim (Bool-cases (p x)) [
    | inl e ↦ rw e (keep x e h.0, All-update_where p f xs keep h.1)
    | inr e ↦ rw e (h.0, All-update_where p f xs keep h.1)
  ]

module _ {ℓ κ} {A : Type ℓ} (P : A → Type κ) where
  -- what holds after an update: a property of the rows it wrote and of the rows it skipped
  pub All-update_where_new :
      (p : A → Bool) (f : A → A) (xs : List A)
      → ((x : A) → p x ≡ true → P (f x))
      → ((x : A) → p x ≡ false → P x)
      → All P (update_where p f xs)
  unfolding update_where
  All-update_where_new p f [] hit miss = tt
  All-update_where_new p f (x ∷ xs) hit miss = elim (Bool-cases (p x)) [
    | inl e ↦ rw e (hit x e, All-update_where_new p f xs hit miss)
    | inr e ↦ rw e (miss x e, All-update_where_new p f xs hit miss)
  ]

module _ {ℓ} {A : Type ℓ} where
  pub sum_where-update_where :
      (q : A → Bool) (g : A → ℕ) (p : A → Bool) (f : A → A) (xs : List A)
      → ((x : A) → q (f x) ≡ q x)
      → ((x : A) → g (f x) ≡ g x)
      → sum_where q g (update_where p f xs) ≡ sum_where q g xs
  unfolding sum_where update_where
  sum_where-update_where q g p f [] hq hg = refl
  sum_where-update_where q g p f (x ∷ xs) hq hg = elim (Bool-cases (p x)) [
    | inl e ↦ rw (e, hq x, hg x, sum_where-update_where q g p f xs hq hg)
    | inr e ↦ rw (e, sum_where-update_where q g p f xs hq hg)
  ]

  pub sum_where-append :
      (q : A → Bool) (g : A → ℕ) (xs ys : List A)
      → sum_where q g (xs ++ ys) ≡ sum_where q g xs + sum_where q g ys
  unfolding sum_where
  sum_where-append q g [] ys = omega arith
  sum_where-append q g (x ∷ xs) ys = omega (arith, sum_where-append q g xs ys)

  -- the row count that DELETE reports
  pub length-delete_where :
      (p : A → Bool) (xs : List A) → length (delete_where p xs) + count_where p xs ≡ length xs
  unfolding delete_where count_where
  length-delete_where p [] = refl
  length-delete_where p (x ∷ xs) = elim (Bool-cases (p x)) [
    | inl e ↦ rw e (omega (arith, length-delete_where p xs))
    | inr e ↦ rw e (omega (arith, length-delete_where p xs))
  ]

  -- two updates of the same kind are one, and tests that agree on the rows update alike
  pub update_where-update_where :
      (p q : A → Bool) (f : A → A) (xs : List A)
      → ((x : A) → f (f x) ≡ f x)
      → ((x : A) → q (f x) ≡ q x)
      → update_where q f (update_where p f xs) ≡ update_where (λ x. p x || q x) f xs
  unfolding update_where
  update_where-update_where p q f [] idem hq = refl
  update_where-update_where p q f (x ∷ xs) idem hq = elim (Bool-cases (p x)) [
    | inl e ↦ elim (Bool-cases (q x)) [
      | inl g ↦ rw (e, hq x, g, idem x, update_where-update_where p q f xs idem hq)
      | inr g ↦ rw (e, hq x, g, update_where-update_where p q f xs idem hq)
    ]
    | inr e ↦ rw (e, update_where-update_where p q f xs idem hq)
  ]

  pub update_where-congr :
      (p q : A → Bool) (f : A → A) (xs : List A)
      → All (λ x. p x ≡ q x) xs
      → update_where p f xs ≡ update_where q f xs
  unfolding update_where
  update_where-congr p q f [] h = refl
  update_where-congr p q f (x ∷ xs) (e, h) = rw (e, update_where-congr p q f xs h)

  pub update_where-none :
      (p : A → Bool) (f : A → A) (xs : List A) → ((x : A) → p x ≡ false) → update_where p f xs ≡ xs
  unfolding update_where
  update_where-none p f [] h = refl
  update_where-none p f (x ∷ xs) h = rw (h x, update_where-none p f xs h)

module _ {ℓ κ} {A : Type ℓ} {P Q R : A → Type κ} where
  pub All-map2 : (xs : List A) → ((x : A) → P x → Q x → R x) → All P xs → All Q xs → All R xs
  All-map2 [] f h k = tt
  All-map2 (x ∷ xs) f (hx, h) (kx, k) = (f x hx kx, All-map2 xs f h k)

module _ {ℓ κ κ'} {A : Type ℓ} (P : A → Type κ) (Q : A → Type κ') where
  pub All-map : (xs : List A) → ((x : A) → P x → Q x) → All P xs → All Q xs
  All-map [] f h = tt
  All-map (x ∷ xs) f h = (f x h.0, All-map xs f h.1)

module _ {ℓ} {A : Type ℓ} (same : A → A → Bool) where
  -- an update that leaves the unique columns alone
  pub Unique-update_where :
      (p : A → Bool) (f : A → A) (xs : List A)
      → ((x y : A) → same (f x) y ≡ same x y)
      → ((x y : A) → same x (f y) ≡ same x y)
      → Unique same xs
      → Unique same (update_where p f xs)
  unfolding update_where
  Unique-update_where p f [] l r u = tt
  Unique-update_where p f (x ∷ xs) l r u = elim (Bool-cases (p x)) [
    | inl e ↦ rw e (
      All-map (λ y. same x y ≡ true → ⊥) (λ y. same (f x) y ≡ true → ⊥) (update_where p f xs)
          (λ y no yes. no (sym (l x y) ∙ yes)) rest,
      Unique-update_where p f xs l r u.1,
    )
    | inr e ↦ rw e (rest, Unique-update_where p f xs l r u.1)
  ]
    where
      rest : All (λ y. same x y ≡ true → ⊥) (update_where p f xs)
      rest =
          All-update_where (λ y. same x y ≡ true → ⊥) p f xs (λ y _ no yes. no (sym (r x y) ∙ yes))
            u.0

  -- a new row that agrees with none before it
  pub Unique-append :
      (xs : List A) (x : A)
      → Unique same xs
      → All (λ y. same y x ≡ false) xs
      → Unique same (xs ++ x ∷ [])
  Unique-append [] x u h = (tt, tt)
  Unique-append (y ∷ ys) x u h = (
    All-append (λ z. same y z ≡ true → ⊥) ys (x ∷ []) u.0
        ((λ yes. true_ne_false (sym yes ∙ h.0)), tt),
    Unique-append ys x u.1 h.1,
  )
    where
      true_ne_false : true ≢ false
      true_ne_false e = cc
