-- ===== src/Table.antt =====
-- A database table as the list of its rows, and the statements that the program runs on it:
-- SELECT, UPDATE and DELETE with a WHERE clause, COUNT and SUM. Their laws are in the children.
pub mod Rows
pub mod Find
pub mod Best
pub mod Keys
pub mod Chunks
use soriham_api.Prelude.{
  ℕ, suc, ◌+◌, Bool, true, ◌≡◌, Option, none, some, List, [], ◌∷◌, if◌then◌else◌,
}

module _ {ℓ} {A : Type ℓ} where
  -- the first row that passes: `scalar(select(...).where(...))`
  unfoldable pub find_where : (A → Bool) → List A → Option A
  find_where p [] = none
  find_where p (x ∷ xs) = if p x then some x else find_where p xs

  unfoldable pub filter_where : (A → Bool) → List A → List A
  filter_where p [] = []
  filter_where p (x ∷ xs) = let rest = filter_where p xs in if p x then x ∷ rest else rest

  unfoldable pub update_where : (A → Bool) → (A → A) → List A → List A
  update_where p f [] = []
  update_where p f (x ∷ xs) = (if p x then f x else x) ∷ update_where p f xs

  unfoldable pub delete_where : (A → Bool) → List A → List A
  delete_where p [] = []
  delete_where p (x ∷ xs) = let rest = delete_where p xs in if p x then rest else x ∷ rest

  unfoldable pub count_where : (A → Bool) → List A → ℕ
  count_where p [] = 0
  count_where p (x ∷ xs) = (if p x then 1 else 0) + count_where p xs

  -- `sum(column)` over the rows that pass
  unfoldable pub sum_where : (A → Bool) → (A → ℕ) → List A → ℕ
  sum_where p f [] = 0
  sum_where p f (x ∷ xs) = (if p x then f x else 0) + sum_where p f xs

  -- every row satisfies `P`
  abbrev pub All {κ} : (A → Type κ) → List A → Type κ
  All P [] = Unit
  All P (x ∷ xs) = P x × All P xs

  -- the row stands in the table
  pub data Row (x : A) : List A → Type ℓ where
    here : (xs : List A) → Row x (x ∷ xs)
    there : (y : A) (xs : List A) → Row x xs → Row x (y ∷ xs)

  -- a unique constraint: no two rows are `same`
  abbrev pub Unique : (A → A → Bool) → List A → Type ℓ
  Unique same [] = Unit
  Unique same (x ∷ xs) = All (λ y. same x y ≡ true → ⊥) xs × Unique same xs
