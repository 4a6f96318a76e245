-- ===== src/Table.antt =====
-- The SQL of app/db.py's clients over a table as the list of its rows, in insertion order:
-- SELECT … WHERE, fetchone, UPDATE … SET … WHERE, DELETE, COUNT, SUM and ORDER BY … LIMIT 1.
pub mod Laws
pub mod Rows
pub mod Closed
pub mod Each
pub mod Selected
pub mod Unique
pub mod Ordered
use personal_vault_rag.Prelude.{
  Bool, List, Option, [], if◌then◌else◌, leb, none, not, some, ℕ, ◌+◌, ◌∷◌,
}

module _ {ℓ} {A : Type ℓ} where
  unfoldable pub select : (A → Bool) → List A → List A
  select p [] = []
  select p (x ∷ xs) = let rest = select p xs in if p x then x ∷ rest else rest

  unfoldable pub fetch_one : (A → Bool) → List A → Option A
  fetch_one p [] = none
  fetch_one p (x ∷ xs) = let rest = fetch_one p xs in if p x then some x else rest

  unfoldable pub update : (A → Bool) → (A → A) → List A → List A
  update p f [] = []
  update p f (x ∷ xs) = (if p x then f x else x) ∷ update p f xs

  unfoldable pub delete : (A → Bool) → List A → List A
  unfolding select
  delete p xs = select (λ x. not (p x)) xs

  unfoldable pub count : (A → Bool) → List A → ℕ
  count p [] = 0
  count p (x ∷ xs) = (if p x then 1 else 0) + count p xs

  unfoldable pub sum : (A → ℕ) → List A → ℕ
  sum f [] = 0
  sum f (x ∷ xs) = f x + sum f xs

  -- The first row that no other row precedes: ORDER BY … LIMIT 1 where `before` is the order.
  unfoldable pub first_by : (A → A → Bool) → List A → Option A
  first_by before [] = none
  first_by before (x ∷ xs) = elim (first_by before xs) [
    | none ↦ some x
    | some y ↦ if before y x then some y else some x
  ]

  abbrev pub insert_by : (A → ℕ) → A → List A → List A
  insert_by key x [] = x ∷ []
  insert_by key x (y ∷ ys) = if leb (key x) (key y) then x ∷ y ∷ ys else y ∷ insert_by key x ys

  -- ORDER BY
  unfoldable pub order_by : (A → ℕ) → List A → List A
  order_by key [] = []
  order_by key (x ∷ xs) = insert_by key x (order_by key xs)
