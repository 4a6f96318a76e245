-- ===== src/Table/Ordered.antt =====
-- ORDER BY over all rows: the same rows, in the order of the key.
use personal_vault_rag.Prelude.{
  All, All-take, take, zero, suc, Bool, Bool-cases, Option-cases, some, ◌&&◌, ◌<◌, ap,
  if◌then◌else◌, ◌∙◌, List, [], arith, inl, inr, leb, leb→le, refl, true, ℕ, ◌+◌, ◌∷◌, ◌≡◌, ◌≤◌,
}
use personal_vault_rag.Table.{select, fetch_one, count, insert_by, order_by}
use personal_vault_rag.Table.Rows.{Place, count-Place, fetch_one-none}

module _ {ℓ} {A : Type ℓ} (key : A → ℕ) where
  -- No row's key is greater than a later one's.
  abbrev pub IsOrdered : List A → Type 0
  IsOrdered [] = Unit
  IsOrdered (x ∷ xs) = All (λ y. key x ≤ key y) xs × IsOrdered xs

  count-insert_by :
      (q : A → Bool) (x : A) (xs : List A) → count q (insert_by key x xs) ≡ count q (x ∷ xs)
  unfolding count
  count-insert_by q x [] = refl
  count-insert_by q x (y ∷ ys) = elim (Bool-cases (leb (key x) (key y))) [
    | inl e ↦ rw e refl
    | inr e ↦ rw e (omega (arith, count-insert_by q x ys))
  ]

  -- ORDER BY keeps every row as often as it stands in the table.
  pub count-order_by : (q : A → Bool) (xs : List A) → count q (order_by key xs) ≡ count q xs
  unfolding count order_by
  count-order_by q [] = refl
  count-order_by q (x ∷ xs) =
      count-insert_by q x (order_by key xs)
      ∙ ap (λ n. (if q x then 1 else 0) + n) (count-order_by q xs)

  pub All-insert_by {κ} :
      (P : A → Type κ) (x : A) (xs : List A) → P x → All P xs → All P (insert_by key x xs)
  All-insert_by P x [] p h = (p, tt)
  All-insert_by P x (y ∷ ys) p h = elim (Bool-cases (leb (key x) (key y))) [
    | inl e ↦ rw e (p, h)
    | inr e ↦ rw e (h.0, All-insert_by P x ys p h.1)
  ]

  pub All-order_by {κ} : (P : A → Type κ) (xs : List A) → All P xs → All P (order_by key xs)
  unfolding order_by
  All-order_by P [] h = tt
  All-order_by P (x ∷ xs) h = All-insert_by P x (order_by key xs) h.0 (All-order_by P xs h.1)

  All-above : (m n : ℕ) (xs : List A) → m ≤ n → All (λ y. n ≤ key y) xs → All (λ y. m ≤ key y) xs
  All-above m n [] l h = tt
  All-above m n (x ∷ xs) l h = (omega (arith, h.0), All-above m n xs l h.1)

  insert_by-IsOrdered : (x : A) (xs : List A) → IsOrdered xs → IsOrdered (insert_by key x xs)
  insert_by-IsOrdered x [] h = (tt, tt)
  insert_by-IsOrdered x (y ∷ ys) h = elim (Bool-cases (leb (key x) (key y))) [
    | inl e ↦ let l = leb→le (key x) (key y) e in rw e ((l, All-above (key x) (key y) ys l h.0), h)
    | inr e ↦
        rw e
          (All-insert_by (λ z. key y ≤ key z) x ys (ground arith) h.0, insert_by-IsOrdered x ys h.1)
  ]

  pub order_by-IsOrdered : (xs : List A) → IsOrdered (order_by key xs)
  unfolding order_by
  order_by-IsOrdered [] = tt
  order_by-IsOrdered (x ∷ xs) = insert_by-IsOrdered x (order_by key xs) (order_by-IsOrdered xs)

module _ {ℓ} {A : Type ℓ} where
  pub count-select :
      (p q : A → Bool) (xs : List A) → count q (select p xs) ≡ count (λ x. p x && q x) xs
  unfolding count select
  count-select p q [] = refl
  count-select p q (x ∷ xs) = elim (Bool-cases (p x)) [
    | inl e ↦ rw (e, count-select p q xs) refl
    | inr e ↦ rw e (omega (arith, count-select p q xs))
  ]

  pub All-select : (p : A → Bool) (xs : List A) → All (λ x. p x ≡ true) (select p xs)
  unfolding select
  All-select p [] = tt
  All-select p (x ∷ xs) = elim (Bool-cases (p x)) [
    | inl e ↦ rw e (e, All-select p xs)
    | inr e ↦ rw e (All-select p xs)
  ]

  -- A row of the table that fits is counted, and found.
  pub Place-count : (q : A → Bool) (xs : List A) (x : A) → Place x xs → q x ≡ true → 0 < count q xs
  Place-count q xs x at e = rw (at.split, count-Place q at.before x at.after, e) (omega arith)

  pub count-found :
      (q : A → Bool) (xs : List A) → 0 < count q xs → (x : A) × (fetch_one q xs ≡ some x)
  count-found q xs h = elim (Option-cases (fetch_one q xs)) [
    | inl e ↦ absurd (omega (arith, fetch_one-none q xs e))
    | inr f ↦ f
  ]

  pub All-selected {κ} :
      (P : A → Type κ) (p : A → Bool) (xs : List A)
      → All P xs
      → All (λ x. (p x ≡ true) × P x) (select p xs)
  unfolding select
  All-selected P p [] h = tt
  All-selected P p (x ∷ xs) h = elim (Bool-cases (p x)) [
    | inl e ↦ rw e ((e, h.0), All-selected P p xs h.1)
    | inr e ↦ rw e (All-selected P p xs h.1)
  ]

  pub take-IsOrdered :
      (key : A → ℕ) (n : ℕ) (xs : List A) → IsOrdered key xs → IsOrdered key (take n xs)
  take-IsOrdered key zero xs h = tt
  take-IsOrdered key (suc n) [] h = tt
  take-IsOrdered key (suc n) (x ∷ xs) h =
      (All-take (λ y. key x ≤ key y) n xs h.0, take-IsOrdered key n xs h.1)
