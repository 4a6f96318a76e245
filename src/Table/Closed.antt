-- ===== src/Table/Closed.antt =====
-- Rows that are closed for good: a code that is used, a token that is revoked.
use personal_vault_rag.Prelude.{
  Bool, Bool-cases, List, [], ap, arith, if◌then◌else◌, inl, inr, refl, some, true, ◌++◌, ◌∷◌, ◌≡◌,
}
use personal_vault_rag.Table.{fetch_one, update}

module _ {ℓ} {A : Type ℓ} (p : A → Bool) where
  -- The row that a SELECT by the key `p` finds is closed.
  abbrev pub Closed : (A → Bool) → List A → Type ℓ
  Closed closed xs = (x : A) × ((fetch_one p xs ≡ some x) × (closed x ≡ true))

  pub fetch_one-append :
      (xs ys : List A) (x : A) → fetch_one p xs ≡ some x → fetch_one p (xs ++ ys) ≡ some x
  unfolding fetch_one
  fetch_one-append [] ys x h = absurd (ground arith)
  fetch_one-append (y ∷ xs) ys x h = elim (Bool-cases (p y)) [
    | inl e ↦ rw e (rw e at h)
    | inr e ↦ rw e (fetch_one-append xs ys x (rw e at h))
  ]

  key-kept :
      (q : A → Bool) (f : A → A)
      → ((x : A) → p (f x) ≡ p x)
      → (x : A) → p (if q x then f x else x) ≡ p x
  key-kept q f same_key x = elim (Bool-cases (q x)) [
    | inl e ↦ rw e (same_key x)
    | inr e ↦ rw e refl
  ]

  pub fetch_one-update :
      (q : A → Bool) (f : A → A)
      → ((x : A) → p (f x) ≡ p x)
      → (xs : List A) (x : A) → fetch_one p xs ≡ some x
      → fetch_one p (update q f xs) ≡ some (if q x then f x else x)
  unfolding fetch_one update
  fetch_one-update q f same_key [] x h = absurd (ground arith)
  fetch_one-update q f same_key (y ∷ ys) x h = elim (Bool-cases (p y)) [
    | inl e ↦
        let here : y ≡ x = ground arith in
        rw (key-kept q f same_key y, e) (ap (λ z. some (if q z then f z else z)) here)
    | inr e ↦ rw (key-kept q f same_key y, e) (fetch_one-update q f same_key ys x (rw e at h))
  ]

  pub Closed-append :
      (closed : A → Bool) (xs ys : List A) → Closed closed xs → Closed closed (xs ++ ys)
  Closed-append closed xs ys (x, (found, done)) = (x, (fetch_one-append xs ys x found, done))

  pub Closed-update :
      (closed q : A → Bool) (f : A → A)
      → ((x : A) → p (f x) ≡ p x)
      → ((x : A) → closed (f x) ≡ true)
      → (xs : List A) → Closed closed xs
      → Closed closed (update q f xs)
  Closed-update closed q f same_key closes xs (x, (found, done)) = (
    (if q x then f x else x),
    (
      fetch_one-update q f same_key xs x found,
      elim (Bool-cases (q x)) [ inl e ↦ rw e (closes x) | inr e ↦ rw e done ],
    ),
  )

  -- An UPDATE that closes the row of the key.
  pub Closed-enter :
      (closed q : A → Bool) (f : A → A)
      → ((x : A) → p (f x) ≡ p x)
      → ((x : A) → closed (f x) ≡ true)
      → (xs : List A) (x : A) → fetch_one p xs ≡ some x
      → q x ≡ true
      → Closed closed (update q f xs)
  Closed-enter closed q f same_key closes xs x found fits =
      ((if q x then f x else x), (fetch_one-update q f same_key xs x found, rw fits (closes x)))

  -- An UPDATE that changes neither the key nor the property.
  pub Closed-kept :
      (closed q : A → Bool) (f : A → A)
      → ((x : A) → p (f x) ≡ p x)
      → ((x : A) → closed (f x) ≡ closed x)
      → (xs : List A) → Closed closed xs
      → Closed closed (update q f xs)
  Closed-kept closed q f same_key keeps xs (x, (found, done)) = (
    (if q x then f x else x),
    (
      fetch_one-update q f same_key xs x found,
      elim (Bool-cases (q x)) [ inl e ↦ rw (e, keeps) done | inr e ↦ rw e done ],
    ),
  )
