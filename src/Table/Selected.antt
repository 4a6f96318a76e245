-- ===== src/Table/Selected.antt =====
-- What a SELECT finds after a DELETE and an INSERT.
use personal_vault_rag.Prelude.{
  All, Bool, Bool-cases, List, [], false, inl, inr, refl, true, ◌++◌, ◌∷◌, ◌≡◌,
}
use personal_vault_rag.Table.{select, delete}

module _ {ℓ} {A : Type ℓ} (p : A → Bool) where
  pub select-append : (xs ys : List A) → select p (xs ++ ys) ≡ select p xs ++ select p ys
  unfolding select
  select-append [] ys = refl
  select-append (x ∷ xs) ys = elim (Bool-cases (p x)) [
    | inl e ↦ rw (e, select-append xs ys) refl
    | inr e ↦ rw (e, select-append xs ys) refl
  ]

  pub select-delete_same : (xs : List A) → select p (delete p xs) ≡ []
  unfolding select delete
  select-delete_same [] = refl
  select-delete_same (x ∷ xs) = elim (Bool-cases (p x)) [
    | inl e ↦ rw e (select-delete_same xs)
    | inr e ↦ rw (e, e) (select-delete_same xs)
  ]

  pub select-delete_other :
      (q : A → Bool) (xs : List A)
      → ((x : A) → p x ≡ true → q x ≡ false)
      → select p (delete q xs) ≡ select p xs
  unfolding select delete
  select-delete_other q [] h = refl
  select-delete_other q (x ∷ xs) h = elim (Bool-cases (p x)) [
    | inl e ↦ rw (h x e, e, select-delete_other q xs h) refl
    | inr e ↦ elim (Bool-cases (q x)) [
      | inl f ↦ rw (f, e) (select-delete_other q xs h)
      | inr f ↦ rw (f, e) (select-delete_other q xs h)
    ]
  ]

  pub select_every : (xs : List A) → All (λ x. p x ≡ true) xs → select p xs ≡ xs
  unfolding select
  select_every [] h = refl
  select_every (x ∷ xs) h = rw (h.0, select_every xs h.1) refl

  -- The rows of a key are replaced.
  pub select-replaced :
      (xs ys : List A) → All (λ x. p x ≡ true) ys → select p (delete p xs ++ ys) ≡ ys
  select-replaced xs ys h = rw (select-append, select-delete_same, select_every, h) refl

  pub delete-append : (xs ys : List A) → delete p (xs ++ ys) ≡ delete p xs ++ delete p ys
  unfolding select delete
  delete-append [] ys = refl
  delete-append (x ∷ xs) ys = elim (Bool-cases (p x)) [
    | inl e ↦ rw (e, delete-append xs ys) refl
    | inr e ↦ rw (e, delete-append xs ys) refl
  ]

  pub delete-none : (xs : List A) → All (λ x. p x ≡ false) xs → delete p xs ≡ xs
  unfolding select delete
  delete-none [] h = refl
  delete-none (x ∷ xs) h = rw (h.0, delete-none xs h.1) refl

  pub select-delete_gone : (q : A → Bool) (xs : List A) → select p (delete q (delete p xs)) ≡ []
  unfolding select delete
  select-delete_gone q [] = refl
  select-delete_gone q (x ∷ xs) = elim (Bool-cases (p x)) [
    | inl e ↦ rw e (select-delete_gone q xs)
    | inr e ↦ elim (Bool-cases (q x)) [
      | inl f ↦ rw (e, f) (select-delete_gone q xs)
      | inr f ↦ rw (e, f) (rw e (select-delete_gone q xs))
    ]
  ]
