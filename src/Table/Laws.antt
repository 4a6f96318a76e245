-- ===== src/Table/Laws.antt =====
-- The laws of the SQL operations that the components share.
use personal_vault_rag.Prelude.{
  All, Bool, Bool-cases, List, [], ap, arith, if◌then◌else◌, inl, inr, refl, true, ℕ, ◌++◌, ◌+◌,
  ◌∷◌, ◌≡◌, ◌≤◌,
}
use personal_vault_rag.Table.{update, count, sum}

module _ {ℓ} {A : Type ℓ} where
  pub sum-append : (f : A → ℕ) (xs ys : List A) → sum f (xs ++ ys) ≡ sum f xs + sum f ys
  unfolding sum
  sum-append f [] ys = omega arith
  sum-append f (x ∷ xs) ys = omega (arith, sum-append f xs ys)

  pub count-append : (p : A → Bool) (xs ys : List A) → count p (xs ++ ys) ≡ count p xs + count p ys
  unfolding count
  count-append p [] ys = omega arith
  count-append p (x ∷ xs) ys = omega (arith, count-append p xs ys)

  -- A sum grows with its summands.
  pub sum_mono : (f g : A → ℕ) (xs : List A) → All (λ x. f x ≤ g x) xs → sum f xs ≤ sum g xs
  unfolding sum
  sum_mono f g [] h = omega arith
  sum_mono f g (x ∷ xs) h = omega (arith, sum_mono f g xs h.1)

  -- An UPDATE that raises no row's summand raises no sum.
  pub sum-update-le :
      (f : A → ℕ) (p : A → Bool) (g : A → A) (xs : List A)
      → All (λ x. p x ≡ true → f (g x) ≤ f x) xs
      → sum f (update p g xs) ≤ sum f xs
  unfolding sum update
  sum-update-le f p g [] h = omega arith
  sum-update-le f p g (x ∷ xs) h = elim (Bool-cases (p x)) [
    | inl e ↦ rw e (omega (arith, sum-update-le f p g xs h.1, h.0 e))
    | inr e ↦ rw e (omega (arith, sum-update-le f p g xs h.1))
  ]

  pub All-map {κ μ} :
      {P : A → Type κ} {Q : A → Type μ} (f : (a : A) → P a → Q a) (xs : List A)
      → All P xs
      → All Q xs
  All-map f [] h = tt
  All-map f (x ∷ xs) h = (f x h.0, All-map f xs h.1)

  pub All-of {κ} : {P : A → Type κ} (f : (a : A) → P a) (xs : List A) → All P xs
  All-of f [] = tt
  All-of f (x ∷ xs) = (f x, All-of f xs)

  -- An UPDATE leaves the rows that its WHERE does not fit.
  pub update-none : (p : A → Bool) (f : A → A) (xs : List A) → count p xs ≡ 0 → update p f xs ≡ xs
  unfolding update count
  update-none p f [] h = refl
  update-none p f (x ∷ xs) h = elim (Bool-cases (p x)) [
    | inl e ↦ absurd (ground arith)
    | inr e ↦ rw (e, update-none p f xs (ground arith))
  ]

  pub update-append :
      (p : A → Bool) (f : A → A) (xs ys : List A)
      → update p f (xs ++ ys) ≡ update p f xs ++ update p f ys
  unfolding update
  update-append p f [] ys = refl
  update-append p f (x ∷ xs) ys = ap (λ l. (if p x then f x else x) ∷ l) (update-append p f xs ys)

  pub All-of_count_zero {κ} :
      (P : A → Type κ) (p : A → Bool) (xs : List A)
      → count p xs ≡ 0
      → All (λ x. p x ≡ true → P x) xs
  unfolding count
  All-of_count_zero P p [] h = tt
  All-of_count_zero P p (x ∷ xs) h = elim (Bool-cases (p x)) [
    | inl e ↦ absurd (ground arith)
    | inr e ↦ (λ e'. absurd (ground arith), All-of_count_zero P p xs (ground arith))
  ]

  -- An UPDATE that fits the last row alone.
  pub update-last :
      (p : A → Bool) (f : A → A) (xs : List A) (x : A)
      → count p xs ≡ 0
      → p x ≡ true
      → update p f (xs ++ x ∷ []) ≡ xs ++ f x ∷ []
  unfolding update
  update-last p f xs x h e = rw (update-append p f xs (x ∷ []), update-none p f xs h, e) refl
