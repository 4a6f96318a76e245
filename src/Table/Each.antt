-- ===== src/Table/Each.antt =====
-- Updates and deletions read row by row.
use personal_vault_rag.Prelude.{
  All, Bool, Bool-cases, List, [], ap, ap₂, arith, false, if◌then◌else◌, inl, inr, is_some, map,
  refl, true, ◌++◌, ◌∷◌, ◌≡◌,
}
use personal_vault_rag.Table.{select, fetch_one, update, delete}

-- The table has a row that fits.
abbrev pub has {ℓ} : {A : Type ℓ} → (A → Bool) → List A → Bool
has p xs = is_some (fetch_one p xs)

module _ {ℓ} {A : Type ℓ} where
  pub update-map :
      (p : A → Bool) (f : A → A) (xs : List A)
      → update p f xs ≡ map (λ x. if p x then f x else x) xs
  unfolding update
  update-map p f [] = refl
  update-map p f (x ∷ xs) = ap (λ l. (if p x then f x else x) ∷ l) (update-map p f xs)

  pub map_cong : (f g : A → A) (xs : List A) → All (λ x. f x ≡ g x) xs → map f xs ≡ map g xs
  map_cong f g [] h = refl
  map_cong f g (x ∷ xs) h = ap₂ (λ y l. y ∷ l) h.0 (map_cong f g xs h.1)

  pub map_same : (f : A → A) (xs : List A) → All (λ x. f x ≡ x) xs → map f xs ≡ xs
  map_same f [] h = refl
  map_same f (x ∷ xs) h = ap₂ (λ y l. y ∷ l) h.0 (map_same f xs h.1)

  -- A row that fits is left by a DELETE that takes no row that fits.
  pub has-delete :
      (p q : A → Bool) (xs : List A)
      → has p xs ≡ true
      → has p (select q xs) ≡ false
      → has p (delete q xs) ≡ true
  unfolding fetch_one delete
  has-delete p q [] h k = h
  has-delete p q (x ∷ xs) h k = elim (Bool-cases (p x)) [
    | inl e ↦ ground arith
    | inr e ↦ ground (arith, has-delete p q xs)
  ]

  pub has-select_none :
      (p q : A → Bool) (xs : List A)
      → ((x : A) → p x ≡ true → q x ≡ false)
      → has p (select q xs) ≡ false
  unfolding fetch_one select
  has-select_none p q [] h = refl
  has-select_none p q (x ∷ xs) h = ground (arith, h x, has-select_none p q xs h)

  -- What a DELETE leaves has what the table had.
  pub All-delete {κ} :
      (P : A → Type κ) (q : A → Bool) (xs : List A)
      → All P xs
      → All (λ x. (q x ≡ false) × P x) (delete q xs)
  unfolding delete
  All-delete P q [] h = tt
  All-delete P q (x ∷ xs) h = elim (Bool-cases (q x)) [
    | inl e ↦ rw e (All-delete P q xs h.1)
    | inr e ↦ rw e ((e, h.0), All-delete P q xs h.1)
  ]

  -- What an UPDATE leaves, by what it does to a row that fits and to one that does not.
  pub All-update {κ μ} :
      (P : A → Type κ) (Q : A → Type μ) (q : A → Bool) (f : A → A)
      → ((x : A) → P x → q x ≡ true → Q (f x))
      → ((x : A) → P x → q x ≡ false → Q x)
      → (xs : List A) → All P xs
      → All Q (update q f xs)
  unfolding update
  All-update P Q q f fits stays [] h = tt
  All-update P Q q f fits stays (x ∷ xs) h = elim (Bool-cases (q x)) [
    | inl e ↦ rw e (fits x h.0 e, All-update P Q q f fits stays xs h.1)
    | inr e ↦ rw e (stays x h.0 e, All-update P Q q f fits stays xs h.1)
  ]

  pub select-none : (q : A → Bool) (xs : List A) → All (λ x. q x ≡ false) xs → select q xs ≡ []
  unfolding select
  select-none q [] h = refl
  select-none q (x ∷ xs) h = rw (h.0, select-none q xs h.1) refl

  -- After an UPDATE every row is the new one of a row that fits, or one that does not fit.
  pub update-All {κ} :
      (Q : A → Type κ) (q : A → Bool) (f : A → A)
      → ((x : A) → q x ≡ true → Q (f x))
      → ((x : A) → q x ≡ false → Q x)
      → (xs : List A) → All Q (update q f xs)
  unfolding update
  update-All Q q f fits stays [] = tt
  update-All Q q f fits stays (x ∷ xs) = elim (Bool-cases (q x)) [
    | inl e ↦ rw e (fits x e, update-All Q q f fits stays xs)
    | inr e ↦ rw e (stays x e, update-All Q q f fits stays xs)
  ]

  pub delete-All : (q : A → Bool) (xs : List A) → All (λ x. q x ≡ false) (delete q xs)
  unfolding delete
  delete-All q [] = tt
  delete-All q (x ∷ xs) = elim (Bool-cases (q x)) [
    | inl e ↦ rw e (delete-All q xs)
    | inr e ↦ rw e (e, delete-All q xs)
  ]

  -- Every row that a DELETE leaves was there.
  pub All-deleted {κ} :
      (P : A → Type κ) (q : A → Bool) (xs : List A) → All P xs → All P (delete q xs)
  unfolding delete
  All-deleted P q [] h = tt
  All-deleted P q (x ∷ xs) h = elim (Bool-cases (q x)) [
    | inl e ↦ rw e (All-deleted P q xs h.1)
    | inr e ↦ rw e (h.0, All-deleted P q xs h.1)
  ]

  pub has-map :
      (p : A → Bool) (f : A → A)
      → ((x : A) → p (f x) ≡ p x)
      → (xs : List A) → has p (map f xs) ≡ has p xs
  unfolding fetch_one
  has-map p f keeps [] = refl
  has-map p f keeps (x ∷ xs) = ground (arith, keeps x, has-map p f keeps xs)

  pub has-updated :
      (p q : A → Bool) (f : A → A)
      → ((x : A) → p (f x) ≡ p x)
      → (xs : List A) → has p (update q f xs) ≡ has p xs
  unfolding fetch_one update
  has-updated p q f keeps [] = refl
  has-updated p q f keeps (x ∷ xs) = elim (Bool-cases (q x)) [
    | inl e ↦ rw (e, keeps x) (ground (arith, has-updated p q f keeps xs))
    | inr e ↦ rw e (ground (arith, has-updated p q f keeps xs))
  ]

  pub has-append_left : (p : A → Bool) (xs ys : List A) → has p xs ≡ true → has p (xs ++ ys) ≡ true
  unfolding fetch_one
  has-append_left p [] ys h = absurd (ground arith)
  has-append_left p (x ∷ xs) ys h = ground (arith, has-append_left p xs ys)

  pub has-append_right : (p : A → Bool) (xs ys : List A) → has p ys ≡ true → has p (xs ++ ys) ≡ true
  unfolding fetch_one
  has-append_right p [] ys h = h
  has-append_right p (x ∷ xs) ys h = ground (arith, has-append_right p xs ys)
