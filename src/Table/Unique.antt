-- ===== src/Table/Unique.antt =====
-- Tables in which a key stands once.
use personal_vault_rag.Prelude.{
  All, Bool, Bool-cases, List, [], arith, false, inl, inr, refl, some, subst, true, ◌++◌, ◌∷◌, ◌≡◌,
  ◌≤◌, ◌<◌,
}
use personal_vault_rag.Table.{fetch_one, count}
use personal_vault_rag.Table.Each.{has}
use personal_vault_rag.Table.Laws.{All-map, count-append}
use personal_vault_rag.Table.Rows.{Place, Place-later, count-Place}

module _ {ℓ} {A : Type ℓ} where
  pub count-fetch_one :
      (p q : A → Bool)
      → ((x : A) → p x ≡ true → q x ≡ true)
      → (xs : List A) (x : A) → fetch_one p xs ≡ some x
      → 0 < count q xs
  unfolding fetch_one count
  count-fetch_one p q fits [] x h = absurd (ground arith)
  count-fetch_one p q fits (y ∷ xs) x h = elim (Bool-cases (p y)) [
    | inl e ↦ rw (fits y e) (omega arith)
    | inr e ↦ ground (arith, count-fetch_one p q fits xs x)
  ]

  pub count-none : (q : A → Bool) (xs : List A) → count q xs ≡ 0 → All (λ x. q x ≡ false) xs
  unfolding count
  count-none q [] h = tt
  count-none q (x ∷ xs) h = ground (arith, count-none q xs)

  All-vacuous :
      (q : A → Bool) (xs : List A) (x : A)
      → All (λ y. q y ≡ false) xs
      → All (λ y. q y ≡ true → y ≡ x) xs
  All-vacuous q [] x n = tt
  All-vacuous q (y ∷ xs) x n = (λ g. absurd (ground arith), All-vacuous q xs x n.1)

  has-count : (q : A → Bool) (xs : List A) → has q xs ≡ false → count q xs ≡ 0
  unfolding fetch_one count
  has-count q [] h = refl
  has-count q (y ∷ ys) h = ground (arith, has-count q ys)

  -- Where a key stands once at most, a row that has it is every row that has it.
  pub fetch_one-only :
      (p q : A → Bool)
      → ((x : A) → p x ≡ true → q x ≡ true)
      → (xs : List A) (x : A) → count q xs ≤ 1
      → fetch_one p xs ≡ some x
      → All (λ y. q y ≡ true → y ≡ x) xs
  unfolding fetch_one count
  fetch_one-only p q fits [] x u h = tt
  fetch_one-only p q fits (y ∷ xs) x u h = elim (Bool-cases (p y)) [
    | inl e ↦
        let s : y ≡ x = ground arith in
        let f = fits y e in (λ _. s, All-vacuous q xs x (count-none q xs (ground arith)))
    | inr e ↦ elim (Bool-cases (q y)) [
      | inl f ↦ absurd (ground (arith, count-fetch_one p q fits xs x))
      | inr f ↦
          (λ g. absurd (ground arith), fetch_one-only p q fits xs x (ground arith) (ground arith))
    ]
  ]

  -- A row with a new key, or an UPDATE that leaves the keys, keeps them unique.
  pub count-append_new :
      (q : A → Bool) (xs : List A) (x : A)
      → count q xs ≤ 1
      → (q x ≡ true → has q xs ≡ false)
      → count q (xs ++ x ∷ []) ≤ 1
  unfolding count
  count-append_new q xs x u new = elim (Bool-cases (q x)) [
    | inl e ↦ rw (count-append, e) (omega (arith, has-count q xs (new e)))
    | inr e ↦ rw (count-append, e) (omega arith)
  ]

  pub fetch_one-All {κ} :
      (P : A → Type κ) (p : A → Bool) (xs : List A) (x : A)
      → All P xs
      → fetch_one p xs ≡ some x
      → P x
  unfolding fetch_one
  fetch_one-All P p [] x h e = absurd (ground arith)
  fetch_one-All P p (y ∷ xs) x h e = elim (Bool-cases (p y)) [
    | inl f ↦ let q : y ≡ x = ground arith in subst P q h.0
    | inr f ↦ fetch_one-All P p xs x h.1 (ground arith)
  ]

  -- A query that finds nothing before an INSERT finds the new row.
  pub fetch_one-append_new :
      (p : A → Bool) (xs : List A) (x : A)
      → has p xs ≡ false
      → p x ≡ true
      → fetch_one p (xs ++ x ∷ []) ≡ some x
  unfolding fetch_one
  fetch_one-append_new p [] x h e = rw e refl
  fetch_one-append_new p (y ∷ xs) x h e = ground (arith, fetch_one-append_new p xs x)

  -- Where no row fits a wider test, none fits a narrower one.
  pub has_wider :
      (p q : A → Bool)
      → ((x : A) → p x ≡ true → q x ≡ true)
      → (xs : List A) → has q xs ≡ false
      → has p xs ≡ false
  unfolding fetch_one
  has_wider p q fits [] h = refl
  has_wider p q fits (x ∷ xs) h = elim (Bool-cases (p x)) [
    | inl e ↦ absurd (ground (arith, fits x))
    | inr e ↦ ground (arith, has_wider p q fits xs)
  ]

  fetch_one-first :
      (p : A → Bool) (before : List A) (x : A) (after : List A)
      → count p before ≡ 0
      → p x ≡ true
      → fetch_one p (before ++ x ∷ after) ≡ some x
  unfolding fetch_one count
  fetch_one-first p [] x after h e = rw e refl
  fetch_one-first p (y ∷ before) x after h e = ground (arith, fetch_one-first p before x after)

  -- A query that only one row can fit finds that row.
  pub fetch_one-Place_only :
      (p : A → Bool) (xs : List A) (x : A)
      → Place x xs
      → count p xs ≤ 1
      → p x ≡ true
      → fetch_one p xs ≡ some x
  fetch_one-Place_only p xs x at u e =
      let n = count-Place p at.before x at.after in
      let l = subst (λ l. count p l ≤ 1) at.split u in
      rw at.split (fetch_one-first p at.before x at.after (omega (arith, rw e at n)) e)

  pub All-Place : (xs : List A) → All (λ x. Place x xs) xs
  All-Place [] = tt
  All-Place (x ∷ xs) = (
    record { before = []; after = xs; split = refl },
    All-map (λ y h. Place-later x h) xs (All-Place xs),
  )
