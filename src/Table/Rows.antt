-- ===== src/Table/Rows.antt =====
-- Where a row that a query finds stands in its table, and what an UPDATE by a key does there.
use personal_vault_rag.Prelude.{
  All, Bool, Bool-cases, List, Option-cases, [], ap, arith, false, if◌then◌else◌, inl, inr, none,
  refl, some, subst, sym, true, ◌++◌, ◌+◌, ◌∙◌, ◌∷◌, ◌≡◌, ◌≤◌,
}
use personal_vault_rag.Table.{select, fetch_one, update, count, first_by}
use personal_vault_rag.Table.Laws.{update-append, update-none, All-map}

module _ {ℓ} {A : Type ℓ} where
  -- The table `xs` has the row `x` between `before` and `after`.
  pub record Place (x : A) (xs : List A) : Type ℓ where
    pub before : List A
    pub after : List A
    pub split : xs ≡ before ++ x ∷ after

  pub Place-later : (y : A) {x : A} {xs : List A} → Place x xs → Place x (y ∷ xs)
  Place-later y p = record {
    before = y ∷ p.before;
    after = p.after;
    split = ap (λ l. y ∷ l) p.split;
  }

  pub fetch_one-Place :
      (p : A → Bool) (xs : List A) (x : A) → fetch_one p xs ≡ some x → Place x xs × (p x ≡ true)
  unfolding fetch_one
  fetch_one-Place p [] x h = absurd (ground arith)
  fetch_one-Place p (y ∷ ys) x h = elim (Bool-cases (p y)) [
    | inl e ↦
        let q : y ≡ x = ground arith in
        (
          record { before = []; after = ys; split = ap (λ z. z ∷ ys) q },
          subst (λ z. p z ≡ true) q e,
        )
    | inr e ↦
        let (place, fits) = fetch_one-Place p ys x (ground arith) in (Place-later y place, fits)
  ]

  pub fetch_one-none : (p : A → Bool) (xs : List A) → fetch_one p xs ≡ none → count p xs ≡ 0
  unfolding fetch_one count
  fetch_one-none p [] h = refl
  fetch_one-none p (y ∷ ys) h = ground (arith, fetch_one-none p ys)

  pub first_by-Place :
      (before : A → A → Bool) (xs : List A) (x : A) → first_by before xs ≡ some x → Place x xs
  unfolding first_by
  first_by-Place before [] x h = absurd (ground arith)
  first_by-Place before (y ∷ ys) x h = elim (Option-cases (first_by before ys)) [
    | inl e ↦
        let q : y ≡ x = ground arith in
        record { before = []; after = ys; split = ap (λ z. z ∷ ys) q }
    | inr (z, e) ↦ elim (Bool-cases (before z y)) [
      | inl b ↦ Place-later y (first_by-Place before ys x (ground arith))
      | inr b ↦
          let q : y ≡ x = ground arith in
          record { before = []; after = ys; split = ap (λ z. z ∷ ys) q }
    ]
  ]

  pub first_by-none : (before : A → A → Bool) (xs : List A) → first_by before xs ≡ none → xs ≡ []
  unfolding first_by
  first_by-none before [] h = refl
  first_by-none before (y ∷ ys) h = absurd (ground (arith, first_by-none before ys))

  irreflexive :
      (before : A → A → Bool)
      → ((a b : A) → before a b ≡ true → before b a ≡ false)
      → (a : A) → before a a ≡ false
  irreflexive before asym a = ground (arith, asym a a)

  -- No row precedes the one that ORDER BY … LIMIT 1 finds.
  pub first_by-least :
      (before : A → A → Bool)
      → ((a b : A) → before a b ≡ true → before b a ≡ false)
      → ((a b c : A) → before a b ≡ false → before b c ≡ false → before a c ≡ false)
      → (xs : List A) (x : A) → first_by before xs ≡ some x
      → All (λ y. before y x ≡ false) xs
  unfolding first_by
  first_by-least before asym nt [] x h = tt
  first_by-least before asym nt (y ∷ ys) x h = elim (Option-cases (first_by before ys)) [
    | inl e ↦
        let q : y ≡ x = ground arith in
        (
          subst (λ v. before y v ≡ false) q (irreflexive before asym y),
          subst (All (λ v. before v x ≡ false)) (sym (first_by-none before ys e)) tt,
        )
    | inr (z, e) ↦ elim (Bool-cases (before z y)) [
      | inl b ↦
          let q : z ≡ x = ground arith in
          (
            subst (λ v. before y v ≡ false) q (asym z y b),
            first_by-least before asym nt ys x (ground arith),
          )
      | inr b ↦
          let q : y ≡ x = ground arith in
          (
            subst (λ v. before y v ≡ false) q (irreflexive before asym y),
            All-map (λ w k. subst (λ v. before w v ≡ false) q (nt w z y k b)) ys
                (first_by-least before asym nt ys z e),
          )
    ]
  ]

  pub count-Place :
      (p : A → Bool) (xs : List A) (x : A) (ys : List A)
      → count p (xs ++ x ∷ ys) ≡ count p xs + (if p x then 1 else 0) + count p ys
  unfolding count
  count-Place p [] x ys = omega arith
  count-Place p (y ∷ xs) x ys = omega (arith, count-Place p xs x ys)

  -- An UPDATE by a key that no two rows share changes the row with the key and no other.
  pub update-Place :
      (q : A → Bool) (g : A → A) (xs : List A) (x : A) (ys : List A)
      → count q (xs ++ x ∷ ys) ≤ 1
      → q x ≡ true
      → update q g (xs ++ x ∷ ys) ≡ xs ++ g x ∷ ys
  unfolding update
  update-Place q g xs x ys h e =
      let n : count q xs + 1 + count q ys ≤ 1 = rw e at (rw count-Place at h) in
      rw (
        update-append q g xs (x ∷ ys),
        update-none q g xs (omega arith),
        e,
        update-none q g ys (omega arith),
      )

  pub count-update :
      (p q : A → Bool) (g : A → A) (xs : List A)
      → All (λ x. q x ≡ true → p (g x) ≡ p x) xs
      → count p (update q g xs) ≡ count p xs
  unfolding count update
  count-update p q g [] h = refl
  count-update p q g (x ∷ xs) h = elim (Bool-cases (q x)) [
    | inl e ↦ rw (e, h.0 e, count-update p q g xs h.1)
    | inr e ↦ rw (e, count-update p q g xs h.1)
  ]

  pub count-update-le :
      (p q : A → Bool) (g : A → A) (xs : List A)
      → All (λ x. q x ≡ true → p (g x) ≡ true → p x ≡ true) xs
      → count p (update q g xs) ≤ count p xs
  unfolding count update
  count-update-le p q g [] h = omega arith
  count-update-le p q g (x ∷ xs) h = ground (arith, h.0, count-update-le p q g xs h.1)

  pub select-Place :
      (p : A → Bool) (xs : List A) (x : A) (before after : List A)
      → select p xs ≡ before ++ x ∷ after
      → Place x xs × (p x ≡ true)
  unfolding select
  select-Place p [] x [] after h = absurd (ground arith)
  select-Place p [] x (b ∷ before) after h = absurd (ground arith)
  select-Place p (y ∷ ys) x [] after h = elim (Bool-cases (p y)) [
    | inl e ↦
        let q : y ≡ x = ground arith in
        (
          record { before = []; after = ys; split = ap (λ z. z ∷ ys) q },
          subst (λ z. p z ≡ true) q e,
        )
    | inr e ↦
        let (place, fits) = select-Place p ys x [] after (ground arith) in
        (Place-later y place, fits)
  ]
  select-Place p (y ∷ ys) x (b ∷ before) after h = elim (Bool-cases (p y)) [
    | inl e ↦
        let (place, fits) = select-Place p ys x before after (ground arith) in
        (Place-later y place, fits)
    | inr e ↦
        let (place, fits) = select-Place p ys x (b ∷ before) after (ground arith) in
        (Place-later y place, fits)
  ]

  -- An UPDATE leaves a row that its WHERE does not fit.
  pub Place-update :
      (q : A → Bool) (g : A → A) {x : A} {xs : List A}
      → q x ≡ false
      → Place x xs
      → Place x (update q g xs)
  unfolding update
  Place-update q g {x} {xs} e p = record {
    before = update q g p.before;
    after = update q g p.after;
    split =
        ap (update q g) p.split
        ∙ update-append q g p.before (x ∷ p.after)
        ∙ ap (λ z. update q g p.before ++ z ∷ update q g p.after) (rw e);
  }

  pub count_mono :
      (p q : A → Bool) (xs : List A)
      → All (λ x. p x ≡ true → q x ≡ true) xs
      → count p xs ≤ count q xs
  unfolding count
  count_mono p q [] h = omega arith
  count_mono p q (x ∷ xs) h = ground (arith, h.0, count_mono p q xs h.1)
