-- ===== src/Retrieval/Selection.antt =====
-- The loop of `search` in app/retrieval.py that selects the results from the ranked rows.
use personal_vault_rag.Prelude.{
  Bool, Bool-cases, List, String, [], ap, arith, false, inl, inr, length, length-append, ltb, refl,
  same, same_iff, subst, suc, sym, take, true, zero, ℕ, ◌++◌, ◌+◌, ◌/◌, ◌∙◌, ◌∷◌, ◌≡◌, ◌≤◌,
}
use personal_vault_rag.Table.{count}
use personal_vault_rag.Table.Laws.{count-append}
use personal_vault_rag.Retrieval.{Row, bump, doc_of, is_skipped, is_last, select_from, diversify}

module _ (limit : ℕ) (counts : String → ℕ) (selected : List Row) (r : Row) (rs : List Row) where
  pub select_from-skip :
      is_skipped limit counts selected r ≡ true
      → select_from limit counts selected (r ∷ rs) ≡ select_from limit counts selected rs
  unfolding select_from
  select_from-skip e = ground arith

  pub select_from-last :
      is_skipped limit counts selected r ≡ false
      → is_last limit selected ≡ true
      → select_from limit counts selected (r ∷ rs) ≡ selected ++ r ∷ []
  unfolding select_from
  select_from-last e e' = ground arith

  pub select_from-take :
      is_skipped limit counts selected r ≡ false
      → is_last limit selected ≡ false
      → select_from limit counts selected (r ∷ rs)
        ≡ select_from limit (bump (doc_of r) counts) (selected ++ r ∷ []) rs
  unfolding select_from
  select_from-take e e' = ground arith

-- `xs` is `ys` with elements left out.
pub data Sub {A : Type 0} : List A → List A → Type 0 where
  done : (ys : List A) → Sub [] ys
  keep : (x : A) (xs ys : List A) → Sub xs ys → Sub (x ∷ xs) (x ∷ ys)
  omit : (x : A) (xs ys : List A) → Sub xs ys → Sub xs (x ∷ ys)

append-one : {A : Type 0} (xs : List A) (x : A) (ys : List A) → (xs ++ x ∷ []) ++ ys ≡ xs ++ x ∷ ys
append-one [] x ys = refl
append-one (y ∷ xs) x ys = ap (λ l. y ∷ l) (append-one xs x ys)

append-nil : {A : Type 0} (xs : List A) → xs ++ [] ≡ xs
append-nil [] = refl
append-nil (x ∷ xs) = ap (λ l. x ∷ l) (append-nil xs)

select_from-Sub :
    (limit : ℕ) (counts : String → ℕ) (selected ranked : List Row)
    → (kept : List Row) × ((select_from limit counts selected ranked ≡ selected ++ kept)
        × Sub kept ranked)
select_from-Sub limit counts selected [] =
    ([], (unfold select_from in sym (append-nil selected), Sub.done []))
select_from-Sub limit counts selected (r ∷ rs) =
    elim (Bool-cases (is_skipped limit counts selected r)) [
      | inl e ↦
          let (kept, (q, s)) = select_from-Sub limit counts selected rs in
          (kept, (select_from-skip limit counts selected r rs e ∙ q, Sub.omit r kept rs s))
      | inr e ↦ elim (Bool-cases (is_last limit selected)) [
        | inl e' ↦ (
          r ∷ [],
          (select_from-last limit counts selected r rs e e', Sub.keep r [] rs (Sub.done rs)),
        )
        | inr e' ↦
            let (kept, (q, s)) =
              select_from-Sub limit (bump (doc_of r) counts) (selected ++ r ∷ []) rs in
            (
              r ∷ kept,
              (
                select_from-take limit counts selected r rs e e' ∙ q ∙ append-one selected r kept,
                Sub.keep r kept rs s,
              ),
            )
      ]
    ]

-- The results are ranked rows in their order: `diversify` leaves rows out and does nothing else.
pub diversify-Sub : (limit : ℕ) (ranked : List Row) → Sub (diversify limit ranked) ranked
unfolding diversify
diversify-Sub limit ranked =
    let (kept, (q, s)) = select_from-Sub limit (λ d. 0) [] ranked in
    subst (λ l. Sub l ranked) (sym q) s

select_from_le :
    (limit : ℕ) (counts : String → ℕ) (selected ranked : List Row)
    → length selected + 1 ≤ limit
    → length (select_from limit counts selected ranked) ≤ limit
select_from_le limit counts selected [] h = unfold select_from in omega (arith, h)
select_from_le limit counts selected (r ∷ rs) h =
    let n = length-append selected (r ∷ []) in
    elim (Bool-cases (is_skipped limit counts selected r)) [
      | inl e ↦
          rw (select_from-skip limit counts selected r rs e)
            (select_from_le limit counts selected rs h)
      | inr e ↦ elim (Bool-cases (is_last limit selected)) [
        | inl e' ↦ rw (select_from-last limit counts selected r rs e e') (omega (arith, n, h))
        | inr e' ↦
            let less : length selected + 1 + 1 ≤ limit = unfold is_last in ground arith in
            rw (select_from-take limit counts selected r rs e e') (
              select_from_le limit (bump (doc_of r) counts) (selected ++ r ∷ []) rs
                (omega (arith, n, less)))
      ]
    ]

-- With a limit of one or more there are at most `limit` results.
pub diversify_le :
    (limit : ℕ) (ranked : List Row) → 1 ≤ limit → length (diversify limit ranked) ≤ limit
unfolding diversify
diversify_le limit ranked h = select_from_le limit (λ d. 0) [] ranked h

-- Of a document `d` among rows.
abbrev pub of_document : String → Row → Bool
of_document d r = same (doc_of r) d

take_le : {A : Type 0} (p : A → Bool) (n : ℕ) (xs : List A) → count p (take n xs) ≤ count p xs
unfolding count
take_le p zero xs = omega arith
take_le p (suc n) [] = omega arith
take_le p (suc n) (x ∷ xs) = omega (arith, take_le p n xs)

take-append : {A : Type 0} (n : ℕ) (xs ys : List A) → n ≤ length xs → take n (xs ++ ys) ≡ take n xs
take-append zero xs ys h = refl
take-append (suc n) [] ys h = absurd (omega arith)
take-append (suc n) (x ∷ xs) ys h = ap (λ l. x ∷ l) (take-append n xs ys (omega arith))

take_all : {A : Type 0} (n : ℕ) (xs : List A) → length xs ≤ n → take n xs ≡ xs
take_all zero [] h = refl
take_all zero (x ∷ xs) h = absurd (omega arith)
take_all (suc n) [] h = refl
take_all (suc n) (x ∷ xs) h = ap (λ l. x ∷ l) (take_all n xs (omega arith))

-- What the loop has counted and kept so far.
record IsSpread (limit : ℕ) (counts : String → ℕ) (selected : List Row) : Type 0 where
  counted : (d : String) → counts d ≡ count (of_document d) selected
  spread : (d : String) → count (of_document d) (take (limit / 2) selected) ≤ 3

IsSpread-add :
    (limit : ℕ) (counts : String → ℕ) (selected : List Row) (r : Row)
    → is_skipped limit counts selected r ≡ false
    → IsSpread limit counts selected
    → IsSpread limit (bump (doc_of r) counts) (selected ++ r ∷ [])
IsSpread-add limit counts selected r e h = record {
  counted = λ d.
      let n = count-append (of_document d) selected (r ∷ []) in
      let c = h.counted d in unfold count in ground (arith, n, c);
  spread = λ d. elim (Bool-cases (ltb (length selected) (limit / 2))) [
    | inr full ↦ rw (take-append (limit / 2) selected (r ∷ []) (ground arith)) (h.spread d)
    | inl less ↦
        let most = take_le (of_document d) (limit / 2) (selected ++ r ∷ []) in
        let n = count-append (of_document d) selected (r ∷ []) in
        let c = h.counted d in
        let few : counts (doc_of r) ≤ 2 = unfold is_skipped in ground arith in
        let old : count (of_document d) selected ≤ 3 =
          rw (take_all (limit / 2) selected (ground arith)) at h.spread d in
        elim (Bool-cases (same (doc_of r) d)) [
          | inr other ↦ unfold count in ground (arith, most, n, old)
          | inl this ↦
              let q : counts d ≤ 2 = subst (λ x. counts x ≤ 2) ((same_iff _ _).0 this) few in
              unfold count in ground (arith, most, n, q, c)
        ]
  ];
}

select_from-spread :
    (limit : ℕ) (counts : String → ℕ) (selected ranked : List Row) (d : String)
    → IsSpread limit counts selected
    → count (of_document d) (take (limit / 2) (select_from limit counts selected ranked)) ≤ 3
select_from-spread limit counts selected [] d h = unfold select_from in h.spread d
select_from-spread limit counts selected (r ∷ rs) d h =
    elim (Bool-cases (is_skipped limit counts selected r)) [
      | inl e ↦
          rw (select_from-skip limit counts selected r rs e)
            (select_from-spread limit counts selected rs d h)
      | inr e ↦
          let more = IsSpread-add limit counts selected r e h in
          elim (Bool-cases (is_last limit selected)) [
            | inl e' ↦ rw (select_from-last limit counts selected r rs e e') (more.spread d)
            | inr e' ↦
                rw (select_from-take limit counts selected r rs e e')
                  (select_from-spread limit (bump (doc_of r) counts) (selected ++ r ∷ []) rs d more)
          ]
    ]

-- Of the first half of the results, three at most are of one document.
pub diversify-spread :
    (limit : ℕ) (ranked : List Row) (d : String)
    → count (of_document d) (take (limit / 2) (diversify limit ranked)) ≤ 3
unfolding diversify
diversify-spread limit ranked d =
    let none_yet : IsSpread limit (λ x. 0) [] =
      let empty : (n : ℕ) → ◌≡◌ {A = List Row} (take n []) [] = λ n. take_all n [] (omega arith) in
      record {
        counted = λ x. unfold count in refl;
        spread = λ x. unfold count in rw (empty (limit / 2)) (omega arith);
      } in
    select_from-spread limit (λ x. 0) [] ranked d none_yet
