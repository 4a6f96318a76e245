-- ===== src/Retrieval/Kept.antt =====
-- A property of all rows through the reordering and the selection of `search` in app/retrieval.py.
use personal_vault_rag.Prelude.{
  All, All-append, Bool-cases, List, Option, Option-cases, String, [], arith, get_elem?, inl, inr,
  none, same, some, subst, suc, sym, zero, ℕ, ◌++◌, ◌∷◌, ◌≡◌,
}
use personal_vault_rag.Table.{fetch_one}
use personal_vault_rag.Retrieval.{
  Row, loaded_row, keep_loaded, pick, reorder, bump, doc_of, is_skipped, is_last, select_from,
}
use personal_vault_rag.Retrieval.Selection.{select_from-skip, select_from-last, select_from-take}
use personal_vault_rag.Table.Unique.{fetch_one-All}

module _ (P : Row → Type 0) where
  pub All-keep_loaded :
      (rows : List Row) (ids : List String) → All P rows → All P (keep_loaded rows ids)
  unfolding keep_loaded loaded_row
  All-keep_loaded rows [] h = tt
  All-keep_loaded rows (id ∷ ids) h =
      elim (Option-cases (fetch_one (λ r. same r.chunk.id id) rows)) [
        | inl e ↦
            let q : keep_loaded rows (id ∷ ids) ≡ keep_loaded rows ids = ground arith in
            subst (All P) (sym q) (All-keep_loaded rows ids h)
        | inr (r, e) ↦
            let q : keep_loaded rows (id ∷ ids) ≡ r ∷ keep_loaded rows ids = ground arith in
            subst (All P) (sym q)
              (fetch_one-All P (λ r. same r.chunk.id id) rows r h e, All-keep_loaded rows ids h)
      ]

  All-get_elem? : (xs : List Row) (i : ℕ) (x : Row) → All P xs → get_elem? xs i ≡ some x → P x
  All-get_elem? [] i x h e = absurd (ground arith)
  All-get_elem? (y ∷ ys) zero x h e = subst P (ground arith) h.0
  All-get_elem? (y ∷ ys) (suc i) x h e = All-get_elem? ys i x h.1 e

  All-pick :
      (xs : List Row) (indices : List ℕ) (ys : List Row)
      → All P xs
      → pick xs indices ≡ some ys
      → All P ys
  unfolding pick
  All-pick xs [] ys h e = let q : [] ≡ ys = ground arith in subst (All P) q tt
  All-pick xs (i ∷ is) ys h e = elim (Option-cases (get_elem? xs i)) [
    | inl n ↦ absurd (ground arith)
    | inr (x, at) ↦ elim (Option-cases (pick xs is)) [
      | inl n ↦ absurd (ground arith)
      | inr (rest, e') ↦
          let q : x ∷ rest ≡ ys = ground arith in
          subst (All P) q (All-get_elem? xs i x h at, All-pick xs is rest h e')
    ]
  ]

  pub All-reorder : (xs : List Row) (reply : Option (List ℕ)) → All P xs → All P (reorder xs reply)
  unfolding reorder
  All-reorder [] reply h = tt
  All-reorder (x ∷ []) reply h = h
  All-reorder (x ∷ y ∷ xs) none h = h
  All-reorder (x ∷ y ∷ xs) (some indices) h = elim (Option-cases (pick (x ∷ y ∷ xs) indices)) [
    | inl e ↦ rw e h
    | inr (ys, e) ↦ rw e (All-pick (x ∷ y ∷ xs) indices ys h e)
  ]

  pub All-select_from :
      (limit : ℕ) (counts : String → ℕ) (selected ranked : List Row)
      → All P selected
      → All P ranked
      → All P (select_from limit counts selected ranked)
  All-select_from limit counts selected [] hs hr = unfold select_from in hs
  All-select_from limit counts selected (r ∷ rs) hs hr =
      elim (Bool-cases (is_skipped limit counts selected r)) [
        | inl e ↦
            subst (All P) (sym (select_from-skip limit counts selected r rs e))
              (All-select_from limit counts selected rs hs hr.1)
        | inr e ↦
            let more = All-append P selected (r ∷ []) hs (hr.0, tt) in
            elim (Bool-cases (is_last limit selected)) [
              | inl e' ↦ subst (All P) (sym (select_from-last limit counts selected r rs e e')) more
              | inr e' ↦
                  subst (All P) (sym (select_from-take limit counts selected r rs e e')) (
                    All-select_from limit (bump (doc_of r) counts) (selected ++ r ∷ []) rs more
                      hr.1)
            ]
      ]
