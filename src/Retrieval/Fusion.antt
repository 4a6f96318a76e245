-- ===== src/Retrieval/Fusion.antt =====
-- The fusion of the channels in `search` of app/retrieval.py.
use personal_vault_rag.Prelude.{
  All, Bool, Bool-cases, List, Option, String, [], ap, arith, false, if◌then◌else◌, inl, inr,
  length, length-take, map, max, min, none, refl, same, same_iff, some, subst, suc, sym, take, true,
  zero, ℕ, ◌*◌, ◌++◌, ◌+◌, ◌∙◌, ◌∷◌, ◌≡◌, ◌≤◌,
}
use personal_vault_rag.Table.{count}
use personal_vault_rag.Table.Laws.{All-map}
use personal_vault_rag.Retrieval.{
  Scores, Hit, credit, credit_all, fuse, insert_hit, sort_hits, ranked_ids,
}

abbrev pub has_chunk : {S : Scores} → String → Hit S → Bool
has_chunk id h = same h.chunk_id id

differ : (a b c : String) → same a b ≡ false → same a c ≡ true → same b c ≡ false
differ a b c e e' = elim (Bool-cases (same b c)) [
  | inr n ↦ n
  | inl t ↦
      let q : a ≡ b = (same_iff _ _).0 e' ∙ sym ((same_iff _ _).0 t) in
      let y : same a b ≡ true = (same_iff _ _).1 q in absurd (ground arith)
]

module _ (S : Scores) where
  -- `scores.get(id)` with `channels.get(id)`
  unfoldable pub found : String → List (Hit S) → Option (S.Score × List String)
  found id [] = none
  found id (h ∷ hs) =
      let rest = found id hs in if same h.chunk_id id then some (h.total, h.channels) else rest

  -- One more vote for a chunk.
  abbrev pub vote : Option (S.Score × List String) → S.Score → String → S.Score × List String
  vote none s channel = (S.add S.nil s, channel ∷ [])
  vote (some (total, channels)) s channel = (S.add total s, channels ++ channel ∷ [])

  -- The votes of a ranking for a chunk, one for each rank at which the chunk stands.
  unfoldable pub votes :
      (id channel : String) (rank : ℕ)
      → List String
      → Option (S.Score × List String)
      → Option (S.Score × List String)
  votes id channel rank [] before = before
  votes id channel rank (x ∷ xs) before =
      votes id channel (rank + 1) xs
        (if same x id then some (vote before (S.score rank) channel) else before)

  found-credit :
      (id channel x : String) (s : S.Score) (hits : List (Hit S))
      → found id (credit S channel x s hits)
        ≡ (if same x id then some (vote (found id hits) s channel) else found id hits)
  unfolding found credit
  found-credit id channel x s [] = refl
  found-credit id channel x s (h ∷ hs) = elim (Bool-cases (same h.chunk_id x)) [
    | inl e ↦
        let q : same h.chunk_id id ≡ same x id = ap (λ y. same y id) ((same_iff _ _).0 e) in
        elim (Bool-cases (same x id)) [ inl e' ↦ rw (e, q, e') refl | inr e' ↦ rw (e, q, e') refl ]
    | inr e ↦ elim (Bool-cases (same h.chunk_id id)) [
      | inr e' ↦ rw (e, e') (found-credit id channel x s hs)
      | inl e' ↦ rw (e, e', differ h.chunk_id x id e e') refl
    ]
  ]

  found-credit_all :
      (id channel : String) (rank : ℕ) (ids : List String) (hits : List (Hit S))
      → found id (credit_all S channel rank ids hits) ≡ votes id channel rank ids (found id hits)
  unfolding credit_all votes
  found-credit_all id channel rank [] hits = refl
  found-credit_all id channel rank (x ∷ xs) hits =
      found-credit_all id channel (rank + 1) xs (credit S channel x (S.score rank) hits)
      ∙ ap (votes id channel (rank + 1) xs) (found-credit id channel x (S.score rank) hits)

  -- The score and the channels that `search` finds for a chunk are those of its votes in the three
  -- rankings: each rank at which it stands adds that rank's score and the ranking's name, in the
  -- order lexical, dense, visual; a chunk that no ranking has gets neither.
  pub fuse-votes :
      (id : String) (lexical dense visual : List String)
      → found id (fuse S lexical dense visual)
        ≡ votes id "visual" 1 visual (votes id "dense" 1 dense (votes id "lexical" 1 lexical none))
  unfolding fuse found
  fuse-votes id lexical dense visual =
      let l = credit_all S "lexical" 1 lexical [] in
      let d = credit_all S "dense" 1 dense l in
      found-credit_all id "visual" 1 visual d
      ∙ ap (votes id "visual" 1 visual) (
          found-credit_all id "dense" 1 dense l
          ∙ ap (votes id "dense" 1 dense) (found-credit_all id "lexical" 1 lexical []))

  count-credit_other :
      (id channel x : String) (s : S.Score) (hits : List (Hit S))
      → same x id ≡ false
      → count (has_chunk id) (credit S channel x s hits) ≡ count (has_chunk id) hits
  unfolding count credit
  count-credit_other id channel x s [] e = rw e refl
  count-credit_other id channel x s (k ∷ ks) e = elim (Bool-cases (same k.chunk_id x)) [
    | inl t ↦ rw t refl
    | inr f ↦ rw (f, count-credit_other id channel x s ks e) refl
  ]

  count-credit :
      (id channel x : String) (s : S.Score) (hits : List (Hit S))
      → count (has_chunk id) hits ≤ 1
      → count (has_chunk id) (credit S channel x s hits) ≤ 1
  unfolding count credit
  count-credit id channel x s [] h = ground arith
  count-credit id channel x s (k ∷ ks) h = elim (Bool-cases (same k.chunk_id x)) [
    | inl t ↦ rw t h
    | inr f ↦ elim (Bool-cases (same k.chunk_id id)) [
      | inr e ↦
          let rest : count (has_chunk id) ks ≤ 1 = ground arith in
          rw (f, e) (omega (arith, count-credit id channel x s ks rest))
      | inl e ↦
          rw (f, e, count-credit_other id channel x s ks (differ k.chunk_id x id f e)) (rw e at h)
    ]
  ]

  count-credit_all :
      (id channel : String) (rank : ℕ) (ids : List String) (hits : List (Hit S))
      → count (has_chunk id) hits ≤ 1
      → count (has_chunk id) (credit_all S channel rank ids hits) ≤ 1
  unfolding credit_all
  count-credit_all id channel rank [] hits h = h
  count-credit_all id channel rank (x ∷ xs) hits h =
      count-credit_all id channel (rank + 1) xs (credit S channel x (S.score rank) hits)
        (count-credit id channel x (S.score rank) hits h)

  count-insert_hit :
      (id : String) (h : Hit S) (hits : List (Hit S))
      → count (has_chunk id) (insert_hit S h hits) ≡ count (has_chunk id) (h ∷ hits)
  unfolding count insert_hit
  count-insert_hit id h [] = refl
  count-insert_hit id h (k ∷ ks) = elim (Bool-cases (S.less h.total k.total)) [
    | inl e ↦ rw e (omega (arith, count-insert_hit id h ks))
    | inr e ↦ rw e refl
  ]

  count-sort_hits :
      (id : String) (hits : List (Hit S))
      → count (has_chunk id) (sort_hits S hits) ≡ count (has_chunk id) hits
  unfolding count sort_hits
  count-sort_hits id [] = refl
  count-sort_hits id (h ∷ hs) =
      count-insert_hit id h (sort_hits S hs)
      ∙ (unfold count in omega (arith, count-sort_hits id hs))

  count-chunk_id :
      (id : String) (n : ℕ) (hits : List (Hit S))
      → count (λ x. same x id) (take n (map (λ h. h.chunk_id) hits)) ≤ count (has_chunk id) hits
  unfolding count
  count-chunk_id id zero hits = omega arith
  count-chunk_id id (suc n) [] = omega arith
  count-chunk_id id (suc n) (h ∷ hs) = omega (arith, count-chunk_id id n hs)

  -- The candidates that `search` checks are fifty at most, each chunk once.
  pub ranked_ids_unique :
      (limit : ℕ) (lexical dense visual : List String) (id : String)
      → (length (ranked_ids S limit lexical dense visual) ≤ 50)
        × (count (λ x. same x id) (ranked_ids S limit lexical dense visual) ≤ 1)
  unfolding ranked_ids
  ranked_ids_unique limit lexical dense visual id =
      let n = min 50 (min 100 (max 20 (limit * 5)) * 2) in
      let hits = fuse S lexical dense visual in
      let empty : count (has_chunk {S = S} id) [] ≤ 1 = unfold count in omega arith in
      let once : count (has_chunk id) hits ≤ 1 =
        unfold fuse in
        count-credit_all id "visual" 1 visual _ (
          count-credit_all id "dense" 1 dense _
            (count-credit_all id "lexical" 1 lexical [] empty)) in
      (
        omega (arith, length-take n (map (λ h. h.chunk_id) (sort_hits S hits))),
        omega (arith, once, count-sort_hits id hits, count-chunk_id id n (sort_hits S hits)),
      )

  -- `reverse=True`: no hit stands before one of a greater score.
  unfoldable pub IsSorted : List (Hit S) → Type 0
  IsSorted [] = Unit
  IsSorted (h ∷ hs) = All (λ k. S.less h.total k.total ≡ false) hs × IsSorted hs

  insert_hit-All :
      (P : Hit S → Type 0) (h : Hit S) (hits : List (Hit S))
      → P h
      → All P hits
      → All P (insert_hit S h hits)
  unfolding insert_hit
  insert_hit-All P h [] p ps = (p, tt)
  insert_hit-All P h (k ∷ ks) p ps = elim (Bool-cases (S.less h.total k.total)) [
    | inl e ↦
        let q : insert_hit S h (k ∷ ks) ≡ k ∷ insert_hit S h ks = rw e refl in
        subst (All P) (sym q) (ps.0, insert_hit-All P h ks p ps.1)
    | inr e ↦
        let q : insert_hit S h (k ∷ ks) ≡ h ∷ k ∷ ks = rw e refl in subst (All P) (sym q) (p, ps)
  ]

  module _ (asym : (a b : S.Score) → S.less a b ≡ true → S.less b a ≡ false)
      (negative : (a b c : S.Score)
        → S.less a b ≡ false
        → S.less b c ≡ false
        → S.less a c ≡ false) where
    insert_hit-IsSorted :
        (h : Hit S) (hits : List (Hit S)) → IsSorted hits → IsSorted (insert_hit S h hits)
    unfolding insert_hit IsSorted
    insert_hit-IsSorted h [] s = (tt, tt)
    insert_hit-IsSorted h (k ∷ ks) s = elim (Bool-cases (S.less h.total k.total)) [
      | inl e ↦
          let q : insert_hit S h (k ∷ ks) ≡ k ∷ insert_hit S h ks = rw e refl in
          subst IsSorted (sym q) (
            insert_hit-All (λ x. S.less k.total x.total ≡ false) h ks (asym h.total k.total e) s.0,
            insert_hit-IsSorted h ks s.1,
          )
      | inr e ↦
          let q : insert_hit S h (k ∷ ks) ≡ h ∷ k ∷ ks = rw e refl in
          let below =
            All-map {Q = λ x. S.less h.total x.total ≡ false}
              (λ x p. negative h.total k.total x.total e p) ks s.0 in
          subst IsSorted (sym q) ((e, below), s)
    ]

    -- Where the order of the scores is asymmetric and its negation transitive, the fused hits are
    -- ranked by score, no hit before one of a greater score.
    pub sort_hits-IsSorted : (hits : List (Hit S)) → IsSorted (sort_hits S hits)
    unfolding sort_hits IsSorted
    sort_hits-IsSorted [] = tt
    sort_hits-IsSorted (h ∷ hs) = insert_hit-IsSorted h (sort_hits S hs) (sort_hits-IsSorted hs)
