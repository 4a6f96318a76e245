-- ===== src/Worker/Batches.antt =====
-- The batches of the embedding jobs of app/worker.py.
use mathlib.Core.List.{append_assoc, append-nil}
use personal_vault_rag.Prelude.{
  All, Bool, Bool-cases, List, Result, Result-cases, String, [], arith, drop, false, inl, inr,
  length, length-drop, ok, raise, refl, same_refl, suc, sym, subst, take, take-append-drop, true,
  zero, ℕ, ◌++◌, ◌+◌, ◌∙◌, ◌∷◌, ◌≡◌, ◌≤◌, ap,
}
use personal_vault_rag.Table.{fetch_one}
use personal_vault_rag.Table.Laws.{All-map}
use personal_vault_rag.Table.Each.{has, has-append_left, has-append_right}
use personal_vault_rag.Catalog.{Catalog, is_version}
use personal_vault_rag.Worker.Embed.{
  Embedder, batches_from, batches_of, Progress, is_done, new_batch, record_batch, embed_batches,
}

-- The items of the batches, one batch after another.
pub items_of : {A : Type 0} → List (ℕ × List A) → List A
items_of [] = []
items_of ((start, batch) ∷ rest) = batch ++ items_of rest

module _ {A : Type 0} (size : ℕ) (some_item : 1 ≤ size) where
  batches_from-items :
      (fuel start : ℕ) (items : List A)
      → length items ≤ fuel
      → items_of (batches_from size fuel start items) ≡ items
  unfolding batches_from items_of
  batches_from-items zero start [] h = refl
  batches_from-items zero start (x ∷ items) h = absurd (omega arith)
  batches_from-items (suc fuel) start [] h = refl
  batches_from-items (suc fuel) start (x ∷ items) h =
      ap (λ l. take size (x ∷ items) ++ l)
        (batches_from-items fuel (start + size) (drop size (x ∷ items))
          (omega (arith, length-drop size (x ∷ items))))
      ∙ take-append-drop size (x ∷ items)

  -- Where a batch takes one item at least, the batches of an embedding job hold its items, each once
  -- and in order.
  pub batches_of-items : (items : List A) → items_of (batches_of size items) ≡ items
  unfolding batches_of
  batches_of-items items = batches_from-items (length items) 0 items (omega arith)

module _ (stamp : ℕ) (vault_id version_id modality model : String) where
  abbrev is_recorded : Catalog → ℕ → Bool
  is_recorded c start = has (is_done stamp vault_id version_id modality model start) c.batches

  -- What the loop over the batches has done when it ends or raises: what was recorded is recorded;
  -- a call was made only for batches that were not, and of the batches called for one at most, the
  -- last, is not recorded afterwards; where the loop ended, all batches are.
  pub record IsPaid {A : Type 0} (c : Catalog) (calls : List ℕ) (batches : List (ℕ × List A))
      (r : Progress × Result String (Unit {0})) : Type 0 where
    pub kept : (start : ℕ) → is_recorded c start ≡ true → is_recorded r.0.0 start ≡ true
    pub new : List ℕ
    pub called : r.0.1 ≡ calls ++ new
    pub unpaid : All (λ start. is_recorded c start ≡ false) new
    pub done : List ℕ
    pub lost : List ℕ
    pub parted : new ≡ done ++ lost
    pub settled : All (λ start. is_recorded r.0.0 start ≡ true) done
    pub few : length lost ≤ 1
    pub finished : r.1 ≡ ok tt → All (λ b. is_recorded r.0.0 b.0 ≡ true) batches

  record_batch-kept :
      (c d : Catalog) (start count : ℕ)
      → record_batch stamp vault_id version_id modality model c start count ≡ ok d
      → ((s : ℕ) → is_recorded c s ≡ true → is_recorded d s ≡ true) × (is_recorded d start ≡ true)
  unfolding record_batch
  record_batch-kept c d start count h =
      let row = new_batch stamp vault_id version_id modality model start count in
      let key = is_done stamp vault_id version_id modality model start in
      elim (Bool-cases (has (is_version vault_id version_id) c.versions)) [
        | inr e ↦ absurd (ground arith)
        | inl e ↦ elim (Bool-cases (is_recorded c start)) [
          | inl f ↦
              let q : c ≡ d = ground arith in
              subst
                (λ x.
                  ((s : ℕ) → is_recorded c s ≡ true → is_recorded x s ≡ true)
                  × (is_recorded x start ≡ true))
                q (λ s k. k, f)
          | inr f ↦
              let q : record c { batches = c.batches ++ row ∷ [] } ≡ d = ground arith in
              let own : has key (row ∷ []) ≡ true =
                unfold fetch_one in
                ground (
                  arith,
                  same_refl vault_id,
                  same_refl version_id,
                  same_refl modality,
                  same_refl model,
                ) in
              subst
                (λ x.
                  ((s : ℕ) → is_recorded c s ≡ true → is_recorded x s ≡ true)
                  × (is_recorded x start ≡ true))
                q
                (
                  λ s k.
                      has-append_left (is_done stamp vault_id version_id modality model s) c.batches
                        (row ∷ []) k,
                  has-append_right key c.batches (row ∷ []) own,
                )
        ]
      ]

  module _ {A : Type 0} (embedder : Embedder A) where
    abbrev run : List (ℕ × List A) → Progress → Progress × Result String (Unit {0})
    run = embed_batches stamp vault_id version_id modality model embedder

    -- The first call raises.
    raised-IsPaid :
        (c : Catalog) (calls : List ℕ) (start : ℕ) (batches : List (ℕ × List A)) (e : String)
        → is_recorded c start ≡ false
        → IsPaid c calls batches ((c, calls ++ start ∷ []), raise e)
    raised-IsPaid c calls start batches e n = record {
      kept = λ s k. k;
      new = start ∷ [];
      called = refl;
      unpaid = (n, tt);
      done = [];
      lost = start ∷ [];
      parted = refl;
      settled = tt;
      few = omega arith;
      finished = λ q. absurd (ground arith);
    }

    -- The first call is recorded in `d`, and the loop goes on.
    recorded-IsPaid :
        (c d : Catalog) (calls : List ℕ) (start : ℕ) (batch : List A) (batches : List (ℕ × List A))
        (r : Progress × Result String (Unit {0}))
        → is_recorded c start ≡ false
        → ((s : ℕ) → is_recorded c s ≡ true → is_recorded d s ≡ true)
        → is_recorded d start ≡ true
        → IsPaid d (calls ++ start ∷ []) batches r
        → IsPaid c calls ((start, batch) ∷ batches) r
    recorded-IsPaid c d calls start batch batches r n grows here h = record {
      kept = λ s k. h.kept s (grows s k);
      new = start ∷ h.new;
      called = h.called ∙ append_assoc calls (start ∷ []) h.new;
      unpaid = (
        n,
        All-map
            (λ s undone. elim (Bool-cases (is_recorded c s)) [
              | inr f ↦ f
              | inl k ↦ let e = grows s k in absurd (ground arith)
            ])
            h.new h.unpaid,
      );
      done = start ∷ h.done;
      lost = h.lost;
      parted = ap (λ l. start ∷ l) h.parted;
      settled = (h.kept start here, h.settled);
      few = h.few;
      finished = λ q. (h.kept start here, h.finished q);
    }

    -- From any catalog, the loop over the batches of an embedding job calls the provider for a batch
    -- only if the catalog does not record it, and forgets no batch that is recorded, whether it ends or
    -- raises. All batches that it called the provider for are recorded afterwards but the last at most,
    -- and when it ends every batch is recorded.
    pub embed_batches-IsPaid :
        (batches : List (ℕ × List A)) (c : Catalog) (calls : List ℕ)
        → IsPaid c calls batches (run batches (c, calls))
    unfolding embed_batches
    embed_batches-IsPaid [] c calls = record {
      kept = λ s k. k;
      new = [];
      called = sym (append-nil calls);
      unpaid = tt;
      done = [];
      lost = [];
      parted = refl;
      settled = tt;
      few = omega arith;
      finished = λ q. tt;
    }
    embed_batches-IsPaid ((start, batch) ∷ rest) c calls = elim (Bool-cases (is_recorded c start)) [
      | inl e ↦
          let h = embed_batches-IsPaid rest c calls in
          let g : IsPaid c calls ((start, batch) ∷ rest) (run rest (c, calls)) = record {
            kept = h.kept;
            new = h.new;
            called = h.called;
            unpaid = h.unpaid;
            done = h.done;
            lost = h.lost;
            parted = h.parted;
            settled = h.settled;
            few = h.few;
            finished = λ q. (h.kept start e, h.finished q);
          } in
          rw (e, embed_batches) g
      | inr n ↦ elim (Result-cases (embedder.embed start batch)) [
        | inr (x, e) ↦
            rw (n, e, embed_batches) (raised-IsPaid c calls start ((start, batch) ∷ rest) x n)
        | inl (u, e) ↦ elim (Result-cases (embedder.upsert start batch)) [
          | inr (x, g) ↦
              rw (n, e, g, embed_batches) (raised-IsPaid c calls start ((start, batch) ∷ rest) x n)
          | inl (v, g) ↦
              elim (Result-cases
                (record_batch stamp vault_id version_id modality model c start (length batch))) [
                  | inr (x, f) ↦
                      rw (n, e, g, f, embed_batches)
                        (raised-IsPaid c calls start ((start, batch) ∷ rest) x n)
                  | inl (d, f) ↦
                      let (grows, done) = record_batch-kept c d start (length batch) f in
                      rw (n, e, g, f, embed_batches)
                        (recorded-IsPaid c d calls start batch rest _ n grows done
                          (embed_batches-IsPaid rest d (calls ++ start ∷ [])))
                ]
        ]
      ]
    ]
