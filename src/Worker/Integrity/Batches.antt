-- ===== src/Worker/Integrity/Batches.antt =====
-- The foreign keys under the jobs of app/worker.py that embed.
use personal_vault_rag.Prelude.{
  All-append, Bool, Bool-cases, List, Option-cases, Result, Result-cases, String, [], arith, inl,
  inr, length, not, ok, raise, refl, same, subst, ℕ, ◌++◌, ◌==◌, ◌||◌, ◌∷◌, ◌≡◌,
}
use personal_vault_rag.Db.{Version, Chunk, Preview}
use personal_vault_rag.Table.{select, fetch_one, order_by}
use personal_vault_rag.Table.Each.{has, All-deleted}
use personal_vault_rag.Catalog.{Catalog, is_vault, is_version}
use personal_vault_rag.Catalog.Cleanup.{is_visual_batch}
use personal_vault_rag.Catalog.References.{IsReferenced}
use personal_vault_rag.Worker.Embed.{
  Embedder, Progress, is_done, new_batch, record_batch, embed_batches, batches_of, has_shown,
  is_embeddable, text_indexed, visual_indexed, visual_lost, mark, process_embed_text, pictured_rows,
  process_embed_visual,
}
use personal_vault_rag.Worker.Integrity.{update-IsReferenced}

module _ (stamp : ℕ) (vault_id version_id modality model : String) where
  record_batch-IsReferenced :
      (c d : Catalog) (start count : ℕ)
      → IsReferenced c
      → record_batch stamp vault_id version_id modality model c start count ≡ ok d
      → IsReferenced d
  unfolding record_batch
  record_batch-IsReferenced c d start count h e =
      let row = new_batch stamp vault_id version_id modality model start count in
      elim (Bool-cases (has (is_version vault_id version_id) c.versions)) [
        | inr f ↦ absurd (ground arith)
        | inl f ↦
            elim (Bool-cases
              (has (is_done stamp vault_id version_id modality model start) c.batches)) [
                | inl g ↦ let q : c ≡ d = ground arith in subst IsReferenced q h
                | inr g ↦
                    let q : record c { batches = c.batches ++ row ∷ [] } ≡ d = ground arith in
                    subst IsReferenced q (record {
                      chunks = h.chunks;
                      previews = h.previews;
                      batches = All-append _ c.batches (row ∷ []) h.batches (f, tt);
                    })
              ]
      ]

  embed_batches-IsReferenced :
      {A : Type 0} (embedder : Embedder A) (batches : List (ℕ × List A)) (c : Catalog)
      (calls : List ℕ)
      → IsReferenced c
      → IsReferenced
          (embed_batches stamp vault_id version_id modality model embedder batches (c, calls)).0.0
  unfolding embed_batches
  embed_batches-IsReferenced embedder [] c calls h = h
  embed_batches-IsReferenced embedder ((start, batch) ∷ rest) c calls h =
      elim (Bool-cases (has (is_done stamp vault_id version_id modality model start) c.batches)) [
        | inl e ↦ rw (e, embed_batches) (embed_batches-IsReferenced embedder rest c calls h)
        | inr e ↦ elim (Result-cases (embedder.embed start batch)) [
          | inr (x, f) ↦ rw (e, f, embed_batches) h
          | inl (u, f) ↦ elim (Result-cases (embedder.upsert start batch)) [
            | inr (x, k) ↦ rw (e, f, k, embed_batches) h
            | inl (v, k) ↦
                elim (Result-cases
                  (record_batch stamp vault_id version_id modality model c start (length batch))) [
                    | inr (x, g) ↦ rw (e, f, k, g, embed_batches) h
                    | inl (d, g) ↦
                        rw (e, f, k, g, embed_batches)
                          (embed_batches-IsReferenced embedder rest d (calls ++ start ∷ [])
                            (record_batch-IsReferenced c d start (length batch) h g))
                  ]
          ]
        ]
      ]

module _ (stamp : ℕ) (vault_id version_id model : String) where
  mark-IsReferenced :
      (f : Version → Version) (r : Progress × Result String (Unit {0}))
      → ((x : Version) → (v id : String) → is_version v id (f x) ≡ is_version v id x)
      → IsReferenced r.0.0
      → IsReferenced (mark stamp vault_id version_id model f r).0.0
  mark-IsReferenced f (p, raise e) keeps h = h
  mark-IsReferenced f ((c, calls), ok u) keeps h =
      update-IsReferenced (is_version vault_id version_id) f c keeps h

  pub process_embed_text-IsReferenced :
      (c : Catalog) (embedder : Embedder Chunk)
      → IsReferenced c
      → IsReferenced (process_embed_text stamp vault_id version_id model c embedder).0.0
  unfolding process_embed_text
  process_embed_text-IsReferenced c embedder h =
      let records =
        order_by (λ k. k.ordinal) (select (is_embeddable vault_id version_id) c.chunks) in
      elim (Option-cases (fetch_one (is_vault vault_id) c.vaults)) [
        | inl e ↦ rw (e, process_embed_text) h
        | inr (provider, e) ↦
            elim (Bool-cases (
              not (same model provider.embedding_model)
              || not (has_shown vault_id version_id c)
              || (length records == 0))) [
                | inl f ↦ rw (e, f, process_embed_text) h
                | inr f ↦
                    rw (e, f, process_embed_text)
                      (mark-IsReferenced (text_indexed stamp model) _ (λ x v id. refl)
                        (embed_batches-IsReferenced stamp vault_id version_id "text" model embedder
                          (batches_of 64 records) c [] h))
              ]
      ]

  pub process_embed_visual-IsReferenced :
      (c : Catalog) (is_file : String → Bool) (unindex : Result String (Unit {0}))
      (embedder : Embedder (Preview × Chunk))
      → IsReferenced c
      → IsReferenced
          (process_embed_visual stamp vault_id version_id model c is_file unindex embedder).0.0
  unfolding process_embed_visual
  process_embed_visual-IsReferenced c is_file unindex embedder h =
      let rows =
        order_by (λ r. r.0.ordinal) (pictured_rows stamp vault_id version_id model c c.previews) in
      elim (Option-cases (fetch_one (is_vault vault_id) c.vaults)) [
        | inl e ↦ rw (e, process_embed_visual) h
        | inr (provider, e) ↦
            elim (Bool-cases (
              not (same model provider.visual_model)
              || not (has_shown vault_id version_id c)
              || (length rows == 0))) [
                | inl f ↦ rw (e, f, process_embed_visual) h
                | inr f ↦ elim (Bool-cases (has (λ r. not (is_file r.0.path)) rows)) [
                  | inl g ↦
                      let k =
                        update-IsReferenced (is_version vault_id version_id) visual_lost c
                          (λ x v id. refl) h in
                      rw (e, f, g, process_embed_visual)
                        (record {
                          chunks = k.chunks;
                          previews = k.previews;
                          batches =
                              All-deleted _ (is_visual_batch vault_id version_id) c.batches
                                k.batches;
                        })
                  | inr g ↦
                      rw (e, f, g, process_embed_visual)
                        (mark-IsReferenced (visual_indexed stamp model) _ (λ x v id. refl)
                          (embed_batches-IsReferenced stamp vault_id version_id "visual" model
                            embedder (batches_of 8 rows) c [] h))
                ]
              ]
      ]
