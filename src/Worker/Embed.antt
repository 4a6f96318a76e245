-- ===== src/Worker/Embed.antt =====
-- `process_embed_text` and `process_embed_visual` of app/worker.py. The calls of the provider are
-- logged by the starts of their batches.
use personal_vault_rag.Prelude.{
  Bool, List, Result, String, [], drop, false, if◌then◌else◌, is_some, length, none, not, ok, raise,
  same, some, suc, take, true, zero, ℕ, ◌&&◌, ◌++◌, ◌+◌, ◌==◌, ◌||◌, ◌∷◌,
}
use personal_vault_rag.Db.{Document, Version, Chunk, Preview, EmbeddingBatch}
use personal_vault_rag.Table.{select, fetch_one, update, delete, order_by}
use personal_vault_rag.Table.Each.{has}
use personal_vault_rag.Catalog.{Catalog, is_vault, is_version}
use personal_vault_rag.Catalog.Cleanup.{is_visual_batch}

-- `range(0, len(items), size)` with `items[start:start + size]`. A batch takes one item at least
-- where `size` is not 0, so the number of items is fuel enough.
module _ {A : Type 0} (size : ℕ) where
  unfoldable pub batches_from : (fuel start : ℕ) → List A → List (ℕ × List A)
  batches_from zero start items = []
  batches_from (suc fuel) start [] = []
  batches_from (suc fuel) start (x ∷ items) =
      (start, take size (x ∷ items)) ∷ batches_from fuel (start + size) (drop size (x ∷ items))

  unfoldable pub batches_of : List A → List (ℕ × List A)
  unfolding batches_from
  batches_of items = batches_from (length items) 0 items

-- What is called for the batch at a start: the provider, which is paid for its vectors, and then the
-- vector store with them. The vectors are not modelled.
pub record Embedder (A : Type 0) : Type 0 where
  pub embed : ℕ → List A → Result String (Unit {0})
  pub upsert : ℕ → List A → Result String (Unit {0})

-- What the loop has committed and called.
abbrev pub Progress : Type 0
Progress = Catalog × List ℕ

module _ (stamp : ℕ) (vault_id version_id modality model : String) where
  -- The primary key of `embedding_batches`.
  abbrev pub is_done : ℕ → EmbeddingBatch → Bool
  is_done start b =
      same b.vault_id vault_id
      && same b.version_id version_id
      && same b.modality modality
      && (b.batch_start == start)
      && same b.model model

  abbrev pub new_batch : (start item_count : ℕ) → EmbeddingBatch
  new_batch start item_count = record {
    vault_id = vault_id;
    version_id = version_id;
    modality = modality;
    batch_start = start;
    model = model;
    item_count = item_count;
    completed_at = stamp;
  }

  -- INSERT OR IGNORE; a version that is gone raises all the same.
  unfoldable pub record_batch : Catalog → (start item_count : ℕ) → Result String Catalog
  record_batch c start item_count =
      if has (is_version vault_id version_id) c.versions
      then ok (
          if has (is_done start) c.batches
          then c
          else record c { batches = c.batches ++ new_batch start item_count ∷ [] })
      else raise "IntegrityError"

  module _ {A : Type 0} (embedder : Embedder A) where
    -- The loop over the batches.
    unfoldable pub embed_batches :
        List (ℕ × List A) → Progress → Progress × Result String (Unit {0})
    embed_batches [] (c, calls) = ((c, calls), ok tt)
    embed_batches ((start, batch) ∷ rest) (c, calls) = elim (has (is_done start) c.batches) [
      | true ↦ embed_batches rest (c, calls)
      | false ↦ elim (embedder.embed start batch) [
        | raise e ↦ ((c, calls ++ start ∷ []), raise e)
        | ok _ ↦ elim (embedder.upsert start batch) [
          | raise e ↦ ((c, calls ++ start ∷ []), raise e)
          | ok _ ↦ elim (record_batch c start (length batch)) [
            | raise e ↦ ((c, calls ++ start ∷ []), raise e)
            | ok d ↦ embed_batches rest (d, calls ++ start ∷ [])
          ]
        ]
      ]
    ]

-- The document whose live current version this is.
abbrev pub is_shown : (vault_id version_id : String) → Document → Bool
is_shown vault_id version_id d =
    same d.vault_id vault_id
    && elim d.current_version_id [ none ↦ false | some id ↦ same id version_id ]
    && not (is_some d.deleted_at)

-- `SELECT v.id,… FROM versions v JOIN documents d …`
unfoldable pub has_shown : (vault_id version_id : String) → Catalog → Bool
has_shown vault_id version_id c =
    has (is_version vault_id version_id) c.versions
    && has (is_shown vault_id version_id) c.documents

abbrev pub is_embeddable : (vault_id version_id : String) → Chunk → Bool
is_embeddable vault_id version_id k =
    same k.vault_id vault_id
    && same k.version_id version_id
    && not (same k.kind "visual")
    && not (same k.text "")

abbrev pub text_indexed : (stamp : ℕ) (model : String) → Version → Version
text_indexed stamp model v = record v { text_indexed_at = some stamp; embedding_model = some model }

abbrev pub visual_indexed : (stamp : ℕ) (model : String) → Version → Version
visual_indexed stamp model v = record v {
  visual_indexed_at = some stamp;
  visual_model = some model;
  visual_recovery_needed = false;
}

abbrev pub visual_lost : Version → Version
visual_lost v = record v {
  visual_indexed_at = none;
  visual_model = none;
  visual_recovery_needed = true;
}

module _ (stamp : ℕ) (vault_id version_id model : String) where
  -- After the loop: the version is marked where the loop has not raised.
  abbrev pub mark :
      (Version → Version)
      → Progress × Result String (Unit {0})
      → Progress × Result String (Unit {0})
  mark f (p, raise e) = (p, raise e)
  mark f ((c, calls), ok u) =
      ((record c { versions = update (is_version vault_id version_id) f c.versions }, calls), ok u)

  unfoldable pub process_embed_text :
      Catalog → (embedder : Embedder Chunk) → Progress × Result String (Unit {0})
  unfolding embed_batches
  process_embed_text c embedder = elim (fetch_one (is_vault vault_id) c.vaults) [
    | none ↦ ((c, []), ok tt)
    | some provider ↦
        let records =
          order_by (λ k. k.ordinal) (select (is_embeddable vault_id version_id) c.chunks) in
        if not (same model provider.embedding_model)
          || not (has_shown vault_id version_id c)
          || (length records == 0)
        then ((c, []), ok tt)
        else mark (text_indexed stamp model) (
            embed_batches stamp vault_id version_id "text" model embedder (batches_of 64 records)
              (c, []))
  ]

  -- A preview with the chunk that stands for it.
  unfoldable pub pictured_rows : Catalog → List Preview → List (Preview × Chunk)
  pictured_rows c [] = []
  pictured_rows c (p ∷ ps) =
      let rest = pictured_rows c ps in
      if same p.vault_id vault_id && same p.version_id version_id
      then elim (fetch_one
          (λ k.
            same k.vault_id p.vault_id
            && elim p.text_chunk_id [ none ↦ false | some id ↦ same k.id id ])
          c.chunks) [ none ↦ rest | some k ↦ (p, k) ∷ rest ]
      else rest

  -- `is_file` says whether the file of a preview is there; `unindex` is the answer of the vector
  -- store to `delete_version_vectors`.
  unfoldable pub process_embed_visual :
      Catalog
      → (is_file : String → Bool) → (unindex : Result String (Unit {0}))
      → (embedder : Embedder (Preview × Chunk)) → Progress × Result String (Unit {0})
  unfolding embed_batches pictured_rows
  process_embed_visual c is_file unindex embedder = elim (fetch_one (is_vault vault_id) c.vaults) [
    | none ↦ ((c, []), ok tt)
    | some provider ↦
        let rows = order_by (λ r. r.0.ordinal) (pictured_rows c c.previews) in
        if not (same model provider.visual_model)
          || not (has_shown vault_id version_id c)
          || (length rows == 0)
        then ((c, []), ok tt)
        else if has (λ r. not (is_file r.0.path)) rows
        then (
          (
            record c {
              batches = delete (is_visual_batch vault_id version_id) c.batches;
              versions = update (is_version vault_id version_id) visual_lost c.versions;
            },
            [],
          ),
          unindex,
        )
        else mark (visual_indexed stamp model) (
            embed_batches stamp vault_id version_id "visual" model embedder (batches_of 8 rows)
              (c, []))
  ]
