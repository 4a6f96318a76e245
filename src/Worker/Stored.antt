-- ===== src/Worker/Stored.antt =====
-- What `process_extract` of app/worker.py has stored when it ends.
use Prim.Native.String
use personal_vault_rag.Prelude.{
  All, Bool, List, Result-cases, Option, String, [], ap, arith, false, inl, inr, map, ok, checks-ok,
  refl, same, same_iff, same_refl, subst, true, ℕ, ◌&&◌, ◌++◌, ◌+◌, ◌∙◌, ◌∷◌, ◌≡◌,
}
use personal_vault_rag.Db.{Chunk}
use personal_vault_rag.Table.{select, update, delete, sum}
use personal_vault_rag.Table.Each.{has, has-select_none}
use personal_vault_rag.Table.Selected.{
  select-append, select-delete_other, select_every, select-replaced, delete-append, delete-none,
  select-delete_gone,
}
use personal_vault_rag.Catalog.{Catalog, is_version}
use personal_vault_rag.Worker.{Passage, Picture, Extraction}
use personal_vault_rag.Worker.Evidence.{
  Target, Names, of_target, fts_of_target, preview_of_target, fts_record, text_record, text_records,
  replace_chunks, visual_record, visual_records, preview_record, preview_records,
  replace_visual_evidence,
}
use personal_vault_rag.Worker.Extract.{
  preview_bytes, warning_text, is_obsolete, indexed_version, finish_extract, store_extraction,
  enqueue_embedding,
}

module _ (names : Names) (stamp : ℕ) (t : Target) where
  text_records-target :
      (i : ℕ) (ps : List Passage)
      → All (λ k. of_target t k ≡ true) (text_records names stamp t i ps)
  unfolding text_records text_record
  text_records-target i [] = tt
  text_records-target i (p ∷ ps) =
      (rw (same_refl t.vault_id, same_refl t.version_id) refl, text_records-target (i + 1) ps)

  text_records-visible :
      (i : ℕ) (ps : List Passage)
      → All (λ p. same p.kind "visual" ≡ false) ps
      → All (λ k. (of_target t k && same k.kind "visual") ≡ false) (text_records names stamp t i ps)
  unfolding text_records text_record
  text_records-visible i [] h = tt
  text_records-visible i (p ∷ ps) h = (ground (arith, h.0), text_records-visible (i + 1) ps h.1)

  fts_records-target :
      (i : ℕ) (ps : List Passage)
      → All
          (λ k. fts_of_target t k ≡ true)
          (map (fts_record names stamp t) (text_records names stamp t i ps))
  unfolding text_records text_record
  fts_records-target i [] = tt
  fts_records-target i (p ∷ ps) =
      (rw (same_refl t.vault_id, same_refl t.version_id) refl, fts_records-target (i + 1) ps)

  visual_records-target :
      (records : List Chunk) (i : ℕ) (ps : List Picture)
      → All (λ k. of_target t k ≡ true) (visual_records names stamp t records i ps)
  unfolding visual_records visual_record
  visual_records-target records i [] = tt
  visual_records-target records i (p ∷ ps) = (
    rw (same_refl t.vault_id, same_refl t.version_id) refl,
    visual_records-target records (i + 1) ps,
  )

  preview_records-target :
      (i : ℕ) (ps : List Picture)
      → All (λ k. preview_of_target t k ≡ true) (preview_records names stamp t i ps)
  unfolding preview_records preview_record
  preview_records-target i [] = tt
  preview_records-target i (p ∷ ps) =
      (rw (same_refl t.vault_id, same_refl t.version_id) refl, preview_records-target (i + 1) ps)

  -- The chunks, the full text rows and the previews of the version are those of the extraction.
  pub record IsStored (extracted : Extraction) (c : Catalog) : Type 0 where
    pub chunks :
        select (of_target t) c.chunks
        ≡ text_records names stamp t 0 extracted.chunks
          ++ visual_records names stamp t
              (text_records names stamp t 0 extracted.chunks)
              0
              extracted.previews
    pub fts :
        select (fts_of_target t) c.chunks_fts
        ≡ map (fts_record names stamp t) (text_records names stamp t 0 extracted.chunks)
    pub previews :
        select (preview_of_target t) c.previews ≡ preview_records names stamp t 0 extracted.previews

  abbrev chunked : Catalog → Extraction → Catalog
  chunked c extracted =
      let records = text_records names stamp t 0 extracted.chunks in
      record c {
        chunks = delete (of_target t) c.chunks ++ records;
        chunks_fts =
            delete (fts_of_target t) c.chunks_fts ++ map (fts_record names stamp t) records;
      }

  abbrev pictured : Catalog → List Picture → List Chunk → Catalog
  pictured c previews records = record c {
    previews = delete (preview_of_target t) c.previews ++ preview_records names stamp t 0 previews;
    chunks =
        delete (λ k. of_target t k && same k.kind "visual") c.chunks
        ++ visual_records names stamp t records 0 previews;
  }

  pub replace_chunks-ok :
      (c : Catalog) (extracted : Extraction) (r : Catalog × List Chunk)
      → replace_chunks names stamp t c extracted ≡ ok r
      → (chunked c extracted, text_records names stamp t 0 extracted.chunks) ≡ r
  unfolding replace_chunks
  replace_chunks-ok c extracted r h = checks-ok _ _ r h

  pub replace_visual_evidence-ok :
      (c : Catalog) (previews : List Picture) (records : List Chunk) (r : Catalog)
      → replace_visual_evidence names stamp t c previews records ≡ ok r
      → pictured c previews records ≡ r
  unfolding replace_visual_evidence
  replace_visual_evidence-ok c previews records r h = checks-ok _ _ r h

  pictured-IsStored :
      (c : Catalog) (extracted : Extraction)
      → All (λ p. same p.kind "visual" ≡ false) extracted.chunks
      → IsStored extracted (
          pictured
            (chunked c extracted)
            extracted.previews
            (text_records names stamp t 0 extracted.chunks))
  pictured-IsStored c extracted plain =
      let records = text_records names stamp t 0 extracted.chunks in
      let visual : Chunk → Bool = λ k. of_target t k && same k.kind "visual" in
      record {
        chunks =
            rw
              (
                select-append,
                delete-append visual,
                select-append,
                select-delete_gone (of_target t) visual c.chunks,
                delete-none visual records (text_records-visible 0 extracted.chunks plain),
                select_every (of_target t) records (text_records-target 0 extracted.chunks),
                select_every (of_target t)
                    (visual_records names stamp t records 0 extracted.previews)
                    (visual_records-target records 0 extracted.previews),
              )
              refl;
        fts = select-replaced (fts_of_target t) _ _ (fts_records-target 0 extracted.chunks);
        previews =
            select-replaced (preview_of_target t) _ _ (preview_records-target 0 extracted.previews);
      }

  module _ (uuid : (kind id : String) → String) where
    gone_other :
        (c : Catalog) (id : String)
        → same id t.version_id ≡ true
        → has (is_version t.vault_id id) (select (is_obsolete t) c.versions) ≡ false
    gone_other c id e =
        has-select_none (is_version t.vault_id id) (is_obsolete t) c.versions λ v fits.
          ground (arith, same_iff v.id id, same_iff id t.version_id, same_iff v.id t.version_id)

    -- The last transaction leaves what the version has.
    finish_extract-IsStored :
        (extracted : Extraction) (c : Catalog) (error : Option String) (text_bytes bytes : ℕ)
        → IsStored extracted c
        → IsStored extracted (
            enqueue_embedding names stamp uuid t
              (finish_extract names stamp uuid t c error text_bytes bytes).0)
    unfolding finish_extract
    finish_extract-IsStored extracted c error text_bytes bytes h =
        let next : Catalog = record c {
          versions =
              update (is_version t.vault_id t.version_id) (indexed_version stamp text_bytes bytes)
                c.versions;
        } in
        record {
          chunks =
              select-delete_other (of_target t) _ c.chunks
                (λ k mine. ground (arith, gone_other next k.version_id))
              ∙ h.chunks;
          fts = h.fts;
          previews =
              select-delete_other (preview_of_target t) _ c.previews
                (λ p mine. ground (arith, gone_other next p.version_id))
              ∙ h.previews;
        }

    pub store_extraction-IsStored :
        (c : Catalog) (raw_path : String) (extracted : Extraction) (c' : Catalog) (fs : List String)
        → All (λ p. same p.kind "visual" ≡ false) extracted.chunks
        → store_extraction names stamp uuid t c raw_path extracted ≡ (c', ok fs)
        → IsStored extracted c'
    unfolding store_extraction
    store_extraction-IsStored c raw_path extracted c' fs plain h =
        elim (Result-cases (replace_chunks names stamp t c extracted)) [
          | inr (x, e) ↦ absurd (ground arith)
          | inl (stored, e) ↦
              elim (Result-cases
                (replace_visual_evidence names stamp t stored.0 extracted.previews stored.1)) [
                  | inr (x, f) ↦ absurd (ground arith)
                  | inl (shown, f) ↦
                      let q : (enqueue_embedding names stamp uuid t
                            (finish_extract names stamp uuid t shown
                              (warning_text extracted.warnings)
                              (sum (λ k. String.len k.text) stored.1)
                              (preview_bytes extracted.previews)).0)
                          ≡ c' =
                        ground arith in
                      let a = replace_chunks-ok c extracted stored e in
                      let b =
                        replace_visual_evidence-ok stored.0 extracted.previews stored.1 shown f in
                      let whole : IsStored extracted shown =
                        subst (IsStored extracted)
                          (ap (λ r. pictured r.0 extracted.previews r.1) a ∙ b)
                          (pictured-IsStored c extracted plain) in
                      subst (IsStored extracted) q
                        (finish_extract-IsStored extracted shown _ _ _ whole)
                ]
        ]
