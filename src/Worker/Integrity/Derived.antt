-- ===== src/Worker/Integrity/Derived.antt =====
-- The foreign keys under the jobs of app/worker.py that extract and render.
use personal_vault_rag.Prelude.{
  All, All-append, Bool, Bool-cases, List, Option, Option-cases, Result, Result-cases, String, [],
  and_parts, arith, inl, inr, length, not, ok, raise_if, ◌>>◌, refl, same, subst, sym, true, ℕ,
  ◌&&◌, ◌+◌, ◌==◌, ◌∷◌, ◌≡◌, ◌⊎◌,
}
use personal_vault_rag.Db.{Version, Chunk}
use personal_vault_rag.Table.{update, delete}
use personal_vault_rag.Table.Laws.{All-map}
use personal_vault_rag.Table.Each.{All-delete, All-deleted}
use personal_vault_rag.Catalog.{Catalog, is_version}
use personal_vault_rag.Catalog.Cleanup.{is_visual_batch}
use personal_vault_rag.Catalog.References.{has_version, IsReferenced, has_version-delete}
use personal_vault_rag.Worker.{Passage, Picture, Extraction}
use personal_vault_rag.Worker.Evidence.{
  Target, Names, of_target, preview_of_target, is_referable, text_record, text_records,
  replace_chunks, visual_record, visual_records, preview_record, preview_records,
  replace_visual_evidence,
}
use personal_vault_rag.Worker.Stored.{replace_chunks-ok, replace_visual_evidence-ok}
use personal_vault_rag.Worker.Extract.{
  staged_row, staged_path, preview_bytes, indexed_version, rendered_version, is_obsolete,
  finish_extract, store_extraction, process_extract, store_rendering, current_row,
  process_render_visual, enqueue_embedding,
}
use personal_vault_rag.Worker.Integrity.{update-IsReferenced}

-- An INSERT that passed had no rows or the keys that they refer to.
inserted :
    {A B : Type 0} (xs : List A) (b : Bool) (e : String) (v r : B)
    → (raise_if (not (length xs == 0) && not b) e >> ok v) ≡ ok r
    → (xs ≡ []) ⊎ (b ≡ true)
inserted [] b e v r h = inl refl
inserted (x ∷ xs) b e v r h = elim (Bool-cases b) [ inl p ↦ inr p | inr n ↦ absurd (ground arith) ]

module _ (names : Names) (stamp : ℕ) (t : Target) where
  abbrev Keyed : List Version → Chunk → Type 0
  Keyed versions k = has_version versions k.vault_id k.version_id ≡ true

  text_records-Keyed :
      (versions : List Version) (i : ℕ) (ps : List Passage)
      → has_version versions t.vault_id t.version_id ≡ true
      → All (Keyed versions) (text_records names stamp t i ps)
  unfolding text_records text_record
  text_records-Keyed versions i [] h = tt
  text_records-Keyed versions i (p ∷ ps) h = (h, text_records-Keyed versions (i + 1) ps h)

  visual_records-Keyed :
      (versions : List Version) (records : List Chunk) (i : ℕ) (ps : List Picture)
      → has_version versions t.vault_id t.version_id ≡ true
      → All (Keyed versions) (visual_records names stamp t records i ps)
  unfolding visual_records visual_record
  visual_records-Keyed versions records i [] h = tt
  visual_records-Keyed versions records i (p ∷ ps) h =
      (h, visual_records-Keyed versions records (i + 1) ps h)

  preview_records-Keyed :
      (versions : List Version) (i : ℕ) (ps : List Picture)
      → has_version versions t.vault_id t.version_id ≡ true
      → All
          (λ p. has_version versions p.vault_id p.version_id ≡ true)
          (preview_records names stamp t i ps)
  unfolding preview_records preview_record
  preview_records-Keyed versions i [] h = tt
  preview_records-Keyed versions i (p ∷ ps) h = (h, preview_records-Keyed versions (i + 1) ps h)

  referable_version :
      (c : Catalog)
      → is_referable t c ≡ true
      → has_version c.versions t.vault_id t.version_id ≡ true
  referable_version c e = (and_parts _ _ e).1

  replace_chunks-IsReferenced :
      (c : Catalog) (extracted : Extraction) (r : Catalog × List Chunk)
      → IsReferenced c
      → replace_chunks names stamp t c extracted ≡ ok r
      → IsReferenced r.0
  replace_chunks-IsReferenced c extracted r h e =
      let records = text_records names stamp t 0 extracted.chunks in
      let new : All (Keyed c.versions) records =
        let passed : (records ≡ []) ⊎ (is_referable t c ≡ true) =
          unfold replace_chunks in inserted records (is_referable t c) _ _ _ e in
        elim passed [
          | inl q ↦ subst (All (Keyed c.versions)) (sym q) tt
          | inr p ↦ text_records-Keyed c.versions 0 extracted.chunks (referable_version c p)
        ] in
      subst (λ x. IsReferenced x.0) (replace_chunks-ok names stamp t c extracted r e)
        (record {
          chunks = All-append _ _ records (All-deleted _ (of_target t) c.chunks h.chunks) new;
          previews = h.previews;
          batches = h.batches;
        })

  replace_visual_evidence-IsReferenced :
      (c : Catalog) (previews : List Picture) (records : List Chunk) (r : Catalog)
      → IsReferenced c
      → replace_visual_evidence names stamp t c previews records ≡ ok r
      → IsReferenced r
  replace_visual_evidence-IsReferenced c previews records r h e =
      let passed : (previews ≡ []) ⊎ (is_referable t c ≡ true) =
        unfold replace_visual_evidence in inserted previews (is_referable t c) _ _ _ e in
      let new : All (λ p. has_version c.versions p.vault_id p.version_id ≡ true)
          (preview_records names stamp t 0 previews) =
        elim passed [
          | inl q ↦
              subst
                (λ l.
                  All (λ p. has_version c.versions p.vault_id p.version_id ≡ true)
                    (preview_records names stamp t 0 l))
                (sym q) (unfold preview_records in tt)
          | inr p ↦ preview_records-Keyed c.versions 0 previews (referable_version c p)
        ] in
      let shown : All (Keyed c.versions) (visual_records names stamp t records 0 previews) =
        elim passed [
          | inl q ↦
              subst (λ l. All (Keyed c.versions) (visual_records names stamp t records 0 l)) (sym q)
                (unfold visual_records in tt)
          | inr p ↦ visual_records-Keyed c.versions records 0 previews (referable_version c p)
        ] in
      subst IsReferenced (replace_visual_evidence-ok names stamp t c previews records r e) (record {
        chunks =
            All-append _ _ (visual_records names stamp t records 0 previews)
              (All-deleted _ (λ k. of_target t k && same k.kind "visual") c.chunks h.chunks) shown;
        previews =
            All-append _ _ (preview_records names stamp t 0 previews)
              (All-deleted _ (preview_of_target t) c.previews h.previews) new;
        batches = h.batches;
      })

  module _ (uuid : (kind id : String) → String) where
    finish_extract-IsReferenced :
        (c : Catalog) (error : Option String) (text_bytes bytes : ℕ)
        → IsReferenced c
        → IsReferenced (
            enqueue_embedding names stamp uuid t
              (finish_extract names stamp uuid t c error text_bytes bytes).0)
    unfolding finish_extract
    finish_extract-IsReferenced c error text_bytes bytes h =
        let g =
          update-IsReferenced (is_version t.vault_id t.version_id)
            (indexed_version stamp text_bytes bytes) c (λ x v id. refl) h in
        let left =
          has_version-delete t.vault_id (is_obsolete t)
            (λ x e. (and_parts _ _ (and_parts _ _ (and_parts _ _ e).0).0).0)
            (update (is_version t.vault_id t.version_id) (indexed_version stamp text_bytes bytes)
              c.versions) in
        record {
          chunks =
              All-map (λ k e. left k.vault_id k.version_id e.0 e.1) _
                (All-delete _ _ c.chunks g.chunks);
          previews =
              All-map (λ p e. left p.vault_id p.version_id e.0 e.1) _
                (All-delete _ _ c.previews g.previews);
          batches =
              All-map (λ b e. left b.vault_id b.version_id e.0 e.1) _
                (All-delete _ _ c.batches g.batches);
        }

    store_extraction-IsReferenced :
        (c : Catalog) (raw_path : String) (extracted : Extraction)
        → IsReferenced c
        → IsReferenced (store_extraction names stamp uuid t c raw_path extracted).0
    unfolding store_extraction
    store_extraction-IsReferenced c raw_path extracted h =
        elim (Result-cases (replace_chunks names stamp t c extracted)) [
          | inr (x, e) ↦ rw (e, store_extraction) h
          | inl (stored, e) ↦
              let g = replace_chunks-IsReferenced c extracted stored h e in
              elim (Result-cases
                (replace_visual_evidence names stamp t stored.0 extracted.previews stored.1)) [
                  | inr (x, f) ↦ rw (e, f, store_extraction) g
                  | inl (shown, f) ↦
                      rw (e, f, store_extraction)
                        (finish_extract-IsReferenced shown _ _ _ (
                          replace_visual_evidence-IsReferenced stored.0 extracted.previews stored.1
                            shown g f))
                ]
        ]

    pub process_extract-IsReferenced :
        (c : Catalog) (extract : (path name : String) → Result String Extraction)
        → IsReferenced c
        → IsReferenced (process_extract names stamp uuid t c extract).0
    unfolding process_extract
    process_extract-IsReferenced c extract h = elim (Option-cases (staged_row t c)) [
      | inl e ↦ rw (e, process_extract) h
      | inr (row, e) ↦ elim (Option-cases (staged_path row.version)) [
        | inl f ↦ rw (e, f, process_extract) h
        | inr (path, f) ↦ elim (Result-cases (extract path row.document.display_name)) [
          | inr (x, g) ↦ rw (e, f, g, process_extract) h
          | inl (x, g) ↦ rw (e, f, g, process_extract) (store_extraction-IsReferenced c path x h)
        ]
      ]
    ]

    store_rendering-IsReferenced :
        (c : Catalog) (raw_path : String) (records : List Chunk) (extracted : Extraction)
        → IsReferenced c
        → IsReferenced (store_rendering names stamp uuid t c raw_path records extracted).0
    unfolding store_rendering
    store_rendering-IsReferenced c raw_path records extracted h =
        let visual = is_visual_batch t.vault_id t.version_id in
        let cleared : Catalog = record c { batches = delete visual c.batches } in
        let g : IsReferenced cleared = record {
          chunks = h.chunks;
          previews = h.previews;
          batches = All-deleted _ visual c.batches h.batches;
        } in
        elim (Result-cases
          (replace_visual_evidence names stamp t cleared extracted.previews records)) [
            | inr (x, e) ↦ rw (e, store_rendering) g
            | inl (shown, e) ↦
                let k =
                  replace_visual_evidence-IsReferenced cleared extracted.previews records shown g
                    e in
                let l =
                  update-IsReferenced (is_version t.vault_id t.version_id)
                    (rendered_version (preview_bytes extracted.previews)) shown (λ x v id. refl)
                    k in
                rw (e, store_rendering)
                  (record { chunks = l.chunks; previews = l.previews; batches = l.batches })
          ]

    pub process_render_visual-IsReferenced :
        (c : Catalog) (extract : (path name : String) → Result String Extraction)
        (unindex : Result String (Unit {0}))
        → IsReferenced c
        → IsReferenced (process_render_visual names stamp uuid t c extract unindex).0
    unfolding process_render_visual
    process_render_visual-IsReferenced c extract unindex h =
        elim (Option-cases (current_row names stamp uuid t c)) [
          | inl e ↦ rw (e, process_render_visual) h
          | inr (row, e) ↦ elim (Option-cases (staged_path row.version)) [
            | inl f ↦ rw (e, f, process_render_visual) h
            | inr (path, f) ↦ elim (Result-cases (extract path row.document.display_name)) [
              | inr (x, g) ↦ rw (e, f, g, process_render_visual) h
              | inl (x, g) ↦ elim (Result-cases unindex) [
                | inr (y, k) ↦ rw (e, f, g, k, process_render_visual) h
                | inl (y, k) ↦
                    rw (e, f, g, k, process_render_visual)
                      (store_rendering-IsReferenced c path _ x h)
              ]
            ]
          ]
        ]
