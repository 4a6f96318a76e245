-- ===== src/Retrieval/Loading.antt =====
-- What `search` of app/retrieval.py may return: whatever the channels and the reranker answer, each
-- row is one that `_load_chunks` lets through.
use personal_vault_rag.Prelude.{
  All, Bool, Bool-cases, List, Option, Option-cases, String, [], and_parts, ap, arith, false, inl,
  inr, is_some, none, not, refl, same, same_iff, some, subst, sym, true, ℕ, ◌&&◌, ◌||◌, ◌∙◌, ◌∷◌,
  ◌≡◌,
}
use personal_vault_rag.Db.{Document, Version, Chunk}
use personal_vault_rag.Table.{fetch_one}
use personal_vault_rag.Table.Laws.{All-map}
use personal_vault_rag.Table.Rows.{Place, Place-later, fetch_one-Place}
use personal_vault_rag.Retrieval.{
  Row, Filters, given, contains, join_row, is_current, source_passes, media_passes, path_passes,
  passes, load_chunks, keep_loaded, reorder, diversify, Scores, ranked_ids, search,
}
use personal_vault_rag.Retrieval.Kept.{All-keep_loaded, All-reorder, All-select_from}
use personal_vault_rag.Retrieval.Paths.{Text}

-- A row that the vault `vault_id` may see under the filters: its parts are rows of the tables of
-- that vault that belong together, the document is not deleted and the filters hold.
pub record IsServed (fold : ℕ → Text) (documents : List Document) (versions : List Version)
    (chunks : List Chunk) (vault_id : String) (filters : Filters) (r : Row) : Type 0 where
  pub stored_chunk : Place r.chunk chunks
  pub stored_document : Place r.document documents
  pub stored_version : Place r.version versions
  pub chunk_vault : r.chunk.vault_id ≡ vault_id
  pub document_vault : r.document.vault_id ≡ vault_id
  pub version_vault : r.version.vault_id ≡ vault_id
  pub document_key : r.document.id ≡ r.chunk.document_id
  pub version_key : r.version.id ≡ r.chunk.version_id
  pub undeleted : r.document.deleted_at ≡ none
  pub current :
      filters.include_history ≡ false → r.document.current_version_id ≡ some r.chunk.version_id
  pub source : (s : String) → given filters.source_id ≡ some s → r.document.source_id ≡ s
  pub media : media_passes fold (given filters.media_type) r ≡ true
  pub path : path_passes fold (given filters.path_prefix) r ≡ true

is_some-none : {A : Type 0} (o : Option A) → not (is_some o) ≡ true → o ≡ none
is_some-none none h = refl
is_some-none (some a) h = absurd (ground arith)

is_current-eq :
    (r : Row) → is_current r ≡ true → r.document.current_version_id ≡ some r.chunk.version_id
is_current-eq r h = elim (Option-cases r.document.current_version_id) [
  | inl e ↦ absurd (ground arith)
  | inr (v, e) ↦
      let q : same r.chunk.version_id v ≡ true = ground arith in
      e ∙ ap some (sym ((same_iff _ _).0 q))
]

source_passes-eq :
    (o : Option String) (r : Row) (s : String)
    → source_passes o r ≡ true
    → o ≡ some s
    → r.document.source_id ≡ s
source_passes-eq none r s h e = absurd (ground arith)
source_passes-eq (some t) r s h e = let q : t ≡ s = ground arith in (same_iff _ _).0 h ∙ q

module _ (fold : ℕ → Text) (documents : List Document) (versions : List Version) (vault_id : String)
    (filters : Filters) where
  loaded-IsServed :
      (c : Chunk) (cs : List Chunk) (d : Document) (v : Version)
      → Place d documents
      → Place v versions
      → c.vault_id ≡ vault_id
      → d.vault_id ≡ c.vault_id
      → d.id ≡ c.document_id
      → v.vault_id ≡ c.vault_id
      → v.id ≡ c.version_id
      → d.deleted_at ≡ none
      → passes fold filters (record { chunk = c; document = d; version = v }) ≡ true
      → IsServed fold documents versions
          (c ∷ cs)
          vault_id
          filters
          (record { chunk = c; document = d; version = v })
  unfolding passes
  loaded-IsServed c cs d v stored_d stored_v own d1 d2 v1 v2 d3 p =
      let r : Row = record { chunk = c; document = d; version = v } in
      let shown = filters.include_history || is_current r in
      let (p123, p4) = and_parts _ (path_passes fold (given filters.path_prefix) r) p in
      let (p12, p3) = and_parts _ (media_passes fold (given filters.media_type) r) p123 in
      let (p1, p2) = and_parts shown (source_passes (given filters.source_id) r) p12 in
      record {
        stored_chunk = record { before = []; after = cs; split = refl };
        stored_document = stored_d;
        stored_version = stored_v;
        chunk_vault = own;
        document_vault = d1 ∙ own;
        version_vault = v1 ∙ own;
        document_key = d2;
        version_key = v2;
        undeleted = d3;
        current = λ e. is_current-eq r (ground arith);
        source = λ s e. source_passes-eq (given filters.source_id) r s p2 e;
        media = p3;
        path = p4;
      }

  join_row-IsServed :
      (c : Chunk) (cs : List Chunk) (r : Row)
      → join_row documents versions vault_id c ≡ some r
      → passes fold filters r ≡ true
      → IsServed fold documents versions (c ∷ cs) vault_id filters r
  unfolding join_row passes
  join_row-IsServed c cs r h p =
      let belongs : Document → Bool =
        λ d. same d.vault_id c.vault_id && same d.id c.document_id && not (is_some d.deleted_at) in
      let indexed : Version → Bool = λ v. same v.vault_id c.vault_id && same v.id c.version_id in
      elim (Option-cases (fetch_one belongs documents)) [
        | inl e ↦ absurd (ground arith)
        | inr (d, e) ↦ elim (Option-cases (fetch_one indexed versions)) [
          | inl e' ↦ absurd (ground arith)
          | inr (v, e') ↦ elim (Bool-cases (same c.vault_id vault_id)) [
            | inr n ↦ absurd (ground arith)
            | inl own ↦
                let q : record { chunk = c; document = d; version = v } ≡ r = ground arith in
                let (stored_d, fits_d) = fetch_one-Place belongs documents d e in
                let (stored_v, fits_v) = fetch_one-Place indexed versions v e' in
                let mine : c.vault_id ≡ vault_id = (same_iff _ _).0 own in
                let (d12, d3) = and_parts _ (not (is_some d.deleted_at)) fits_d in
                let (d1, d2) = and_parts _ (same d.id c.document_id) d12 in
                let (v1, v2) = and_parts _ (same v.id c.version_id) fits_v in
                subst
                  (λ x.
                    passes fold filters x ≡ true
                    → IsServed fold documents versions (c ∷ cs) vault_id filters x)
                  q
                  (λ p.
                    loaded-IsServed c cs d v stored_d stored_v mine ((same_iff _ _).0 d1)
                      ((same_iff _ _).0 d2) ((same_iff _ _).0 v1) ((same_iff _ _).0 v2)
                      (is_some-none _ d3) p)
                  p
          ]
        ]
      ]

  later-IsServed :
      (c : Chunk) (cs : List Chunk) (r : Row)
      → IsServed fold documents versions cs vault_id filters r
      → IsServed fold documents versions (c ∷ cs) vault_id filters r
  later-IsServed c cs r h = record {
    stored_chunk = Place-later c h.stored_chunk;
    stored_document = h.stored_document;
    stored_version = h.stored_version;
    chunk_vault = h.chunk_vault;
    document_vault = h.document_vault;
    version_vault = h.version_vault;
    document_key = h.document_key;
    version_key = h.version_key;
    undeleted = h.undeleted;
    current = h.current;
    source = h.source;
    media = h.media;
    path = h.path;
  }

  load_chunks-IsServed :
      (ids : List String) (cs : List Chunk)
      → All
          (IsServed fold documents versions cs vault_id filters)
          (load_chunks fold documents versions vault_id filters ids cs)
  unfolding load_chunks
  load_chunks-IsServed ids [] = tt
  load_chunks-IsServed ids (c ∷ cs) =
      let rest =
        All-map (λ r h. later-IsServed c cs r h)
          (load_chunks fold documents versions vault_id filters ids cs)
          (load_chunks-IsServed ids cs) in
      elim (Bool-cases (contains c.id ids)) [
        | inr e ↦ rw e rest
        | inl e ↦ elim (Option-cases (join_row documents versions vault_id c)) [
          | inl e' ↦ rw (e, e') rest
          | inr (r, e') ↦ elim (Bool-cases (passes fold filters r)) [
            | inr p ↦ rw (e, e', p) rest
            | inl p ↦ rw (e, e', p) (join_row-IsServed c cs r e' p, rest)
          ]
        ]
      ]

-- Whatever the channels and the reranker answer, each row that `search` returns is served to the
-- vault: chunk, document and version are rows of that vault and belong together, the document is
-- not deleted, the version is the current one unless history is asked for, and the filters on
-- source, media type and path hold.
pub search-IsServed :
    (S : Scores) (fold : ℕ → Text) (documents : List Document) (versions : List Version)
    (chunks : List Chunk) (vault_id : String) (filters : Filters) (limit : ℕ)
    (lexical dense visual : List String) (reranked : Option (List ℕ))
    → All (IsServed fold documents versions chunks vault_id filters) (
        search S fold documents versions chunks vault_id filters limit lexical dense visual
          reranked)
unfolding search diversify
search-IsServed S fold documents versions chunks vault_id filters limit lexical dense visual
      reranked =
    let P = IsServed fold documents versions chunks vault_id filters in
    let ids = ranked_ids S limit lexical dense visual in
    let loaded = load_chunks fold documents versions vault_id filters ids chunks in
    All-select_from P limit (λ d. 0) [] (reorder (keep_loaded loaded ids) reranked) tt
      (All-reorder P (keep_loaded loaded ids) reranked (
        All-keep_loaded P loaded ids
          (load_chunks-IsServed fold documents versions vault_id filters ids chunks)))
