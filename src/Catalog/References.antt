-- ===== src/Catalog/References.antt =====
-- The foreign keys of app/db.py from what is derived to the versions, under the operations of
-- app/catalog.py.
use personal_vault_rag.Prelude.{
  and_parts, All, Bool, Bool-cases, List, Option-cases, String, [], arith, false, inl, inr, refl,
  same, same_iff, subst, sym, true, ℕ, ◌&&◌, ◌++◌, ◌∷◌, ◌≡◌,
}
use personal_vault_rag.Db.{Document, Version}
use personal_vault_rag.Table.{select, fetch_one, update, delete}
use personal_vault_rag.Table.Laws.{All-map}
use personal_vault_rag.Table.Closed.{fetch_one-append, fetch_one-update}
use personal_vault_rag.Table.Each.{has, has-delete, has-select_none, All-delete}
use personal_vault_rag.Catalog.{
  Catalog, Derived, is_version, of_version, delete_document, delete_documents, complete_reconcile,
  count_missing, confirmed_rows, nothing,
}

abbrev pub has_version : List Version → (vault_id version_id : String) → Bool
has_version versions vault_id version_id = has (is_version vault_id version_id) versions

-- FOREIGN KEY (vault_id, version_id) of chunks, previews and embedding_batches
pub record IsReferenced (c : Catalog) : Type 0 where
  pub chunks : All (λ k. has_version c.versions k.vault_id k.version_id ≡ true) c.chunks
  pub previews : All (λ p. has_version c.versions p.vault_id p.version_id ≡ true) c.previews
  pub batches : All (λ b. has_version c.versions b.vault_id b.version_id ≡ true) c.batches

-- Where versions are only added and changed, what they are referenced by stays.
pub IsReferenced-grow :
    (c : Catalog) (versions : List Version)
    → ((v id : String) → has_version c.versions v id ≡ true → has_version versions v id ≡ true)
    → IsReferenced c
    → IsReferenced (record c { versions = versions })
IsReferenced-grow c versions grows h = record {
  chunks = All-map (λ k e. grows k.vault_id k.version_id e) c.chunks h.chunks;
  previews = All-map (λ p e. grows p.vault_id p.version_id e) c.previews h.previews;
  batches = All-map (λ b e. grows b.vault_id b.version_id e) c.batches h.batches;
}

pub has-append :
    (xs ys : List Version) (v id : String)
    → has_version xs v id ≡ true
    → has_version (xs ++ ys) v id ≡ true
has-append xs ys v id h = elim (Option-cases (fetch_one (is_version v id) xs)) [
  | inl e ↦ absurd (ground arith)
  | inr (x, e) ↦ rw (fetch_one-append (is_version v id) xs ys x e) refl
]

pub has-update :
    (q : Version → Bool) (f : Version → Version)
    → ((x : Version) → (v id : String) → is_version v id (f x) ≡ is_version v id x)
    → (xs : List Version) (v id : String) → has_version xs v id ≡ true
    → has_version (update q f xs) v id ≡ true
has-update q f keeps xs v id h = elim (Option-cases (fetch_one (is_version v id) xs)) [
  | inl e ↦ absurd (ground arith)
  | inr (x, e) ↦ rw (fetch_one-update (is_version v id) q f (λ y. keeps y v id) xs x e) refl
]

module _ (vault_id : String) (q : Version → Bool)
    (owned : (x : Version) → q x ≡ true → same x.vault_id vault_id ≡ true)
    (versions : List Version) where
  -- What a cascade of deleted versions of a vault leaves has its version left.
  pub has_version-delete :
      (v id : String)
      → (same v vault_id && has (is_version vault_id id) (select q versions)) ≡ false
      → has_version versions v id ≡ true
      → has_version (delete q versions) v id ≡ true
  has_version-delete v id left h = elim (Bool-cases (same v vault_id)) [
    | inl e ↦
        let own : v ≡ vault_id = (same_iff _ _).0 e in
        let gone : has (is_version vault_id id) (select q versions) ≡ false = rw e at left in
        has-delete (is_version v id) q versions h
          (subst (λ w. has (is_version w id) (select q versions) ≡ false) (sym own) gone)
    | inr e ↦ has-delete (is_version v id) q versions h (
        has-select_none (is_version v id) q versions λ x fits. elim (Bool-cases (q x)) [
          | inr n ↦ n
          | inl o ↦
              let mine = owned x o in
              absurd (
                ground
                  (arith, same_iff x.vault_id v, same_iff x.vault_id vault_id, same_iff v vault_id))
        ])
  ]

module _ (vault_id : String) (stamp : ℕ) (uuid : String → String) where
  delete_document-IsReferenced :
      (row : Document) (c : Catalog) (files : Derived)
      → IsReferenced c
      → IsReferenced (delete_document vault_id stamp uuid row (c, files)).0
  unfolding delete_document
  delete_document-IsReferenced row c files h =
      let left =
        has_version-delete vault_id (of_version vault_id row.id) (λ x e. (and_parts _ _ e).0)
          c.versions in
      record {
        chunks =
            All-map (λ k e. left k.vault_id k.version_id e.0 e.1) _
              (All-delete _ _ c.chunks h.chunks);
        previews =
            All-map (λ p e. left p.vault_id p.version_id e.0 e.1) _
              (All-delete _ _ c.previews h.previews);
        batches =
            All-map (λ b e. left b.vault_id b.version_id e.0 e.1) _
              (All-delete _ _ c.batches h.batches);
      }

  delete_documents-IsReferenced :
      (rows : List Document) (c : Catalog) (files : Derived)
      → IsReferenced c
      → IsReferenced (delete_documents vault_id stamp uuid rows (c, files)).0
  unfolding delete_documents
  delete_documents-IsReferenced [] c files h = h
  delete_documents-IsReferenced (r ∷ rs) c files h =
      let next = delete_document vault_id stamp uuid r (c, files) in
      delete_documents-IsReferenced rs next.0 next.1 (delete_document-IsReferenced r c files h)

  -- A reconciliation leaves no chunk, preview or embedding batch without its version.
  pub complete_reconcile-IsReferenced :
      (c : Catalog) (confirmations : ℕ) (source_id : String) (generation : ℕ) (complete : Bool)
      → IsReferenced c
      → IsReferenced
          (complete_reconcile vault_id stamp uuid c confirmations source_id generation complete).0.0
  unfolding complete_reconcile
  complete_reconcile-IsReferenced c conf source_id gen false h = record {
    chunks = h.chunks;
    previews = h.previews;
    batches = h.batches;
  }
  complete_reconcile-IsReferenced c conf source_id gen true h =
      let counted = count_missing vault_id stamp uuid c source_id gen in
      let r =
        delete_documents-IsReferenced (confirmed_rows vault_id stamp uuid conf source_id counted)
          counted (nothing vault_id stamp uuid)
          (record { chunks = h.chunks; previews = h.previews; batches = h.batches }) in
      record { chunks = r.chunks; previews = r.previews; batches = r.batches }
