-- ===== src/Views/Passages.antt =====
-- What `fetch_evidence` of app/mcp_server.py and `api_fetch` of app/main.py show.
use personal_vault_rag.Prelude.{
  All, Bool, List, Option, Option-cases, Result-cases, String, arith, inl, inr, and_parts, leb,
  leb→le, le→leb, same_iff, subst, ok, refl, same, same_refl, true, ℕ, ◌&&◌, ◌+◌, ◌<◌, ◌∙◌, ◌≡◌,
  ◌≤◌,
}
use personal_vault_rag.Db.{Chunk}
use personal_vault_rag.Table.{select, fetch_one, count, order_by}
use personal_vault_rag.Table.Laws.{All-map}
use personal_vault_rag.Table.Rows.{Place, fetch_one-Place}
use personal_vault_rag.Table.Ordered.{
  IsOrdered, count-order_by, All-order_by, order_by-IsOrdered, count-select, All-select,
  Place-count,
}
use personal_vault_rag.Mcp.{Access, current_vault}
use personal_vault_rag.Views.{
  ℤ, pos, negsuc, clamp, is_chunk, of_revision, is_near, Evidence, fetch_chunk, fetch_evidence,
}

-- The passage is of the revision, and at most `distance` places from the row.
abbrev pub IsNear : (distance : ℕ) → Chunk → Chunk → Type 0
IsNear distance row k =
    (k.vault_id ≡ row.vault_id)
    × (k.document_id ≡ row.document_id)
    × (k.version_id ≡ row.version_id)
    × (row.ordinal ≤ k.ordinal + distance)
    × (k.ordinal ≤ row.ordinal + distance)

clamp-le : (most : ℕ) (z : ℤ) → clamp most z ≤ most
clamp-le most (pos n) = omega arith
clamp-le most (negsuc n) = omega arith

-- What is shown for a chunk: its revision's chunks within the distance, in order, each as often as it
-- stands in the table, and the chunk itself among them.
pub record IsEvidence (chunks : List Chunk) (vault_id chunk_id : String) (distance : ℕ)
    (x : Evidence) : Type 0 where
  pub row : Chunk
  pub stored : Place row chunks
  pub own : row.vault_id ≡ vault_id
  pub named : row.id ≡ chunk_id
  pub document : x.document_id ≡ row.document_id
  pub version : x.version_id ≡ row.version_id
  pub near : All (IsNear distance row) x.passages
  pub ordered : IsOrdered (λ k. k.ordinal) x.passages
  pub complete :
      (q : Chunk → Bool)
      → count q x.passages
        ≡ count
            (λ k.
              (of_revision vault_id row.document_id row.version_id k && is_near distance row k)
              && q k)
            chunks
  pub requested : 0 < count (is_chunk vault_id chunk_id) x.passages

-- The chunk itself is among them.
is_near_self : (adjacent : ℕ) (row : Chunk) → is_near adjacent row row ≡ true
is_near_self adjacent row =
    let l = le→leb row.ordinal (row.ordinal + adjacent) (omega arith) in rw l refl

is_near-IsNear :
    (adjacent : ℕ) (row k : Chunk)
    → (of_revision row.vault_id row.document_id row.version_id k && is_near adjacent row k) ≡ true
    → IsNear adjacent row k
is_near-IsNear adjacent row k h =
    let (own, near) = and_parts _ (is_near adjacent row k) h in
    let (low, high) = and_parts (leb row.ordinal (k.ordinal + adjacent)) _ near in
    let (vd, v) = and_parts _ (same k.version_id row.version_id) own in
    let (a, b) = and_parts (same k.vault_id row.vault_id) (same k.document_id row.document_id) vd in
    ((same_iff _ _).0 a, (same_iff _ _).0 b, (same_iff _ _).0 v, leb→le _ _ low, leb→le _ _ high)

module _ (chunks : List Chunk) (vault_id chunk_id : String) (adjacent : ℕ) where
  -- The passages of a row.
  abbrev passages_of : Chunk → List Chunk
  passages_of row =
      order_by (λ k. k.ordinal)
        (select
          (λ k. of_revision vault_id row.document_id row.version_id k && is_near adjacent row k)
          chunks)

  requested-passages_of :
      (row : Chunk)
      → Place row chunks
      → is_chunk vault_id chunk_id row ≡ true
      → 0 < count (is_chunk vault_id chunk_id) (passages_of row)
  requested-passages_of row stored own =
      let near : Chunk → Bool =
        λ k. of_revision vault_id row.document_id row.version_id k && is_near adjacent row k in
      let (v, i) = and_parts (same row.vault_id vault_id) (same row.id chunk_id) own in
      let all : (near row && is_chunk vault_id chunk_id row) ≡ true =
        rw (v, same_refl, same_refl, is_near_self, i) refl in
      rw (count-order_by, count-select)
        (Place-count (λ k. near k && is_chunk vault_id chunk_id k) chunks row stored all)

  passages_of-IsNear :
      (row : Chunk) → row.vault_id ≡ vault_id → All (IsNear adjacent row) (passages_of row)
  passages_of-IsNear row v =
      subst
        (λ w. All (IsNear adjacent row) (
          order_by (λ k. k.ordinal)
            (select (λ k. of_revision w row.document_id row.version_id k && is_near adjacent row k)
              chunks)))
        v
        (All-order_by (λ k. k.ordinal) (IsNear adjacent row) _
          (All-map (λ k h. is_near-IsNear adjacent row k h) _ (All-select _ chunks)))

  fetch_chunk-IsEvidence :
      (x : Evidence)
      → fetch_chunk chunks vault_id chunk_id adjacent ≡ ok x
      → IsEvidence chunks vault_id chunk_id adjacent x
  unfolding fetch_chunk
  fetch_chunk-IsEvidence x h = elim (Option-cases (fetch_one (is_chunk vault_id chunk_id) chunks)) [
    | inl e ↦ absurd (ground arith)
    | inr (row, e) ↦
        let (stored, own) = fetch_one-Place (is_chunk vault_id chunk_id) chunks row e in
        let v : row.vault_id ≡ vault_id =
          (same_iff _ _).0 (and_parts _ (same row.id chunk_id) own).0 in
        let q : record {
          document_id = row.document_id;
          version_id = row.version_id;
          requested_chunk_id = chunk_id;
          passages = passages_of row;
        }
            ≡ x =
          ground arith in
        subst (IsEvidence chunks vault_id chunk_id adjacent) q (record {
          row = row;
          stored = stored;
          own = v;
          named = (same_iff _ _).0 (and_parts (same row.vault_id vault_id) _ own).1;
          document = refl;
          version = refl;
          near = passages_of-IsNear row v;
          ordered = order_by-IsOrdered (λ k. k.ordinal) _;
          complete = λ p. count-order_by (λ k. k.ordinal) p _ ∙ count-select _ p chunks;
          requested = requested-passages_of row stored own;
        })
  ]

-- Where the tool shows a chunk, the caller's token has the scope for a vault, and what is shown is the
-- vault's chunk and those chunks of its revision whose ordinals are as near as is asked, five at most,
-- in the order of their ordinals, each as often as it is stored.
pub fetch_evidence-IsEvidence :
    (chunks : List Chunk) (access : Option Access) (chunk_id : String) (adjacent_passages : ℤ)
    (x : Evidence)
    → fetch_evidence chunks access chunk_id adjacent_passages ≡ ok x
    → (vault_id : String) × (current_vault access "search" ≡ ok vault_id)
      × (clamp 5 adjacent_passages ≤ 5)
      × IsEvidence chunks vault_id chunk_id (clamp 5 adjacent_passages) x
unfolding fetch_evidence
fetch_evidence-IsEvidence chunks access chunk_id adjacent_passages x h =
    elim (Result-cases (current_vault access "search")) [
      | inr (e, f) ↦ absurd (ground arith)
      | inl (vault_id, f) ↦ (
        vault_id,
        f,
        clamp-le 5 adjacent_passages,
        fetch_chunk-IsEvidence chunks vault_id chunk_id (clamp 5 adjacent_passages) x
            (ground arith),
      )
    ]
