-- ===== src/Views/Links.antt =====
-- The links that `search` of app/retrieval.py puts into its results, and the pages that they open.
use personal_vault_rag.Prelude.{
  All, List, Option, String, [], arith, false, ltb, ok, refl, same_refl, some, true, ℕ, ◌&&◌, ◌+◌,
  ◌<◌, ◌∷◌, ◌≡◌, ◌≤◌,
}
use personal_vault_rag.Db.{Document, Chunk, Preview}
use personal_vault_rag.Table.{select, count, order_by}
use personal_vault_rag.Table.Laws.{All-map}
use personal_vault_rag.Table.Ordered.{count-order_by, count-select, Place-count, count-found}
use personal_vault_rag.Security.{whole_seconds, check_view_signature}
use personal_vault_rag.Catalog.{Catalog}
use personal_vault_rag.Retrieval.{Row, Filters, Scores, search}
use personal_vault_rag.Retrieval.Paths.{Text}
use personal_vault_rag.Retrieval.Loading.{IsServed, search-IsServed}
use personal_vault_rag.Views.{
  is_chunk, of_revision, preview_of, is_shown, Page, page_of, view_document,
}

-- The document of the path and the parameters of the query in a `viewer_url`.
pub record Link : Type 0 where
  pub document_id : String
  pub vault : String
  pub version : String
  pub expires : ℕ
  pub signature : String

module _ (sign_view : String → String → String → ℕ → String) where
  unfoldable pub view_link : (stamp : ℕ) (vault_id : String) → Row → Link
  view_link stamp vault_id r =
      let expires = whole_seconds stamp + 3600 in
      record {
        document_id = r.chunk.document_id;
        vault = vault_id;
        version = r.chunk.version_id;
        expires = expires;
        signature = sign_view vault_id r.chunk.document_id r.chunk.version_id expires;
      }

  ltb_of_le : (a b : ℕ) → a ≤ b → ltb b a ≡ false
  ltb_of_le a b h = ground arith

  -- What the link of a result opens.
  abbrev pub Opens : (later : ℕ) → Catalog → Link → Chunk → Type 0
  Opens later c link chunk =
      (page : Page) × (view_document sign_view later c link.document_id link.vault link.version
          link.expires link.signature
        ≡ ok page)
      × (0 < count (is_chunk chunk.vault_id chunk.id) page.chunks)

  page_of-filled :
      (d : Document) (version id vault : String) (chunks : List Chunk) (previews : List Preview)
      → 0 < count (is_chunk vault id) chunks
      → (page : Page) × (page_of (some d) version chunks previews ≡ ok page)
        × (0 < count (is_chunk vault id) page.chunks)
  unfolding count
  page_of-filled d version id vault [] previews h = absurd (omega arith)
  page_of-filled d version id vault (k ∷ ks) previews h = (_, refl, h)

  Served-Opens :
      (fold : ℕ → Text) (c : Catalog) (vault_id : String) (filters : Filters) (stamp later : ℕ)
      (r : Row)
      → whole_seconds later ≤ whole_seconds stamp + 3600
      → IsServed fold c.documents c.versions c.chunks vault_id filters r
      → Opens later c (view_link stamp vault_id r) r.chunk
  unfolding view_document view_link check_view_signature
  Served-Opens fold c vault_id filters stamp later r h s =
      let id = r.chunk.document_id in
      let version = r.chunk.version_id in
      let e = ltb_of_le (whole_seconds later) (whole_seconds stamp + 3600) h in
      let shown : is_shown vault_id id r.document ≡ true =
        rw (s.document_vault, s.document_key, s.undeleted, same_refl, same_refl) refl in
      let (d, found) =
        count-found (is_shown vault_id id) c.documents
          (Place-count (is_shown vault_id id) c.documents r.document s.stored_document shown) in
      let mine = is_chunk r.chunk.vault_id r.chunk.id in
      let fits : (of_revision vault_id id version r.chunk && mine r.chunk) ≡ true =
        rw (s.chunk_vault, same_refl, same_refl, same_refl, same_refl) refl in
      let present : 0
          < count mine
              (order_by (λ k. k.ordinal) (select (of_revision vault_id id version) c.chunks)) =
        rw (count-order_by, count-select)
          (Place-count (λ k. of_revision vault_id id version k && mine k) c.chunks r.chunk
            s.stored_chunk fits) in
      rw (e, same_refl, found)
        (page_of-filled d version r.chunk.id r.chunk.vault_id _
          (order_by (λ p. p.ordinal) (select (preview_of vault_id id version) c.previews)) present)

-- Whatever the channels and the reranker answer, the link of each result of a search opens, for an
-- hour of whole seconds in which the catalog stays as it is, a page on which its passage stands.
pub search-Opens :
    (sign_view : String → String → String → ℕ → String) (S : Scores) (fold : ℕ → Text) (c : Catalog)
    (vault_id : String) (filters : Filters) (limit : ℕ) (lexical dense visual : List String)
    (reranked : Option (List ℕ)) (stamp later : ℕ)
    → whole_seconds later ≤ whole_seconds stamp + 3600
    → All
        (λ r. Opens sign_view later c (view_link sign_view stamp vault_id r) r.chunk)
        (search S fold c.documents c.versions c.chunks vault_id filters limit lexical dense visual
          reranked)
search-Opens sign_view S fold c vault_id filters limit lexical dense visual reranked stamp later h =
    All-map (λ r s. Served-Opens sign_view fold c vault_id filters stamp later r h s) _
      (search-IsServed S fold c.documents c.versions c.chunks vault_id filters limit lexical dense
        visual reranked)
