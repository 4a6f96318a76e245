-- ===== src/Views.antt =====
-- The evidence that a caller may read: `fetch_chunk` of app/retrieval.py, the requests `api_fetch`,
-- `view_document` and `visual_preview` of app/main.py, and the tool `fetch_evidence` of
-- app/mcp_server.py. A page is what it shows, without its HTML. The signature, the clock and the files
-- of the disk are arguments.
pub mod Previews
pub mod Passages
pub mod Pages
pub mod Images
pub mod Links
pub mod Missing
pub mod Tool
pub mod Agreement
use personal_vault_rag.Prelude.{
  Bool, List, Option, Result, String, [], false, is_some, leb, min, none, not, ok, raise, raise_if,
  same, some, ℕ, ◌&&◌, ◌+◌, ◌>>◌, ◌∷◌,
}
use personal_vault_rag.Db.{Document, Chunk, Preview}
use personal_vault_rag.Table.{select, fetch_one, order_by}
use personal_vault_rag.Security.{HttpException, http, Principal, require, check_view_signature}
use personal_vault_rag.Mcp.{Access, current_vault}
use personal_vault_rag.Catalog.{Catalog, is_document}

-- A number that a caller gives: `negsuc n` is -1 - n.
pub data ℤ : Type 0 where
  pos negsuc : ℕ → ℤ

-- `min(max(value, 0), most)`
abbrev pub clamp : (most : ℕ) → ℤ → ℕ
clamp most (pos n) = min n most
clamp most (negsuc n) = 0

abbrev pub is_chunk : (vault_id id : String) → Chunk → Bool
is_chunk vault_id id k = same k.vault_id vault_id && same k.id id

abbrev pub of_revision : (vault_id document_id version_id : String) → Chunk → Bool
of_revision vault_id document_id version_id k =
    same k.vault_id vault_id && same k.document_id document_id && same k.version_id version_id

-- `ordinal BETWEEN row.ordinal - adjacent AND row.ordinal + adjacent`, without the negative numbers
abbrev pub is_near : (adjacent : ℕ) → (row k : Chunk) → Bool
is_near adjacent row k =
    leb row.ordinal (k.ordinal + adjacent) && leb k.ordinal (row.ordinal + adjacent)

pub record Evidence : Type 0 where
  pub document_id : String
  pub version_id : String
  pub requested_chunk_id : String
  pub passages : List Chunk

abbrev pub chunk_missing : String
chunk_missing = "Chunk not found in this vault"

unfoldable pub fetch_chunk :
    List Chunk → (vault_id chunk_id : String) (adjacent : ℕ) → Result String Evidence
fetch_chunk chunks vault_id chunk_id adjacent =
    elim (fetch_one (is_chunk vault_id chunk_id) chunks) [
      | none ↦ raise chunk_missing
      | some row ↦ ok (record {
        document_id = row.document_id;
        version_id = row.version_id;
        requested_chunk_id = chunk_id;
        passages =
            order_by (λ k. k.ordinal)
              (select
                (λ k.
                  of_revision vault_id row.document_id row.version_id k && is_near adjacent row k)
                chunks);
      })
    ]

abbrev pub or_404 : Result String Evidence → Result HttpException Evidence
or_404 (raise e) = raise (http 404 e)
or_404 (ok x) = ok x

unfoldable pub api_fetch :
    List Chunk → Principal → (chunk_id : String) (adjacent : ℤ) → Result HttpException Evidence
unfolding fetch_chunk
api_fetch chunks p chunk_id adjacent =
    require p "search" >> or_404 (fetch_chunk chunks p.vault_id chunk_id (clamp 5 adjacent))

unfoldable pub fetch_evidence :
    List Chunk
    → Option Access
    → (chunk_id : String) (adjacent_passages : ℤ) → Result String Evidence
unfolding fetch_chunk
fetch_evidence chunks access chunk_id adjacent_passages = elim (current_vault access "search") [
  | raise e ↦ raise e
  | ok vault_id ↦ fetch_chunk chunks vault_id chunk_id (clamp 5 adjacent_passages)
]

-- What a page shows. `older` says that it warns of an older revision.
pub record Page : Type 0 where
  pub document : Document
  pub chunks : List Chunk
  pub previews : List Preview
  pub older : Bool

abbrev pub is_shown : (vault_id document_id : String) → Document → Bool
is_shown vault_id document_id d = is_document vault_id document_id d && not (is_some d.deleted_at)

abbrev pub preview_of : (vault_id document_id version_id : String) → Preview → Bool
preview_of vault_id document_id version_id p =
    same p.vault_id vault_id && same p.document_id document_id && same p.version_id version_id

-- `current_version_id == version`
abbrev pub is_version_of : Document → (version_id : String) → Bool
is_version_of d version_id = elim d.current_version_id [
  | none ↦ false
  | some current ↦ same current version_id
]

abbrev pub bad_link : HttpException
bad_link = http 403 "Invalid or expired viewer link"

abbrev pub no_revision : HttpException
no_revision = http 404 "Indexed revision not found"

abbrev pub page_of :
    Option Document → (version_id : String) → List Chunk → List Preview → Result HttpException Page
page_of none version_id chunks previews = raise no_revision
page_of (some d) version_id [] previews = raise no_revision
page_of (some d) version_id (k ∷ ks) previews = ok (record {
  document = d;
  chunks = k ∷ ks;
  previews = previews;
  older = not (is_version_of d version_id);
})

abbrev pub bad_preview_link : HttpException
bad_preview_link = http 403 "Invalid or expired preview link"

abbrev pub no_preview : HttpException
no_preview = http 404 "Visual preview is unavailable or expired"

module _ (sign_view : String → String → String → ℕ → String) (stamp : ℕ) where
  unfoldable pub view_document :
      Catalog
      → (document_id vault version : String) (expires : ℕ) (signature : String)
      → Result HttpException Page
  view_document c document_id vault version expires signature =
      raise_if
        (not (check_view_signature sign_view stamp vault document_id version expires signature))
        bad_link
      >> page_of (fetch_one (is_shown vault document_id) c.documents) version
          (order_by (λ k. k.ordinal) (select (of_revision vault document_id version) c.chunks))
          (order_by (λ p. p.ordinal) (select (preview_of vault document_id version) c.previews))

  -- The preview whose file is sent.
  unfoldable pub visual_preview :
      Catalog
      → (is_file : String → Bool) (preview_id vault document version : String) (expires : ℕ)
        (signature : String)
      → Result HttpException Preview
  visual_preview c is_file preview_id vault document version expires signature =
      raise_if (not (check_view_signature sign_view stamp vault document version expires signature))
        bad_preview_link
      >> elim (fetch_one (λ p. preview_of vault document version p && same p.id preview_id)
          c.previews) [
            | none ↦ raise no_preview
            | some p ↦ raise_if (not (is_file p.path)) no_preview >> ok p
          ]
