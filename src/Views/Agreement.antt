-- ===== src/Views/Agreement.antt =====
-- `inspect_visual` of app/mcp_server.py and `api_visual_preview` of app/main.py.
use personal_vault_rag.Prelude.{
  All, Bool, Bool-cases, List, Option, Option-cases, Result, String, [], and_parts, ap, arith,
  false, inl, inr, is_some, none, not, ok, raise, refl, same, same_iff, some, true, ℕ, ◌&&◌, ◌==◌,
  ◌∷◌, ◌≡◌, ◌≤◌, ◌↔◌,
}
use personal_vault_rag.Db.{Document, Preview}
use personal_vault_rag.Table.{fetch_one, count}
use personal_vault_rag.Table.Laws.{All-map}
use personal_vault_rag.Table.Rows.{fetch_one-Place}
use personal_vault_rag.Table.Unique.{fetch_one-All}
use personal_vault_rag.Table.Ordered.{count-found, Place-count}
use personal_vault_rag.Table.Each.{has}
use personal_vault_rag.Security.{HttpException, Principal, require}
use personal_vault_rag.Mcp.{Access, current_vault}
use personal_vault_rag.Catalog.{Catalog, is_document}
use personal_vault_rag.Views.{ℤ, clamp, is_version_of}
use personal_vault_rag.Views.Previews.{
  is_current_of, is_current_preview, is_recovering, forget_previews, no_visual, missing_410,
  expired_410, unavailable_404, api_visual_preview,
}
use personal_vault_rag.Views.Tool.{is_inspected, forget_current, inspect_visual}
use personal_vault_rag.Views.Missing.{joined-current, joined-document}

-- The documents whose current version this is have this identifier.
abbrev pub IsOwner : List Document → Preview → Type 0
IsOwner documents r =
    All (λ d. is_current_of r.vault_id r.version_id d ≡ true → same d.id r.document_id ≡ true)
      documents

-- Documents have unique identifiers in the vault, and the version of a preview, which is not empty, is
-- the current one of no document but the preview's.
pub record IsOwned (c : Catalog) (vault_id : String) : Type 0 where
  pub unique : (id : String) → count (is_document vault_id id) c.documents ≤ 1
  pub owners : All (IsOwner c.documents) c.previews
  pub filled : All (λ r. same r.version_id "" ≡ false) c.previews

has-same :
    (p q : Document → Bool) (documents : List Document)
    → All (λ d. p d ≡ q d) documents
    → has p documents ≡ has q documents
unfolding fetch_one
has-same p q [] h = refl
has-same p q (d ∷ documents) h = ground (arith, has-same p q documents)

fetch_one-same :
    (p q : Preview → Bool) (previews : List Preview)
    → All (λ r. p r ≡ q r) previews
    → fetch_one p previews ≡ fetch_one q previews
unfolding fetch_one
fetch_one-same p q [] h = refl
fetch_one-same p q (r ∷ previews) h = rw (h.0, fetch_one-same p q previews h.1) refl

owner-joins :
    (r : Preview) (documents : List Document)
    → IsOwner documents r
    → All
        (λ d.
          is_current_of r.vault_id r.version_id d
          ≡ (same d.id r.document_id && is_current_of r.vault_id r.version_id d))
        documents
owner-joins r [] h = tt
owner-joins r (d ∷ documents) h = (ground (arith, h.0), owner-joins r documents h.1)

inspected-current :
    (c : Catalog) (vault_id document_id : String) (preview_index : ℤ)
    → IsOwned c vault_id
    → fetch_one (is_inspected c.documents vault_id document_id preview_index none) c.previews
      ≡ fetch_one
          (is_current_preview c.documents vault_id document_id (clamp 119 preview_index))
          c.previews
inspected-current c vault_id document_id preview_index h = fetch_one-same _ _ c.previews (
    All-map
      (λ r o.
        ap
          (λ b.
            same r.vault_id vault_id
            && same r.document_id document_id
            && (r.ordinal == clamp 119 preview_index)
            && b)
          (has-same _ _ c.documents (owner-joins r c.documents o)))
      c.previews h.owners)

-- The document of a preview that is found.
joined-found :
    (vault_id document_id : String) (ordinal : ℕ) (c : Catalog) (row : Preview)
    → is_current_preview c.documents vault_id document_id ordinal row ≡ true
    → (x : Document) × (fetch_one (is_document vault_id document_id) c.documents ≡ some x)
joined-found vault_id document_id ordinal c row h =
    let joins : Document → Bool =
      λ d. same d.id row.document_id && is_current_of row.vault_id row.version_id d in
    let (abc, joined) = and_parts _ (has joins c.documents) h in
    let (ab, placed) = and_parts _ (row.ordinal == ordinal) abc in
    let (v, r) = and_parts (same row.vault_id vault_id) (same row.document_id document_id) ab in
    elim (Option-cases (fetch_one joins c.documents)) [
      | inl e ↦ absurd (ground arith)
      | inr (y, e) ↦
          let (place, fits) = fetch_one-Place joins c.documents y e in
          count-found (is_document vault_id document_id) c.documents (
            Place-count (is_document vault_id document_id) c.documents y place (
              joined-document vault_id document_id row y ((same_iff _ _).0 v) ((same_iff _ _).0 r)
                fits))
    ]

forget_current-joined :
    (stamp : ℕ) (uuid vault_id document_id version_id : String) (c : Catalog) (x : Document)
    → fetch_one (is_document vault_id document_id) c.documents ≡ some x
    → is_current_of vault_id version_id x ≡ true
    → same version_id "" ≡ false
    → forget_current stamp uuid vault_id document_id c
      ≡ forget_previews stamp uuid vault_id version_id c
unfolding forget_current
forget_current-joined stamp uuid vault_id document_id version_id c x found current filled =
    let (own, live) = and_parts _ (not (is_some x.deleted_at)) current in
    let (v, is) = and_parts (same x.vault_id vault_id) (is_version_of x version_id) own in
    elim (Option-cases x.current_version_id) [
      | inl e ↦ absurd (ground arith)
      | inr (id, e) ↦
          let i : same id version_id ≡ true = ground arith in
          rw (found, e, (same_iff _ _).0 i, filled, forget_current) refl
    ]

-- The same catalog is left, and the same preview shown, or none.
abbrev pub Agrees :
    Catalog × Result String Preview → Catalog × Result HttpException Preview → Type 0
Agrees tool request =
    (tool.0 ≡ request.0) × ((row : Preview) → (tool.1 ≡ ok row) ↔ (request.1 ≡ ok row))

raise-Agrees :
    (c d : Catalog) (e : String) (e' : HttpException) → c ≡ d → Agrees (c, raise e) (d, raise e')
raise-Agrees c d e e' q = (q, λ row. (λ h. absurd (ground arith), λ h. absurd (ground arith)))

ok-Agrees : (c : Catalog) (row : Preview) → Agrees (c, ok row) (c, ok row)
ok-Agrees c row = (refl, λ r. (λ h. ground arith, λ h. ground arith))

-- Where documents have unique identifiers and the version of a preview is not empty and is the current
-- one of the preview's document at most, the tool by the place of a preview and the request, by callers
-- that may search the same vault, leave the same catalog, and show the same preview or none.
pub inspect_visual-api_visual_preview :
    (stamp : ℕ) (uuid : String) (is_file : String → Bool) (c : Catalog) (access : Option Access)
    (p : Principal) (document_id : String) (preview_index : ℤ)
    → IsOwned c p.vault_id
    → current_vault access "search" ≡ ok p.vault_id
    → require p "search" ≡ ok tt
    → Agrees
        (inspect_visual stamp uuid is_file c access document_id preview_index none)
        (api_visual_preview stamp uuid is_file c p document_id preview_index)
unfolding inspect_visual api_visual_preview
inspect_visual-api_visual_preview stamp uuid is_file c access p document_id preview_index h f g =
    let same_row = inspected-current c p.vault_id document_id preview_index h in
    elim (Option-cases (
      fetch_one (is_current_preview c.documents p.vault_id document_id (clamp 119 preview_index))
        c.previews)) [
          | inl e ↦ elim (Bool-cases (is_recovering c p.vault_id document_id)) [
            | inl k ↦
                rw (f, g, same_row, e, k, inspect_visual, api_visual_preview)
                  (raise-Agrees c c no_visual expired_410 refl)
            | inr k ↦
                rw (f, g, same_row, e, k, inspect_visual, api_visual_preview)
                  (raise-Agrees c c no_visual unavailable_404 refl)
          ]
          | inr (row, e) ↦ elim (Bool-cases (is_file row.path)) [
            | inl k ↦
                rw (f, g, same_row, e, k, inspect_visual, api_visual_preview) (ok-Agrees c row)
            | inr k ↦
                let joined =
                  (fetch_one-Place
                    (is_current_preview c.documents p.vault_id document_id
                      (clamp 119 preview_index))
                    c.previews row e).1 in
                let (x, found) =
                  joined-found p.vault_id document_id (clamp 119 preview_index) c row joined in
                let (own, current) =
                  joined-current p.vault_id document_id (clamp 119 preview_index) c row x
                    (h.unique document_id) joined found in
                let filled =
                  fetch_one-All (λ r. same r.version_id "" ≡ false) _ c.previews row h.filled e in
                rw (f, g, same_row, e, k, inspect_visual, api_visual_preview)
                  (raise-Agrees _ _ no_visual missing_410 (
                    forget_current-joined stamp uuid p.vault_id document_id row.version_id c x found
                      current filled))
          ]
        ]
