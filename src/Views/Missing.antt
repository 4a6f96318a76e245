-- ===== src/Views/Missing.antt =====
-- A preview whose file is gone: `api_visual_preview` of app/main.py, and the next scan.
use personal_vault_rag.Prelude.{
  Bool, Bool-cases, Option-cases, Result-cases, String, and_parts, ap, arith, false, if◌then◌else◌,
  inl, inr, is_some, not, ok, raise, refl, same, same_iff, some, subst, sym, true, ℕ, ◌&&◌, ◌==◌,
  ◌∙◌, ◌≡◌, ◌≤◌,
}
use personal_vault_rag.Db.{Document, Version, Preview}
use personal_vault_rag.Table.{fetch_one, count}
use personal_vault_rag.Table.Rows.{fetch_one-Place}
use personal_vault_rag.Table.Closed.{fetch_one-update}
use personal_vault_rag.Table.Unique.{fetch_one-only, fetch_one-All}
use personal_vault_rag.Table.Each.{has}
use personal_vault_rag.Security.{HttpException, http, Principal, require}
use personal_vault_rag.Catalog.{Catalog, is_document, is_version}
use personal_vault_rag.Catalog.References.{has_version, IsReferenced}
use personal_vault_rag.Catalog.Upload.{is_path_owner}
use personal_vault_rag.Catalog.Seen.{SeenRequest, needs_content, seen}
use personal_vault_rag.Views.{ℤ, clamp, is_version_of}
use personal_vault_rag.Views.Previews.{
  is_current_of, is_current_preview, is_recovering, lost_previews, forget_previews, missing_410,
  expired_410, api_visual_preview,
}

abbrev detail_of : HttpException → String
detail_of (http status_code detail) = detail

expired-missing : expired_410 ≡ missing_410 → false ≡ true
expired-missing e = ap (λ x. same (detail_of x) (detail_of missing_410)) e

module _ (stamp : ℕ) (uuid : String) (is_file : String → Bool) (c : Catalog) (p : Principal)
    (document_id : String) (preview_index : ℤ) where
  -- The preview that the request has found without its file, and what it leaves.
  pub record IsMissing (c' : Catalog) : Type 0 where
    pub row : Preview
    pub found :
        fetch_one
          (is_current_preview c.documents p.vault_id document_id (clamp 119 preview_index))
          c.previews
        ≡ some row
    pub gone : is_file row.path ≡ false
    pub left : forget_previews stamp uuid p.vault_id row.version_id c ≡ c'

  api_visual_preview-IsMissing :
      (c' : Catalog)
      → api_visual_preview stamp uuid is_file c p document_id preview_index
        ≡ (c', raise missing_410)
      → IsMissing c'
  unfolding api_visual_preview require
  api_visual_preview-IsMissing c' h = elim (Result-cases (require p "search")) [
    | inr (e, f) ↦ absurd (ground arith)
    | inl (u, f) ↦
        elim (Option-cases (
          fetch_one
            (is_current_preview c.documents p.vault_id document_id (clamp 119 preview_index))
            c.previews)) [
              | inl g ↦ elim (Bool-cases (is_recovering c p.vault_id document_id)) [
                | inl k ↦
                    let q : expired_410 ≡ missing_410 = ground arith in
                    let contrary = expired-missing q in absurd (ground arith)
                | inr k ↦ absurd (ground arith)
              ]
              | inr (row, g) ↦ elim (Bool-cases (is_file row.path)) [
                | inl k ↦ absurd (ground arith)
                | inr k ↦ record { row = row; found = g; gone = k; left = ground arith }
              ]
            ]
  ]

-- What a scan that is answered has found.
seen-found :
    (c d : Catalog) (q : Principal) (stamp : ℕ) (body : SeenRequest) (wanted : Bool)
    → seen c q stamp body ≡ ok (d, wanted)
    → (x : Document) × (fetch_one (is_document q.vault_id body.document_id) c.documents ≡ some x)
      × (needs_content c x ≡ wanted)
unfolding seen
seen-found c d q stamp body wanted h = elim (Result-cases (require q "ingest")) [
  | inr (e, f) ↦ absurd (ground arith)
  | inl (u, f) ↦
      elim (Option-cases (fetch_one (is_document q.vault_id body.document_id) c.documents)) [
        | inl g ↦ absurd (ground arith)
        | inr (x, g) ↦ elim (Bool-cases (not (same x.source_id body.source_id))) [
          | inl k ↦ absurd (ground arith)
          | inr k ↦
              elim (Bool-cases (
                has (is_path_owner q.vault_id x.source_id body.relative_path body.document_id)
                  c.documents)) [ inl l ↦ absurd (ground arith) | inr l ↦ (x, g, ground arith) ]
        ]
      ]
]

needs_content-current :
    (c : Catalog) (x : Document) (id : String) (w : Version)
    → x.current_version_id ≡ some id
    → fetch_one (is_version x.vault_id id) c.versions ≡ some w
    → needs_content c x ≡ w.visual_recovery_needed
unfolding needs_content
needs_content-current c x id w e f = ground arith

-- The current version of a document is marked once its previews are forgotten.
needs_content-forget_previews :
    (stamp : ℕ) (uuid : String) (c : Catalog) (vault_id version_id : String) (x : Document)
    → is_current_of vault_id version_id x ≡ true
    → has_version c.versions vault_id version_id ≡ true
    → needs_content (forget_previews stamp uuid vault_id version_id c) x ≡ true
needs_content-forget_previews stamp uuid c vault_id version_id x current known =
    let (own, live) = and_parts _ (not (is_some x.deleted_at)) current in
    let (v, is) = and_parts (same x.vault_id vault_id) (is_version_of x version_id) own in
    elim (Option-cases x.current_version_id) [
      | inl e ↦ absurd (ground arith)
      | inr (id, e) ↦ elim (Option-cases (fetch_one (is_version vault_id version_id) c.versions)) [
        | inl n ↦ absurd (ground arith)
        | inr (w, f) ↦
            let i : same id version_id ≡ true = ground arith in
            let fits = (fetch_one-Place (is_version vault_id version_id) c.versions w f).1 in
            let marked =
              fetch_one-update (is_version vault_id version_id) (is_version vault_id version_id)
                lost_previews (λ y. refl) c.versions w f in
            let after = forget_previews stamp uuid vault_id version_id c in
            let w' = if is_version vault_id version_id w then lost_previews w else w in
            let at : fetch_one (is_version x.vault_id id) after.versions ≡ some w' =
              rw ((same_iff _ _).0 v, (same_iff _ _).0 i) marked in
            needs_content-current after x id w' e at ∙ rw fits refl
      ]
    ]

pub joined-document :
    (vault_id document_id : String) (row : Preview) (z : Document)
    → row.vault_id ≡ vault_id
    → row.document_id ≡ document_id
    → (same z.id row.document_id && is_current_of row.vault_id row.version_id z) ≡ true
    → is_document vault_id document_id z ≡ true
joined-document vault_id document_id row z own named f =
    let (i, current) = and_parts (same z.id row.document_id) _ f in
    let (vc, live) = and_parts _ (not (is_some z.deleted_at)) current in
    let (v, is) = and_parts (same z.vault_id row.vault_id) _ vc in rw (← own, ← named, i, v) refl

-- The document of a preview that the request finds has the preview's version as its current one.
pub joined-current :
    (vault_id document_id : String) (ordinal : ℕ) (c : Catalog) (row : Preview) (x : Document)
    → count (is_document vault_id document_id) c.documents ≤ 1
    → is_current_preview c.documents vault_id document_id ordinal row ≡ true
    → fetch_one (is_document vault_id document_id) c.documents ≡ some x
    → (row.vault_id ≡ vault_id) × (is_current_of vault_id row.version_id x ≡ true)
joined-current vault_id document_id ordinal c row x unique h found =
    let joins : Document → Bool =
      λ d. same d.id row.document_id && is_current_of row.vault_id row.version_id d in
    let (abc, joined) = and_parts _ (has joins c.documents) h in
    let (ab, placed) = and_parts _ (row.ordinal == ordinal) abc in
    let (v, r) = and_parts (same row.vault_id vault_id) (same row.document_id document_id) ab in
    let own : row.vault_id ≡ vault_id = (same_iff _ _).0 v in
    let named : row.document_id ≡ document_id = (same_iff _ _).0 r in
    elim (Option-cases (fetch_one joins c.documents)) [
      | inl e ↦ absurd (ground arith)
      | inr (y, e) ↦
          let fits = (fetch_one-Place joins c.documents y e).1 in
          let only =
            fetch_one-only joins (is_document vault_id document_id)
              (λ z f. joined-document vault_id document_id row z own named f) c.documents y unique
              e in
          let mine = (fetch_one-Place (is_document vault_id document_id) c.documents x found).1 in
          let q : x ≡ y =
            fetch_one-All (λ z. is_document vault_id document_id z ≡ true → z ≡ y) _ c.documents x
              only found mine in
          let current = (and_parts (same y.id row.document_id) _ fits).1 in
          (
            own,
            subst (λ w. is_current_of w row.version_id x ≡ true) own
                (subst (λ z. is_current_of row.vault_id row.version_id z ≡ true) (sym q) current),
          )
    ]

-- Where documents have unique identifiers and previews keep their versions: after a request that has
-- answered that a preview is missing, a request `seen` for the document on the catalog that it left, if
-- it is accepted, is answered that the file's content is wanted.
pub api_visual_preview-seen :
    (stamp later : ℕ) (uuid : String) (is_file : String → Bool) (c c' d : Catalog) (p q : Principal)
    (document_id : String) (preview_index : ℤ) (body : SeenRequest) (wanted : Bool)
    → count (is_document p.vault_id document_id) c.documents ≤ 1
    → IsReferenced c
    → q.vault_id ≡ p.vault_id
    → body.document_id ≡ document_id
    → api_visual_preview stamp uuid is_file c p document_id preview_index ≡ (c', raise missing_410)
    → seen c' q later body ≡ ok (d, wanted)
    → wanted ≡ true
api_visual_preview-seen stamp later uuid is_file c c' d p q document_id preview_index body wanted
      unique references same_vault same_document h scan =
    let m = api_visual_preview-IsMissing stamp uuid is_file c p document_id preview_index c' h in
    let row = m.row in
    let left = m.left in
    let (x, found, answer) = seen-found c' d q later body wanted scan in
    let found_in : fetch_one (is_document p.vault_id document_id) c.documents ≡ some x =
      rw (← same_vault, ← same_document)
        (subst (λ y. fetch_one (is_document q.vault_id body.document_id) y.documents ≡ some x)
          (sym left) found) in
    let joined =
      (fetch_one-Place
        (is_current_preview c.documents p.vault_id document_id (clamp 119 preview_index)) c.previews
        row m.found).1 in
    let (own, current) =
      joined-current p.vault_id document_id (clamp 119 preview_index) c row x unique joined
        found_in in
    let known =
      fetch_one-All (λ r. has_version c.versions r.vault_id r.version_id ≡ true) _ c.previews row
        references.previews m.found in
    sym answer
    ∙ subst (λ y. needs_content y x ≡ true) left
        (needs_content-forget_previews stamp uuid c p.vault_id row.version_id x current
          (rw own at known))
