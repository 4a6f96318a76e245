-- ===== src/Views/Pages.antt =====
-- What the signed links of app/main.py show.
use personal_vault_rag.Prelude.{
  and_parts, ap, Option-cases, same_refl, is_some, ◌↔◌, none, false, All, Bool, Bool-cases, List,
  Option, String, [], arith, inl, inr, length, ltb, not, ok, refl, same, same_iff, some, subst,
  true, ℕ, ◌&&◌, ◌<◌, ◌∙◌, ◌∷◌, ◌≡◌, ◌≤◌,
}
use personal_vault_rag.Db.{Document, Chunk, Preview}
use personal_vault_rag.Table.{select, fetch_one, count, order_by}
use personal_vault_rag.Table.Laws.{All-map}
use personal_vault_rag.Table.Rows.{Place, fetch_one-Place}
use personal_vault_rag.Table.Unique.{All-Place}
use personal_vault_rag.Table.Ordered.{
  IsOrdered, count-order_by, All-order_by, order_by-IsOrdered, count-select, All-select,
  All-selected,
}
use personal_vault_rag.Security.{whole_seconds, check_view_signature}
use personal_vault_rag.Catalog.{Catalog}
use personal_vault_rag.Views.{
  of_revision, preview_of, is_shown, is_version_of, Page, page_of, view_document,
}

-- A row is of the vault, the document and the version.
abbrev pub IsOf : (vault document_id version v d w : String) → Type 0
IsOf vault document_id version v d w = (v ≡ vault) × (d ≡ document_id) × (w ≡ version)

IsOf-parts :
    (vault document_id version v d w : String)
    → (same v vault && same d document_id && same w version) ≡ true
    → IsOf vault document_id version v d w
IsOf-parts vault document_id version v d w h =
    let (vd, e) = and_parts _ (same w version) h in
    let (a, b) = and_parts (same v vault) (same d document_id) vd in
    ((same_iff _ _).0 a, (same_iff _ _).0 b, (same_iff _ _).0 e)

older-current :
    (d : Document) (version : String)
    → (not (is_version_of d version) ≡ false) ↔ (d.current_version_id ≡ some version)
older-current d version = elim (Option-cases d.current_version_id) [
  | inl e ↦ rw e (λ h. absurd (ground arith), λ h. absurd (ground arith))
  | inr (current, e) ↦ rw e (
    λ h. ap some ((same_iff current version).0 (ground arith)),
    λ h. let q : current ≡ version = ground arith in rw (q, same_refl) refl,
  )
]

shown-document :
    (vault document_id : String) (d : Document)
    → is_shown vault document_id d ≡ true
    → (d.vault_id ≡ vault) × (d.id ≡ document_id) × (d.deleted_at ≡ none)
shown-document vault document_id d h =
    let (vd, live) = and_parts _ (not (is_some d.deleted_at)) h in
    let (a, b) = and_parts (same d.vault_id vault) (same d.id document_id) vd in
    ((same_iff _ _).0 a, (same_iff _ _).0 b, ground arith)

module _ (sign_view : String → String → String → ℕ → String) (stamp : ℕ) (c : Catalog)
    (document_id vault version : String) (expires : ℕ) (signature : String) where
  -- The page of a link: the link is signed for what it names and has not expired, and all that is
  -- shown is of the vault, the document and the version that it names.
  pub record IsPage (page : Page) : Type 0 where
    pub signed : sign_view vault document_id version expires ≡ signature
    pub unexpired : whole_seconds stamp ≤ expires
    pub stored : Place page.document c.documents
    pub own : page.document.vault_id ≡ vault
    pub named : page.document.id ≡ document_id
    pub undeleted : page.document.deleted_at ≡ none
    pub filled : 0 < length page.chunks
    pub own_chunks :
        All (λ k. IsOf vault document_id version k.vault_id k.document_id k.version_id) page.chunks
    pub own_previews :
        All
          (λ p. IsOf vault document_id version p.vault_id p.document_id p.version_id)
          page.previews
    pub stored_previews : All (λ p. Place p c.previews) page.previews
    pub ordered : IsOrdered (λ k. k.ordinal) page.chunks
    pub warned : (page.older ≡ false) ↔ (page.document.current_version_id ≡ some version)
    pub complete :
        (q : Chunk → Bool)
        → count q page.chunks ≡ count (λ k. of_revision vault document_id version k && q k) c.chunks

  check_view_signature-true :
      check_view_signature sign_view stamp vault document_id version expires signature ≡ true
      → (sign_view vault document_id version expires ≡ signature) × (whole_seconds stamp ≤ expires)
  unfolding check_view_signature
  check_view_signature-true h = elim (Bool-cases (ltb expires (whole_seconds stamp))) [
    | inl e ↦ absurd (ground arith)
    | inr e ↦
        let q : same (sign_view vault document_id version expires) signature ≡ true =
          ground arith in
        ((same_iff _ _).0 q, ground arith)
  ]

  page_of-ok :
      (o : Option Document) (chunks : List Chunk) (previews : List Preview) (page : Page)
      → page_of o version chunks previews ≡ ok page
      → (o ≡ some page.document)
        × (page.chunks ≡ chunks)
        × (page.previews ≡ previews)
        × (0 < length page.chunks)
        × (page.older ≡ not (is_version_of page.document version))
  page_of-ok none chunks previews page h = absurd (ground arith)
  page_of-ok (some d) [] previews page h = absurd (ground arith)
  page_of-ok (some d) (k ∷ ks) previews page h =
      let q : record {
        document = d;
        chunks = k ∷ ks;
        previews = previews;
        older = not (is_version_of d version);
      }
          ≡ page =
        ground arith in
      subst
        (λ p.
          (some d ≡ some p.document)
          × (p.chunks ≡ k ∷ ks)
          × (p.previews ≡ previews)
          × (0 < length p.chunks)
          × (p.older ≡ not (is_version_of p.document version)))
        q (refl, refl, refl, omega arith, refl)

  -- Where a link opens a page, it is signed for the vault, document and version that it names and has not
  -- expired; the page shows that document, which is in the vault and not deleted, all chunks of the
  -- version in the order of their ordinals, one at least, and only stored previews of that vault, document and
  -- version; and it warns exactly where the version is not the document's current one.
  pub view_document-IsPage :
      (page : Page)
      → view_document sign_view stamp c document_id vault version expires signature ≡ ok page
      → IsPage page
  unfolding view_document
  view_document-IsPage page h =
      elim (Bool-cases
        (check_view_signature sign_view stamp vault document_id version expires signature)) [
          | inr e ↦ absurd (ground arith)
          | inl e ↦
              let (signed, unexpired) = check_view_signature-true e in
              let chunks =
                order_by (λ k. k.ordinal)
                  (select (of_revision vault document_id version) c.chunks) in
              let previews =
                order_by (λ p. p.ordinal)
                  (select (preview_of vault document_id version) c.previews) in
              let o = fetch_one (is_shown vault document_id) c.documents in
              let opened : page_of o version chunks previews ≡ ok page = ground arith in
              let (found, k, p, filled, warned) = page_of-ok o chunks previews page opened in
              let (stored, shown) =
                fetch_one-Place (is_shown vault document_id) c.documents page.document found in
              let (own, named, undeleted) = shown-document vault document_id page.document shown in
              record {
                signed = signed;
                unexpired = unexpired;
                stored = stored;
                own = own;
                named = named;
                undeleted = undeleted;
                filled = filled;
                own_chunks = rw k (
                    All-order_by (λ x. x.ordinal) _ _
                      (All-map (λ x e. IsOf-parts vault document_id version _ _ _ e) _
                        (All-select _ c.chunks)));
                own_previews = rw p (
                    All-order_by (λ x. x.ordinal) _ _
                      (All-map (λ x e. IsOf-parts vault document_id version _ _ _ e) _
                        (All-select _ c.previews)));
                stored_previews = rw p (
                    All-order_by (λ x. x.ordinal) _ _
                      (All-map (λ x e. e.1) _
                        (All-selected (λ x. Place x c.previews) _ c.previews
                          (All-Place c.previews))));
                ordered = rw k (order_by-IsOrdered (λ x. x.ordinal) _);
                warned = rw warned (older-current page.document version);
                complete =
                    λ q. rw k (count-order_by (λ x. x.ordinal) q _ ∙ count-select _ q c.chunks);
              }
        ]
