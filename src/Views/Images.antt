-- ===== src/Views/Images.antt =====
-- The images on a page: `visual_preview` of app/main.py under the parameters of the page's link.
use personal_vault_rag.Prelude.{
  All, All-both, Bool, String, arith, ltb, not, ok, raise_if, refl, same, same_refl, true, false, ℕ,
  ◌&&◌, ◌>>◌, ◌≡◌, ◌≤◌,
}
use personal_vault_rag.Db.{Preview}
use personal_vault_rag.Table.{count}
use personal_vault_rag.Table.Laws.{All-map}
use personal_vault_rag.Table.Rows.{Place, count_mono}
use personal_vault_rag.Table.Unique.{fetch_one-Place_only, All-Place}
use personal_vault_rag.Security.{whole_seconds, check_view_signature}
use personal_vault_rag.Catalog.{Catalog}
use personal_vault_rag.Views.{preview_of, Page, no_preview, view_document, visual_preview}
use personal_vault_rag.Views.Pages.{IsOf, view_document-IsPage}

module _ (sign_view : String → String → String → ℕ → String) (later : ℕ) (c : Catalog)
    (is_file : String → Bool) (document_id vault version : String) (expires : ℕ)
    (signature : String) where
  -- The link of the image is answered with the preview, or with 404 where its file is gone.
  abbrev pub IsSent : Preview → Type 0
  IsSent q =
      visual_preview sign_view later c is_file q.id vault document_id version expires signature
      ≡ (raise_if (not (is_file q.path)) no_preview >> ok q)

  stored-IsSent :
      ((id : String) → count (λ p. same p.vault_id vault && same p.id id) c.previews ≤ 1)
      → whole_seconds later ≤ expires
      → sign_view vault document_id version expires ≡ signature
      → (q : Preview) → IsOf vault document_id version q.vault_id q.document_id q.version_id
      → Place q c.previews
      → IsSent q
  unfolding visual_preview check_view_signature
  stored-IsSent unique open_yet signed q (v, d, w) at =
      let test : Preview → Bool = λ p. preview_of vault document_id version p && same p.id q.id in
      let one : count test c.previews ≤ 1 = omega (
        arith,
        unique q.id,
        count_mono test (λ p. same p.vault_id vault && same p.id q.id) c.previews
            (All-map (λ p _ e. ground arith) c.previews (All-Place c.previews)),
      ) in
      let fits : test q ≡ true = rw (v, d, w, same_refl, same_refl, same_refl, same_refl) refl in
      let found = fetch_one-Place_only test c.previews q at one fits in
      let early : ltb expires (whole_seconds later) ≡ false = ground arith in
      rw (early, signed, same_refl, found) refl

  -- Where previews have unique identifiers, each image of a page that a link has opened is sent while the
  -- link has not expired and the catalog stays as it is, or is answered with 404 where its file is gone.
  pub view_document-IsSent :
      (stamp : ℕ) (page : Page)
      → ((id : String) → count (λ p. same p.vault_id vault && same p.id id) c.previews ≤ 1)
      → whole_seconds later ≤ expires
      → view_document sign_view stamp c document_id vault version expires signature ≡ ok page
      → All IsSent page.previews
  view_document-IsSent stamp page unique open_yet h =
      let shown =
        view_document-IsPage sign_view stamp c document_id vault version expires signature page h in
      All-map (λ q e. stored-IsSent unique open_yet shown.signed q e.0 e.1) page.previews
        (All-both _ (λ q. Place q c.previews) page.previews shown.own_previews
          shown.stored_previews)
