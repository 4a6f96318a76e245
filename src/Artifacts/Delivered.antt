-- ===== src/Artifacts/Delivered.antt =====
-- A note arrives as it was written.
use Prim.Native.String
use personal_vault_rag.Prelude.{
  Bool, Bool-cases, List, Option, String, [], arith, inl, inr, ok, refl, same, same_refl, seconds,
  some, subst, ℕ, ◌&&◌, ◌*◌, ◌++◌, ◌∙◌, true, ◌+◌, ◌<◌, ◌∷◌, ◌≡◌, ltb,
}
use personal_vault_rag.Db.{PendingArtifact}
use personal_vault_rag.Table.{fetch_one}
use personal_vault_rag.Table.Unique.{fetch_one-append_new, has_wider}
use personal_vault_rag.Security.{Principal, require}
use personal_vault_rag.Mcp.{Access, current_vault}
use personal_vault_rag.Artifacts.{is_open, is_artifact, is_fresh, note_row, save_chat_note}
use personal_vault_rag.Artifacts.Requests.{note, content_of, artifact_content}
use personal_vault_rag.Artifacts.Inserted.{insert_artifact-ok}

-- A query that is narrower finds the row of the wider one, if it fits.
fetch_one-narrower :
    (p q : PendingArtifact → Bool) (c : List PendingArtifact) (row : PendingArtifact)
    → ((a : PendingArtifact) → p a ≡ true → q a ≡ true)
    → fetch_one q c ≡ some row
    → p row ≡ true
    → fetch_one p c ≡ some row
unfolding fetch_one
fetch_one-narrower p q [] row fits h e = absurd (ground arith)
fetch_one-narrower p q (a ∷ c) row fits h e = elim (Bool-cases (q a)) [
  | inl f ↦ let same_row : a ≡ row = ground arith in rw same_row (rw e refl)
  | inr f ↦ elim (Bool-cases (p a)) [
    | inl g ↦ absurd (ground (arith, fits a))
    | inr g ↦ rw g (fetch_one-narrower p q c row fits (rw f at h) e)
  ]
]

-- Let a tool take a note, and let the table `t` have the row of the note as it was inserted, whatever
-- has become of the other rows. Then the note is what a connector of the vault that may ingest
-- fetches from `t` under its identifier, until it expires.
pub artifact_content-save_chat_note :
    (id : String) (stamp hours later : ℕ) (provenance : String) (sha256 : String → String)
    (access : Option Access) (title text : String) (c c' t : List PendingArtifact) (p : Principal)
    (is_file : String → Bool)
    → save_chat_note id stamp hours provenance sha256 access title text c ≡ ok c'
    → current_vault access "write" ≡ ok p.vault_id
    → fetch_one (is_artifact p.vault_id id) t ≡ fetch_one (is_artifact p.vault_id id) c'
    → require p "ingest" ≡ ok tt
    → later < stamp + seconds (hours * 3600)
    → artifact_content p later is_file id t ≡ ok (note (some text))
unfolding save_chat_note artifact_content content_of
artifact_content-save_chat_note id stamp hours later provenance sha256 access title text c c' t p
      is_file e f kept g h =
    let row = note_row id stamp hours provenance sha256 p.vault_id title text in
    elim (Bool-cases (ltb (1024 * 1024) (String.len text))) [
      | inl k ↦ absurd (ground arith)
      | inr k ↦
          let (new, q) = insert_artifact-ok row c c' (ground arith) in
          let inserted : fetch_one (is_artifact p.vault_id id) (c ++ row ∷ []) ≡ some row =
            fetch_one-append_new (is_artifact p.vault_id id) c row
              (has_wider (is_artifact p.vault_id id) (λ a. same a.id id) (λ a m. ground arith) c
                new)
              (rw (same_refl, same_refl) refl) in
          let found : fetch_one (λ a. is_open p.vault_id id a && is_fresh later a) t ≡ some row =
            fetch_one-narrower (λ a. is_open p.vault_id id a && is_fresh later a)
              (is_artifact p.vault_id id) t row (λ a m. ground arith)
              (kept ∙ subst (λ d. fetch_one (is_artifact p.vault_id id) d ≡ some row) q inserted)
              (rw (same_refl, same_refl) (ground arith)) in
          rw (g, found) refl
    ]
