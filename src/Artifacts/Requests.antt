-- ===== src/Artifacts/Requests.antt =====
-- The requests of app/main.py by which a connector lists, fetches and completes artifacts.
use personal_vault_rag.Prelude.{
  Bool, List, Option, Result, String, [], cut, false, if◌then◌else◌, none, not, ok, or_else, raise,
  raise_if, same, some, take, true, ℕ, ◌&&◌, ◌+◌, ◌==◌, ◌>>◌, ◌||◌, ◌∷◌,
}
use personal_vault_rag.Db.{ArtifactState, PendingArtifact}
use personal_vault_rag.Table.{select, fetch_one, update, order_by}
use personal_vault_rag.Security.{Principal, HttpException, require}
use personal_vault_rag.Artifacts.SavedPaths.{slashed, saved_path}
use personal_vault_rag.Artifacts.{is_pending, is_open, is_artifact, is_fresh}

-- The rows that a connector is told of.
unfoldable pub pending_artifacts :
    Principal → (stamp : ℕ) → List PendingArtifact → Result HttpException (List PendingArtifact)
pending_artifacts p stamp artifacts =
    require p "ingest"
    >> ok (
        take 20 (
          order_by (λ a. a.created_at)
            (select (λ a. same a.vault_id p.vault_id && is_pending a.state && is_fresh stamp a)
              artifacts)))

-- The answer of `artifact_content`: a note's text, or a file.
pub data Content : Type 0 where
  note : (text : Option String) → Content
  file : (path file_name : String) (media_type : Option String) → Content

abbrev pub not_found : HttpException
not_found = HttpException.http 404 "Pending artifact not found"

abbrev pub not_staged : HttpException
not_staged = HttpException.http 410 "Staged artifact content is unavailable"

unfoldable pub content_of :
    (is_file : String → Bool) → PendingArtifact → Result HttpException Content
content_of is_file a =
    if same a.artifact_kind "note" then ok (note a.note_text) else elim a.staging_path [
      | none ↦ raise not_staged
      | some path ↦
          raise_if (same path "" || not (is_file path)) not_staged
          >> ok (file path a.file_name a.media_type)
    ]

unfoldable pub artifact_content :
    Principal
    → (stamp : ℕ) (is_file : String → Bool) (artifact_id : String) → List PendingArtifact
    → Result HttpException Content
unfolding content_of
artifact_content p stamp is_file artifact_id artifacts =
    require p "ingest"
    >> elim (fetch_one (λ a. is_open p.vault_id artifact_id a && is_fresh stamp a) artifacts) [
      | none ↦ raise not_found
      | some a ↦ content_of is_file a
    ]

pub record ArtifactComplete : Type 0 where
  pub success : Bool
  pub saved_relative_path : Option String
  pub content_sha256 : Option String
  pub content_size_bytes : Option ℕ
  pub error : Option String

abbrev pub mark_saved : (stamp : ℕ) (path : String) → PendingArtifact → PendingArtifact
mark_saved stamp path a = record a {
  state = ArtifactState.saved;
  completed_at = some stamp;
  saved_relative_path = some path;
  delivery_attempts = a.delivery_attempts + 1;
  error = none;
}

abbrev pub retried : (error : String) → PendingArtifact → PendingArtifact
retried error a = record a {
  state = ArtifactState.pending;
  delivery_attempts = a.delivery_attempts + 1;
  error = some (cut 2000 error);
}

abbrev pub unsafe_path : HttpException
unsafe_path = HttpException.http 422 "A safe saved_relative_path is required on success"

abbrev pub other_content : HttpException
other_content =
    HttpException.http 422 "Delivered content fingerprint does not match the staged artifact"

-- `a != b` of texts and numbers that may be None
abbrev pub same_option : Option String → Option String → Bool
same_option none none = true
same_option (some s) (some t) = same s t
same_option _ _ = false

abbrev pub same_size : Option ℕ → Option ℕ → Bool
same_size none none = true
same_size (some m) (some n) = m == n
same_size _ _ = false

-- `body.error or "Connector delivery failed"`
abbrev pub delivery_error : Option String → String
delivery_error none = "Connector delivery failed"
delivery_error (some s) = if same s "" then "Connector delivery failed" else s

abbrev pub unlinked : PendingArtifact → List String
unlinked a = elim a.staging_path [ none ↦ [] | some path ↦ if same path "" then [] else path ∷ [] ]

-- The table and the files that are unlinked.
unfoldable pub artifact_complete :
    Principal
    → (stamp : ℕ) (artifact_id : String) → ArtifactComplete
    → List PendingArtifact
    → Result HttpException (List PendingArtifact × List String)
artifact_complete p stamp artifact_id body artifacts =
    require p "ingest" >> elim (fetch_one (is_open p.vault_id artifact_id) artifacts) [
      | none ↦ raise not_found
      | some row ↦
          if body.success
          then elim (saved_path (slashed (or_else body.saved_relative_path ""))) [
            | none ↦ raise unsafe_path
            | some path ↦
                raise_if
                  (not (same_option body.content_sha256 row.content_sha256)
                    || not (same_size body.content_size_bytes row.content_size_bytes))
                  other_content
                >> ok (
                  update (is_artifact p.vault_id artifact_id) (mark_saved stamp path) artifacts,
                  unlinked row,
                )
          ]
          else ok (
            update (is_artifact p.vault_id artifact_id) (retried (delivery_error body.error))
                artifacts,
            [],
          )
    ]
