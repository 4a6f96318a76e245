-- ===== src/Artifacts/Inserted.antt =====
-- What the tools save_chat_note and save_chat_artifact of app/mcp_server.py insert.
use Prim.Native.String
use personal_vault_rag.Prelude.{
  Bool-cases, List, Option, Result, Result-cases, String, [], arith, false, inl, inr, ltb, none, ok,
  refl, same, ℕ, ◌*◌, ◌++◌, ◌∷◌, ◌≡◌,
}
use personal_vault_rag.Db.{ArtifactState, PendingArtifact}
use personal_vault_rag.Table.Each.{has}
use personal_vault_rag.Mcp.{Access, current_vault}
use personal_vault_rag.Artifacts.{
  Download, note_row, file_row, insert_artifact, save_chat_note, save_chat_artifact,
}

-- An INSERT that passed: the identifier is new.
pub insert_artifact-ok :
    (a : PendingArtifact) (c c' : List PendingArtifact)
    → insert_artifact a c ≡ ok c'
    → (has (λ b. same b.id a.id) c ≡ false) × (c ++ a ∷ [] ≡ c')
unfolding insert_artifact
insert_artifact-ok a c c' h = elim (Bool-cases (has (λ b. same b.id a.id) c)) [
  | inl e ↦ absurd (ground arith)
  | inr e ↦ (e, ground arith)
]

-- What either tool has done: one row is inserted, which waits.
pub record Inserts (c c' : List PendingArtifact) : Type 0 where
  pub row : PendingArtifact
  pub pending : row.state ≡ ArtifactState.pending
  pub unsaved : row.saved_relative_path ≡ none
  pub incomplete : row.completed_at ≡ none
  pub inserted : insert_artifact row c ≡ ok c'

pub save_chat_note-Inserts :
    (id : String) (stamp hours : ℕ) (provenance : String) (sha256 : String → String)
    (access : Option Access) (title text : String) (c c' : List PendingArtifact)
    → save_chat_note id stamp hours provenance sha256 access title text c ≡ ok c'
    → Inserts c c'
unfolding save_chat_note
save_chat_note-Inserts id stamp hours provenance sha256 access title text c c' e =
    elim (Result-cases (current_vault access "write")) [
      | inr (x, f) ↦ absurd (ground arith)
      | inl (vault_id, f) ↦ elim (Bool-cases (ltb (1024 * 1024) (String.len text))) [
        | inl g ↦ absurd (ground arith)
        | inr g ↦ record {
          row = note_row id stamp hours provenance sha256 vault_id title text;
          pending = refl;
          unsaved = refl;
          incomplete = refl;
          inserted = ground arith;
        }
      ]
    ]

pub save_chat_artifact-Inserts :
    (id : String) (stamp hours : ℕ) (provenance : String) (access : Option Access)
    (download : Result String Download) (note : Option String) (c c' : List PendingArtifact)
    → save_chat_artifact id stamp hours provenance access download note c ≡ ok c'
    → Inserts c c'
unfolding save_chat_artifact
save_chat_artifact-Inserts id stamp hours provenance access download note c c' e =
    elim (Result-cases (current_vault access "write")) [
      | inr (x, f) ↦ absurd (ground arith)
      | inl (vault_id, f) ↦ elim (Result-cases download) [
        | inr (x, g) ↦ absurd (ground arith)
        | inl (d, g) ↦ record {
          row = file_row id stamp hours provenance vault_id d note;
          pending = refl;
          unsaved = refl;
          incomplete = refl;
          inserted = ground arith;
        }
      ]
    ]
