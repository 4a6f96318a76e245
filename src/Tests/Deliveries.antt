-- ===== src/Tests/Deliveries.antt =====
-- Runs of the tools and requests of artifacts. The digests leave a text as it is.
use personal_vault_rag.Prelude.{
  All, Bool, List, if◌then◌else◌, Option, String, same, arith, length, ◌≤◌, [], false, none, ok,
  refl, some, true, ℕ, ◌≡◌, ◌↔◌, ◌∷◌,
}
use personal_vault_rag.Db.{AccessToken, ArtifactState, PendingArtifact}
use personal_vault_rag.Table.{fetch_one, update, count, select, order_by}
use personal_vault_rag.Security.{Principal, require, has_scope}
use personal_vault_rag.Mcp.{Access, required_scopes, verify_token, current_vault}
use personal_vault_rag.Mcp.Grants.{has_every, AsksScopes, IsGranted, current_vault-IsGranted}
use personal_vault_rag.Artifacts.{is_artifact, note_row, insert_artifact, save_chat_note}
use personal_vault_rag.Artifacts.Requests.{
  note, ArtifactComplete, mark_saved, artifact_content, pending_artifacts, artifact_complete,
}
use personal_vault_rag.Artifacts.SavedPaths.{
  slashed, split_path, kept, is_absolute, as_posix, has_part, saved_path,
}
use personal_vault_rag.Artifacts.Lifecycle.{
  Reach, start, next, notes, completes, expires, IsConsistent, Reach-IsConsistent,
}
use personal_vault_rag.Artifacts.Delivered.{artifact_content-save_chat_note}
use personal_vault_rag.Artifacts.Listed.{IsFetched, pending_artifacts-IsFetched}
use personal_vault_rag.Table.Ordered.{IsOrdered}
use personal_vault_rag.Artifacts.Refines.{Runs, status_in, Reach-Runs}
use personal_vault_rag.Catalog.Cleanup.{is_unclaimed, expire}

abbrev digest : String → String
digest text = text

abbrev chat : AccessToken
chat = record {
  id = "tok_1";
  vault_id = "home";
  token_hash = "secret";
  label = "OAuth app";
  scopes = "search" ∷ "write" ∷ [];
  created_at = 1;
  expires_at = some 1_000;
  revoked_at = none;
}

-- A library that asks for the required scopes.
abbrev asking : List String → Option Access → Option Access
asking required none = none
asking required (some a) = if has_every required a.scopes then some a else none

asking-AsksScopes : AsksScopes asking
asking-AsksScopes = (λ required. refl, λ required a. refl)

current_vault-IsGranted_example :
    (current_vault (asking required_scopes (verify_token digest (chat ∷ []) 50 "secret")) "write"
      ≡ ok "home")
    ↔ IsGranted asking asking-AsksScopes digest (chat ∷ []) 50 "secret" "write" "home"
current_vault-IsGranted_example =
    current_vault-IsGranted asking asking-AsksScopes digest (chat ∷ []) 50 "secret" "write" "home"
      refl

dotted : saved_path "notes/./tea//milk.md" ≡ some "notes/tea/milk.md"
unfolding saved_path split_path kept is_absolute as_posix has_part
dotted = refl

climbing : saved_path "notes/../../tea.md" ≡ none
unfolding saved_path split_path kept is_absolute as_posix has_part
climbing = refl

drive_path : saved_path "C:/Users/tea.md" ≡ some "C:/Users/tea.md"
unfolding saved_path split_path kept is_absolute as_posix has_part
drive_path = refl

abbrev access : Option Access
access =
    some (record {
      token = "secret";
      client_id = "tok_1";
      scopes = "write" ∷ [];
      subject = some "home";
    })

abbrev tea : PendingArtifact
tea = note_row "artifact_1" 50 1 "{}" digest "home" "Tea" "Milk first"

note_runs :
    save_chat_note "artifact_1" 50 1 "{}" digest access "Tea" "Milk first" [] ≡ ok (tea ∷ [])
unfolding save_chat_note insert_artifact current_vault has_scope fetch_one
note_runs = refl

abbrev connector : Principal
connector = record {
  vault_id = "home";
  token_id = "tok_2";
  scopes = "ingest" ∷ [];
  label = "Connector";
}

write_allowed : current_vault access "write" ≡ ok "home"
unfolding current_vault has_scope
write_allowed = refl

ingest_allowed : require connector "ingest" ≡ ok tt
unfolding require has_scope
ingest_allowed = refl

abbrev nowhere : String → Bool
nowhere path = false

-- Another artifact has arrived before it.
abbrev old_tea : PendingArtifact
old_tea = record tea { id = "artifact_0"; state = ArtifactState.saved }

tea_kept :
    fetch_one (is_artifact "home" "artifact_1") (old_tea ∷ tea ∷ [])
    ≡ fetch_one (is_artifact "home" "artifact_1") (tea ∷ [])
unfolding fetch_one
tea_kept = refl

artifact_content-save_chat_note_example :
    artifact_content connector 60 nowhere "artifact_1" (old_tea ∷ tea ∷ [])
    ≡ ok (note (some "Milk first"))
artifact_content-save_chat_note_example =
    artifact_content-save_chat_note "artifact_1" 50 1 60 "{}" digest access "Tea" "Milk first" []
      (tea ∷ []) (old_tea ∷ tea ∷ []) connector nowhere note_runs write_allowed tea_kept
      ingest_allowed (omega arith)

tea_unique : (id : String) → count (λ b. same b.id id) (tea ∷ []) ≤ 1
unfolding count
tea_unique id = ground arith

listing_runs : pending_artifacts connector 60 (tea ∷ []) ≡ ok (tea ∷ [])
unfolding pending_artifacts require has_scope select order_by
listing_runs = refl

pending_artifacts-IsFetched_example :
    (length (tea ∷ []) ≤ 20)
    × IsOrdered (λ a. a.created_at) (tea ∷ [])
    × All (IsFetched connector 60 nowhere (tea ∷ [])) (tea ∷ [])
pending_artifacts-IsFetched_example =
    pending_artifacts-IsFetched connector 60 nowhere (tea ∷ []) (tea ∷ []) tea_unique listing_runs

abbrev delivery : ArtifactComplete
delivery = record {
  success = true;
  saved_relative_path = some "Saved\\Tea.md";
  content_sha256 = some "Milk first";
  content_size_bytes = some 10;
  error = none;
}

abbrev kept_tea : PendingArtifact
kept_tea = mark_saved 70 "Saved/Tea.md" tea

delivery_runs :
    artifact_complete connector 70 "artifact_1" delivery (tea ∷ []) ≡ ok (kept_tea ∷ [], [])
unfolding artifact_complete require has_scope fetch_one update saved_path slashed split_path kept
    is_absolute as_posix has_part
delivery_runs = refl

empty-IsConsistent : IsConsistent []
empty-IsConsistent = record { unique = λ id. unfold count in omega arith; sound = tt }

abbrev history : Reach [] (kept_tea ∷ [])
history =
    next (tea ∷ [])
      (next [] start (notes "artifact_1" 50 1 "{}" digest access "Tea" "Milk first" note_runs))
      (completes connector 70 "artifact_1" delivery [] delivery_runs)

Reach-IsConsistent_example : IsConsistent (kept_tea ∷ [])
Reach-IsConsistent_example = Reach-IsConsistent [] (kept_tea ∷ []) history empty-IsConsistent

abbrev much_later : ℕ
much_later = 10_000_000_000

cleanup_runs : kept_tea ∷ [] ≡ update (is_unclaimed much_later) expire (kept_tea ∷ [])
unfolding update
cleanup_runs = refl

Reach-Runs_example :
    Runs (status_in "home" "artifact_1" []) (status_in "home" "artifact_1" (kept_tea ∷ []))
Reach-Runs_example =
    Reach-Runs "home" "artifact_1" [] (kept_tea ∷ [])
      (next (kept_tea ∷ []) history (expires much_later cleanup_runs)) empty-IsConsistent
