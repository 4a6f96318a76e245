-- ===== src/Artifacts/Lifecycle.antt =====
-- What becomes of an artifact over a history of tools, deliveries and cleanups.
use personal_vault_rag.Prelude.{
  All, All-append, All-both, All-every, Bool, Bool-cases, List, Option, Option-cases, Result,
  Result-cases, String, [], arith, inl, inr, none, ok, refl, same, same_iff, some, subst, sym, true,
  ℕ, ◌∷◌, ◌≡◌, ◌||◌, not, or_else, ◌≤◌,
}
use personal_vault_rag.Db.{ArtifactState, PendingArtifact}
use personal_vault_rag.Table.{fetch_one, update, count}
use personal_vault_rag.Table.Rows.{count-update, fetch_one-Place}
use personal_vault_rag.Table.Unique.{fetch_one-only, count-append_new}
use personal_vault_rag.Table.Each.{All-update}
use personal_vault_rag.Security.{Principal, require}
use personal_vault_rag.Catalog.Cleanup.{is_unclaimed, expire}
use personal_vault_rag.Mcp.{Access}
use personal_vault_rag.Artifacts.SavedPaths.{slashed, saved_path}
use personal_vault_rag.Artifacts.SafePaths.{IsSafe, saved_path-IsSafe}
use personal_vault_rag.Artifacts.{
  Download, is_pending, is_open, is_artifact, insert_artifact, save_chat_note, save_chat_artifact,
}
use personal_vault_rag.Artifacts.Inserted.{
  insert_artifact-ok, Inserts, save_chat_note-Inserts, save_chat_artifact-Inserts,
}
use personal_vault_rag.Artifacts.Requests.{
  ArtifactComplete, artifact_complete, mark_saved, retried, delivery_error, same_option, same_size,
}

-- One operation on the table.
pub data Step (c c' : List PendingArtifact) : Type 0 where
  notes :
      (id : String) (stamp hours : ℕ) (provenance : String) (sha256 : String → String)
      (access : Option Access) (title text : String)
      → save_chat_note id stamp hours provenance sha256 access title text c ≡ ok c'
      → Step c c'
  saves :
      (id : String) (stamp hours : ℕ) (provenance : String) (access : Option Access)
      (download : Result String Download) (note : Option String)
      → save_chat_artifact id stamp hours provenance access download note c ≡ ok c'
      → Step c c'
  completes :
      (p : Principal) (stamp : ℕ) (id : String) (body : ArtifactComplete) (files : List String)
      → artifact_complete p stamp id body c ≡ ok (c', files)
      → Step c c'
  expires : (stamp : ℕ) → c' ≡ update (is_unclaimed stamp) expire c → Step c c'

-- The tables that such operations reach.
pub data Reach (c : List PendingArtifact) : List PendingArtifact → Type 0 where
  start : Reach c c
  next : {e : List PendingArtifact} (d : List PendingArtifact) → Reach c d → Step d e → Reach c e

-- What a completed delivery has done to the table.
pub data Completed (p : Principal) (stamp : ℕ) (id : String) (body : ArtifactComplete)
    (c c' : List PendingArtifact) : Type 0 where
  delivered :
      (row : PendingArtifact) (path : String)
      → fetch_one (is_open p.vault_id id) c ≡ some row
      → saved_path (slashed (or_else body.saved_relative_path "")) ≡ some path
      → same_option body.content_sha256 row.content_sha256 ≡ true
      → same_size body.content_size_bytes row.content_size_bytes ≡ true
      → update (is_artifact p.vault_id id) (mark_saved stamp path) c ≡ c'
      → Completed p stamp id body c c'
  failed :
      (row : PendingArtifact)
      → fetch_one (is_open p.vault_id id) c ≡ some row
      → update (is_artifact p.vault_id id) (retried (delivery_error body.error)) c ≡ c'
      → Completed p stamp id body c c'

pub artifact_complete-Completed :
    (p : Principal) (stamp : ℕ) (id : String) (body : ArtifactComplete)
    (c c' : List PendingArtifact) (files : List String)
    → artifact_complete p stamp id body c ≡ ok (c', files)
    → Completed p stamp id body c c'
unfolding artifact_complete
artifact_complete-Completed p stamp id body c c' files h =
    elim (Result-cases (require p "ingest")) [
      | inr (e, f) ↦ absurd (ground arith)
      | inl (u, f) ↦ elim (Option-cases (fetch_one (is_open p.vault_id id) c)) [
        | inl g ↦ absurd (ground arith)
        | inr (row, g) ↦ elim (Bool-cases body.success) [
          | inr s ↦ failed row g (ground arith)
          | inl s ↦
              elim (Option-cases (saved_path (slashed (or_else body.saved_relative_path "")))) [
                | inl k ↦ absurd (ground arith)
                | inr (path, k) ↦
                    elim (Bool-cases (
                      not (same_option body.content_sha256 row.content_sha256)
                      || not (same_size body.content_size_bytes row.content_size_bytes))) [
                        | inl l ↦ absurd (ground arith)
                        | inr l ↦
                            delivered row path g k (ground arith) (ground arith) (ground arith)
                      ]
              ]
        ]
      ]
    ]

-- A row is waiting, delivered to a safe path, or has expired; only a delivered one has a path and a
-- time of completion, and one that has expired names no staged file.
pub data IsSound (a : PendingArtifact) : Type 0 where
  waiting :
      a.state ≡ ArtifactState.pending
      → a.saved_relative_path ≡ none
      → a.completed_at ≡ none
      → IsSound a
  delivered :
      (path : String) (stamp : ℕ)
      → a.state ≡ ArtifactState.saved
      → a.saved_relative_path ≡ some path
      → IsSafe path
      → a.completed_at ≡ some stamp
      → IsSound a
  over :
      a.state ≡ ArtifactState.expired
      → a.saved_relative_path ≡ none
      → a.completed_at ≡ none
      → a.staging_path ≡ none
      → IsSound a

-- The table: its identifiers are unique and its rows are sound.
pub record IsConsistent (c : List PendingArtifact) : Type 0 where
  pub unique : (id : String) → count (λ b. same b.id id) c ≤ 1
  pub sound : All IsSound c

-- An UPDATE that leaves the identifiers.
update-IsConsistent :
    (q : PendingArtifact → Bool) (f : PendingArtifact → PendingArtifact) (c : List PendingArtifact)
    → ((a : PendingArtifact) (id : String) → same (f a).id id ≡ same a.id id)
    → IsConsistent c
    → All IsSound (update q f c)
    → IsConsistent (update q f c)
update-IsConsistent q f c keeps h s = record {
  unique = λ id.
      rw (count-update (λ b. same b.id id) q f c (All-every (λ a e. keeps a id) c)) (h.unique id);
  sound = s;
}

insert-IsConsistent :
    (a : PendingArtifact) (c c' : List PendingArtifact)
    → IsSound a
    → IsConsistent c
    → insert_artifact a c ≡ ok c'
    → IsConsistent c'
insert-IsConsistent a c c' s h e =
    let (new, q) = insert_artifact-ok a c c' e in
    subst IsConsistent q (record {
      unique = λ id.
          count-append_new (λ b. same b.id id) c a (h.unique id)
            (λ f. rw (← (same_iff a.id id).0 f) new);
      sound = All-append IsSound c (a ∷ []) h.sound (s, tt);
    })

-- The row that a delivery finds is the only one of its identifier.
pub is_open-only :
    (vault_id id : String) (c : List PendingArtifact) (row : PendingArtifact)
    → IsConsistent c
    → fetch_one (is_open vault_id id) c ≡ some row
    → All (λ a. same a.id id ≡ true → a ≡ row) c
is_open-only vault_id id c row h e =
    fetch_one-only (is_open vault_id id) (λ b. same b.id id) (λ a f. ground arith) c row
      (h.unique id) e

expire-IsSound :
    (stamp : ℕ) (a : PendingArtifact) → IsSound a → is_unclaimed stamp a ≡ true → IsSound (expire a)
expire-IsSound stamp a (waiting s p t) u = over refl p t refl
expire-IsSound stamp a (delivered path at s p f t) u = absurd (ground arith)
expire-IsSound stamp a (over s p t f) u = over refl p t refl

retried-IsSound :
    (error : String) (a : PendingArtifact)
    → IsSound a
    → is_pending a.state ≡ true
    → IsSound (retried error a)
retried-IsSound error a (waiting s p t) u = waiting refl p t
retried-IsSound error a (delivered path at s p f t) u = absurd (ground arith)
retried-IsSound error a (over s p t f) u = absurd (ground arith)

-- A delivery that ends writes the one row that it found waiting.
Completed-IsSound :
    (p : Principal) (stamp : ℕ) (id : String) (body : ArtifactComplete)
    (c c' : List PendingArtifact)
    → IsConsistent c
    → Completed p stamp id body c c'
    → IsConsistent c'
Completed-IsSound p stamp id body c c' h (delivered row path g k l m e) = subst IsConsistent e (
    update-IsConsistent (is_artifact p.vault_id id) (mark_saved stamp path) c (λ a i. refl) h
      (All-update IsSound IsSound (is_artifact p.vault_id id) (mark_saved stamp path)
        (λ a s f. delivered path stamp refl refl (saved_path-IsSafe _ path k) refl) (λ a s f. s) c
        h.sound))
Completed-IsSound p stamp id body c c' h (failed row g e) =
    let only = is_open-only p.vault_id id c row h g in
    let found = (fetch_one-Place (is_open p.vault_id id) c row g).1 in
    let write = retried (delivery_error body.error) in
    subst IsConsistent e (
      update-IsConsistent (is_artifact p.vault_id id) write c (λ a i. refl) h
        (All-update (λ a. IsSound a × (same a.id id ≡ true → a ≡ row)) IsSound
          (is_artifact p.vault_id id) write
          (λ a s f.
            retried-IsSound (delivery_error body.error) a s.0
              (subst (λ b. is_pending b.state ≡ true) (sym (s.1 (ground arith))) (ground arith)))
          (λ a s f. s.0) c (All-both IsSound (λ a. same a.id id ≡ true → a ≡ row) c h.sound only)))

Inserts-IsConsistent :
    (c c' : List PendingArtifact) → Inserts c c' → IsConsistent c → IsConsistent c'
Inserts-IsConsistent c c' i h =
    insert-IsConsistent i.row c c' (waiting i.pending i.unsaved i.incomplete) h i.inserted

pub Step-IsConsistent : (c c' : List PendingArtifact) → Step c c' → IsConsistent c → IsConsistent c'
Step-IsConsistent c c' (notes id stamp hours provenance sha256 access title text e) h =
    let i = save_chat_note-Inserts id stamp hours provenance sha256 access title text c c' e in
    Inserts-IsConsistent c c' i h
Step-IsConsistent c c' (saves id stamp hours provenance access download note e) h =
    let i = save_chat_artifact-Inserts id stamp hours provenance access download note c c' e in
    Inserts-IsConsistent c c' i h
Step-IsConsistent c c' (completes p stamp id body files e) h =
    Completed-IsSound p stamp id body c c' h
      (artifact_complete-Completed p stamp id body c c' files e)
Step-IsConsistent c c' (expires stamp e) h = subst IsConsistent (sym e) (
    update-IsConsistent (is_unclaimed stamp) expire c (λ a i. refl) h
      (All-update IsSound IsSound (is_unclaimed stamp) expire (λ a s f. expire-IsSound stamp a s f)
        (λ a s f. s) c h.sound))

-- Through any history of notes, files, deliveries and cleanups, from a table that is so, identifiers
-- stay unique, and every artifact is waiting, or delivered to a path that is relative, has no part
-- ".." and is in normal form, or has expired and names no staged file; only a delivered one has a
-- path and a time of completion.
pub Reach-IsConsistent :
    (c c' : List PendingArtifact) → Reach c c' → IsConsistent c → IsConsistent c'
Reach-IsConsistent c _ start h = h
Reach-IsConsistent c e (next d r s) h = Step-IsConsistent d e s (Reach-IsConsistent c d r h)
