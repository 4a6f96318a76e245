-- ===== src/Artifacts/Refines.antt =====
-- The promise of artifact delivery as a machine with four states, which the table refines.
use personal_vault_rag.Prelude.{
  Bool, Bool-cases, List, Option, Option-cases, String, [], and_parts, arith, if◌then◌else◌, inl,
  inr, none, ok, or_else, refl, same, some, subst, sym, true, ◌++◌, ◌∷◌, ◌≡◌, ◌⊎◌,
}
use personal_vault_rag.Db.{ArtifactState, PendingArtifact}
use personal_vault_rag.Table.{fetch_one, update}
use personal_vault_rag.Table.Rows.{fetch_one-Place}
use personal_vault_rag.Table.Closed.{fetch_one-append, fetch_one-update}
use personal_vault_rag.Table.Unique.{fetch_one-All}
use personal_vault_rag.Catalog.Cleanup.{is_unclaimed, is_waiting, expire}
use personal_vault_rag.Artifacts.{is_pending, is_open, is_artifact, insert_artifact}
use personal_vault_rag.Artifacts.Requests.{mark_saved, retried, delivery_error}
use personal_vault_rag.Artifacts.SafePaths.{IsSafe, saved_path-IsSafe}
use personal_vault_rag.Artifacts.Inserted.{
  insert_artifact-ok, save_chat_note-Inserts, save_chat_artifact-Inserts,
}
use personal_vault_rag.Artifacts.Lifecycle.{
  Step, notes, saves, completes, expires, Reach, start, next, delivered, failed,
  artifact_complete-Completed, IsConsistent, is_open-only, Reach-IsConsistent,
}

-- What is promised of one artifact.
pub data Status : Type 0 where
  absent waiting lapsed : Status
  arrived : (path : String) → Status

-- The steps of the machine: an artifact is taken in, arrives at a safe path or lapses, once.
pub data Moves : Status → Status → Type 0 where
  takes : Moves absent waiting
  arrives : (path : String) → IsSafe path → Moves waiting (arrived path)
  lapses : Moves waiting lapsed

pub data Runs (s : Status) : Status → Type 0 where
  stays : Runs s s
  moves : {u : Status} (t : Status) → Runs s t → Moves t u → Runs s u

-- What the columns of a row say.
abbrev pub status : ArtifactState → Option String → Status
status ArtifactState.pending path = waiting
status ArtifactState.failed path = waiting
status ArtifactState.saved path = arrived (or_else path "")
status ArtifactState.expired path = lapsed

abbrev pub status_of : Option PendingArtifact → Status
status_of none = absent
status_of (some a) = status a.state a.saved_relative_path

-- One move, or none.
abbrev Refined : Status → Status → Type 0
Refined s t = (s ≡ t) ⊎ Moves s t

status-waiting :
    (s : ArtifactState) (path : Option String) → is_waiting s ≡ true → status s path ≡ waiting
status-waiting ArtifactState.pending path h = refl
status-waiting ArtifactState.failed path h = refl
status-waiting ArtifactState.saved path h = absurd (ground arith)
status-waiting ArtifactState.expired path h = absurd (ground arith)

pending_waiting : (s : ArtifactState) → is_pending s ≡ true → is_waiting s ≡ true
pending_waiting ArtifactState.pending h = refl
pending_waiting ArtifactState.failed h = refl
pending_waiting ArtifactState.saved h = absurd (ground arith)
pending_waiting ArtifactState.expired h = absurd (ground arith)

fetch_one-append_none :
    (p : PendingArtifact → Bool) (c : List PendingArtifact) (b : PendingArtifact)
    → fetch_one p c ≡ none
    → fetch_one p (c ++ b ∷ []) ≡ (if p b then some b else none)
unfolding fetch_one
fetch_one-append_none p [] b h = refl
fetch_one-append_none p (a ∷ c) b h = ground (arith, fetch_one-append_none p c b)

fetch_one-update-none :
    (p q : PendingArtifact → Bool) (f : PendingArtifact → PendingArtifact)
    (c : List PendingArtifact)
    → ((b : PendingArtifact) → p (f b) ≡ p b)
    → fetch_one p c ≡ none
    → fetch_one p (update q f c) ≡ none
unfolding fetch_one update
fetch_one-update-none p q f [] keeps h = refl
fetch_one-update-none p q f (a ∷ c) keeps h = elim (Bool-cases (q a)) [
  | inl e ↦ rw (e, keeps) (ground (arith, fetch_one-update-none p q f c))
  | inr e ↦ rw e (ground (arith, fetch_one-update-none p q f c))
]

module _ (vault_id id : String) where
  abbrev pub status_in : List PendingArtifact → Status
  status_in c = status_of (fetch_one (is_artifact vault_id id) c)

  insert-Refined :
      (b : PendingArtifact) (c c' : List PendingArtifact)
      → b.state ≡ ArtifactState.pending
      → insert_artifact b c ≡ ok c'
      → Refined (status_in c) (status_in c')
  insert-Refined b c c' pending e =
      subst (λ d. Refined (status_in c) (status_in d)) (insert_artifact-ok b c c' e).1
        (elim (Option-cases (fetch_one (is_artifact vault_id id) c)) [
          | inr (a, f) ↦
              rw (f, fetch_one-append (is_artifact vault_id id) c (b ∷ []) a f) (inl refl)
          | inl f ↦ elim (Bool-cases (is_artifact vault_id id b)) [
            | inl g ↦
                rw (f, fetch_one-append_none (is_artifact vault_id id) c b f, g, pending)
                  (inr takes)
            | inr g ↦ rw (f, fetch_one-append_none (is_artifact vault_id id) c b f, g) (inl refl)
          ]
        ])

  -- An UPDATE that leaves the keys, and whose effect on the artifact is refined.
  update-Refined :
      (q : PendingArtifact → Bool) (f : PendingArtifact → PendingArtifact)
      (c : List PendingArtifact)
      → ((b : PendingArtifact) → is_artifact vault_id id (f b) ≡ is_artifact vault_id id b)
      → ((a : PendingArtifact)
          → fetch_one (is_artifact vault_id id) c ≡ some a
          → q a ≡ true
          → Refined (status_of (some a)) (status_of (some (f a))))
      → Refined (status_in c) (status_in (update q f c))
  update-Refined q f c keeps effect = elim (Option-cases (fetch_one (is_artifact vault_id id) c)) [
    | inl e ↦ rw (e, fetch_one-update-none (is_artifact vault_id id) q f c keeps e) (inl refl)
    | inr (a, e) ↦ elim (Bool-cases (q a)) [
      | inl g ↦ rw (e, fetch_one-update (is_artifact vault_id id) q f keeps c a e, g) (effect a e g)
      | inr g ↦ rw (e, fetch_one-update (is_artifact vault_id id) q f keeps c a e, g) (inl refl)
    ]
  ]

  -- The row that a delivery writes is waiting.
  open-waiting :
      (v i : String) (c : List PendingArtifact) (row a : PendingArtifact)
      → IsConsistent c
      → fetch_one (is_open v i) c ≡ some row
      → fetch_one (is_artifact vault_id id) c ≡ some a
      → is_artifact v i a ≡ true
      → status_of (some a) ≡ waiting
  open-waiting v i c row a h e f g =
      let one = (and_parts (same a.vault_id v) (same a.id i) g).1 in
      let q =
        fetch_one-All (λ b. same b.id i ≡ true → b ≡ row) _ c a (is_open-only v i c row h e) f
          one in
      let pending =
        (and_parts _ (is_pending row.state) (fetch_one-Place (is_open v i) c row e).1).1 in
      subst (λ b. status_of (some b) ≡ waiting) (sym q)
        (status-waiting row.state row.saved_relative_path (pending_waiting row.state pending))

  Step-Refined :
      (c c' : List PendingArtifact)
      → Step c c'
      → IsConsistent c
      → Refined (status_in c) (status_in c')
  Step-Refined c c' (notes i stamp hours provenance sha256 access title text e) h =
      let r = save_chat_note-Inserts i stamp hours provenance sha256 access title text c c' e in
      insert-Refined r.row c c' r.pending r.inserted
  Step-Refined c c' (saves i stamp hours provenance access download n e) h =
      let r = save_chat_artifact-Inserts i stamp hours provenance access download n c c' e in
      insert-Refined r.row c c' r.pending r.inserted
  Step-Refined c c' (completes p stamp i body files e) h =
      elim (artifact_complete-Completed p stamp i body c c' files e) [
        | delivered row path g l m n q ↦
            subst (λ d. Refined (status_in c) (status_in d)) q
              (update-Refined (is_artifact p.vault_id i) (mark_saved stamp path) c (λ b. refl)
                (λ a f k.
                  rw (open-waiting p.vault_id i c row a h g f k)
                    (inr (arrives path (saved_path-IsSafe _ path l)))))
        | failed row g q ↦
            subst (λ d. Refined (status_in c) (status_in d)) q
              (update-Refined (is_artifact p.vault_id i) (retried (delivery_error body.error)) c
                (λ b. refl) (λ a f k. inl (open-waiting p.vault_id i c row a h g f k)))
      ]
  Step-Refined c c' (expires stamp e) h =
      subst (λ d. Refined (status_in c) (status_in d)) (sym e)
        (update-Refined (is_unclaimed stamp) expire c (λ b. refl)
          (λ a f k.
            rw (status-waiting a.state a.saved_relative_path (and_parts (is_waiting a.state) _ k).0)
              (inr lapses)))

  Refined-Runs : (s t u : Status) → Runs s t → Refined t u → Runs s u
  Refined-Runs s t u r (inl e) = subst (Runs s) e r
  Refined-Runs s t u r (inr m) = moves t r m

  -- From a table with unique identifiers and sound rows, whatever notes, files, deliveries and cleanups
  -- do to the table, each artifact goes through the machine: it is taken in, and then arrives once at a
  -- safe path or lapses once, and nothing else happens to it.
  pub Reach-Runs :
      (c c' : List PendingArtifact)
      → Reach c c'
      → IsConsistent c
      → Runs (status_in c) (status_in c')
  Reach-Runs c _ start h = stays
  Reach-Runs c e (next d r s) h =
      Refined-Runs _ _ _ (Reach-Runs c d r h) (Step-Refined d e s (Reach-IsConsistent c d r h))
