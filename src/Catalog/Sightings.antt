-- ===== src/Catalog/Sightings.antt =====
-- A file that `seen` of app/main.py reports, and the reconciliation of the same scan.
use personal_vault_rag.Prelude.{
  All, Bool, Bool-cases, List, [], ◌∷◌, Option-cases, Result-cases, String, arith, if◌then◌else◌,
  inl, inr, map, none, ok, refl, same, some, subst, sym, true, ℕ, ◌≡◌, ◌≤◌,
}
use personal_vault_rag.Db.{Document}
use personal_vault_rag.Table.{fetch_one, update}
use personal_vault_rag.Table.Each.{has, update-map, All-update}
use personal_vault_rag.Security.{Principal, require}
use personal_vault_rag.Catalog.{Catalog, is_document, complete_reconcile}
use personal_vault_rag.Catalog.Upload.{is_path_owner}
use personal_vault_rag.Catalog.Seen.{SeenRequest, seen_again, seen}
use personal_vault_rag.Catalog.Deletions.{
  IsKeyed, IsKeyed-map, reconciled, complete_reconcile-documents,
}

abbrev pub sighted : Principal → ℕ → SeenRequest → Catalog → Catalog
sighted p stamp body c = record c {
  documents = update (is_document p.vault_id body.document_id) (seen_again stamp body) c.documents;
}

pub seen-ok :
    (c c' : Catalog) (p : Principal) (stamp : ℕ) (body : SeenRequest) (wanted : Bool)
    → seen c p stamp body ≡ ok (c', wanted)
    → (d : Document) × ((fetch_one (is_document p.vault_id body.document_id) c.documents ≡ some d)
        × ((same d.source_id body.source_id ≡ true) × (sighted p stamp body c ≡ c')))
unfolding seen
seen-ok c c' p stamp body wanted h = elim (Result-cases (require p "ingest")) [
  | inr (x, e) ↦ absurd (ground arith)
  | inl (u, e) ↦
      elim (Option-cases (fetch_one (is_document p.vault_id body.document_id) c.documents)) [
        | inl f ↦ absurd (ground arith)
        | inr (d, f) ↦ elim (Bool-cases (same d.source_id body.source_id)) [
          | inr g ↦ absurd (ground arith)
          | inl g ↦
              elim (Bool-cases (
                has (is_path_owner p.vault_id d.source_id body.relative_path body.document_id)
                  c.documents)) [
                    | inl k ↦ absurd (ground arith)
                    | inr k ↦ (d, (f, (g, ground arith)))
                  ]
        ]
      ]
]

-- The document of the key is not deleted.
abbrev pub IsLive : (vault_id document_id : String) → Document → Type 0
IsLive vault_id document_id d = is_document vault_id document_id d ≡ true → d.deleted_at ≡ none

reconciled-IsLive :
    (vault_id document_id source_id : String) (stamp conf gen : ℕ) (d : Document)
    → 1 ≤ conf
    → (is_document vault_id document_id d ≡ true
        → (d.deleted_at ≡ none) × ((d.last_seen_generation ≡ gen) × (d.missing_confirmations ≡ 0)))
    → IsLive vault_id document_id (reconciled vault_id source_id stamp conf gen true d)
unfolding reconciled
reconciled-IsLive vault_id document_id source_id stamp conf gen d pos h = ground (arith, h)

All-mapped :
    {A : Type 0} (P Q : A → Type 0) (f : A → A) (xs : List A)
    → ((x : A) → P x → Q (f x))
    → All P xs
    → All Q (map f xs)
All-mapped P Q f [] g h = tt
All-mapped P Q f (x ∷ xs) g h = (g x h.0, All-mapped P Q f xs g h.1)

-- On tables with primary keys, and with one confirmation at least, a document that is not deleted
-- and that `seen` has reported in a scan is not deleted by the reconciliation of that scan, whatever
-- misses it had before.
pub complete_reconcile-seen :
    (c c' : Catalog) (p : Principal) (stamp later : ℕ) (body : SeenRequest) (wanted : Bool)
    (uuid : String → String) (confirmations : ℕ)
    → IsKeyed c.documents
    → All (IsLive p.vault_id body.document_id) c.documents
    → 1 ≤ confirmations
    → seen c p stamp body ≡ ok (c', wanted)
    → All
        (IsLive p.vault_id body.document_id)
        (complete_reconcile p.vault_id later uuid c' confirmations body.source_id
          body.scan_generation true).0.0.documents
complete_reconcile-seen c c' p stamp later body wanted uuid conf keyed live pos h =
    let (d, (found, (own, q))) = seen-ok c c' p stamp body wanted h in
    let key = is_document p.vault_id body.document_id in
    let again = seen_again stamp body in
    let each = reconciled p.vault_id body.source_id later conf body.scan_generation true in
    let keyed' : IsKeyed (update key again c.documents) =
      subst IsKeyed (sym (update-map key again c.documents)) (
        IsKeyed-map (λ x. if key x then again x else x) (λ x. (ground arith, ground arith))
          c.documents keyed) in
    let facts : Document → Type 0 = λ x.
      key x ≡ true
      → (x.deleted_at ≡ none)
        × ((x.last_seen_generation ≡ body.scan_generation) × (x.missing_confirmations ≡ 0)) in
    let now_seen : All facts (update key again c.documents) =
      All-update (IsLive p.vault_id body.document_id) facts key again
        (λ x l fits mine. (l fits, (refl, refl))) (λ x l fits mine. absurd (ground arith))
        c.documents live in
    let done : All (IsLive p.vault_id body.document_id) (map each (update key again c.documents)) =
      All-mapped facts (IsLive p.vault_id body.document_id) each (update key again c.documents)
        (λ x f.
          reconciled-IsLive p.vault_id body.document_id body.source_id later conf
            body.scan_generation x pos f)
        now_seen in
    subst
      (λ x.
        All (IsLive p.vault_id body.document_id)
          (complete_reconcile p.vault_id later uuid x conf body.source_id body.scan_generation
            true).0.0.documents)
      q
      (subst (All (IsLive p.vault_id body.document_id))
        (sym (
          complete_reconcile-documents p.vault_id later uuid (sighted p stamp body c) conf
            body.source_id body.scan_generation true keyed'))
        done)
