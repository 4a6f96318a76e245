-- ===== src/Worker/Inspections.antt =====
-- What `process_temporary_inspection` and `fail_job` of app/worker.py do to inspections.
use personal_vault_rag.Prelude.{
  All, Bool-cases, List, Option-cases, Result, Result-cases, String, [], arith, codes, cut, false,
  inl, inr, length, ok, raise, refl, same, some, subst, suc, true, zero, ℕ, ◌∷◌, ◌≡◌, ◌≤◌,
}
use personal_vault_rag.Db.{TemporaryInspection}
use personal_vault_rag.Table.{fetch_one, select, update, delete}
use personal_vault_rag.Table.Each.{has}
use personal_vault_rag.Worker.{Extraction}
use personal_vault_rag.Worker.Inspect.{
  Disk, unlink, is_inspection, is_queued_inspection, inspected_path, full_text, completed,
  process_temporary_inspection,
}

pub has-unlink :
    (path : String) (fs : List String) → has (λ f. same f path) (unlink path fs) ≡ false
unfolding fetch_one delete select
has-unlink path [] = refl
has-unlink path (f ∷ fs) = ground (arith, has-unlink path fs)

module _ (dumps : List String → String) (vault_id inspection_id : String) where
  -- A reader that raises on a file that does not exist.
  abbrev pub ReadsFiles : (List String → (path name : String) → Result String Extraction) → Type 0
  ReadsFiles extract =
      (fs : List String) (path name : String)
      → has (λ f. same f path) fs ≡ false
      → (e : String) × (extract fs path name ≡ raise e)

  -- If an inspection raises, whatever its reader was, the next attempt raises too with any reader that
  -- raises on a file that does not exist.
  pub process_temporary_inspection-raise :
      (extract retry : List String → (path name : String) → Result String Extraction)
      (stamp later : ℕ) (d : Disk) (e : String)
      → ReadsFiles retry
      → (process_temporary_inspection dumps stamp d vault_id inspection_id extract).1 ≡ raise e
      → (f : String) × ((process_temporary_inspection dumps later
            (process_temporary_inspection dumps stamp d vault_id inspection_id extract).0
            vault_id
            inspection_id
            retry).1
          ≡ raise f)
  unfolding process_temporary_inspection
  process_temporary_inspection-raise extract retry stamp later d e reads h =
      let row = fetch_one (is_queued_inspection vault_id inspection_id) d.catalog.inspections in
      elim (Option-cases row) [
        | inl p ↦ ("Temporary inspection expired or is unavailable", ground arith)
        | inr (i, p) ↦ elim (Option-cases (inspected_path i)) [
          | inl q ↦ ("Temporary inspection expired or is unavailable", ground arith)
          | inr (path, q) ↦ elim (Result-cases (extract d.staged_files path i.file_name)) [
            | inl (x, r) ↦ absurd (ground arith)
            | inr (f, r) ↦
                let (g, s) =
                  reads (unlink path d.staged_files) path i.file_name
                    (has-unlink path d.staged_files) in
                (g, ground arith)
          ]
        ]
      ]

length-cut : (n : ℕ) (s : String) → length (codes (cut n s)) ≤ n
unfolding cut
length-cut zero s = omega arith
length-cut (suc n) String.[] = omega arith
length-cut (suc n) (String.◌∷◌ c s) = omega (arith, length-cut n s)

module _ (dumps : List String → String) (stamp : ℕ) (vault_id inspection_id : String) where
  -- The text of this inspection has at most 16,000 characters.
  abbrev IsShort : TemporaryInspection → Type 0
  IsShort i =
      is_inspection vault_id inspection_id i ≡ true
      → (text : String) → i.extracted_text ≡ some text
      → length (codes text) ≤ 16000

  -- What an inspection that ended has done: `row` was queued with a file at `path`, `extracted` was
  -- read from it.
  record Inspected (extract : List String → (path name : String) → Result String Extraction)
      (d d' : Disk) : Type 0 where
    row : TemporaryInspection
    path : String
    extracted : Extraction
    found : fetch_one (is_queued_inspection vault_id inspection_id) d.catalog.inspections ≡ some row
    staged : inspected_path row ≡ some path
    answered : extract d.staged_files path row.file_name ≡ ok extracted
    catalog : d'.catalog ≡ record d.catalog {
      inspections =
          update
            (is_inspection vault_id inspection_id)
            (completed dumps stamp extracted)
            d.catalog.inspections;
    }
    removed : has (λ f. same f path) d'.staged_files ≡ false
    bounded : All IsShort d'.catalog.inspections

  short :
      (extracted : Extraction) (text : String)
      → some (cut 16000 (full_text extracted)) ≡ some text
      → length (codes text) ≤ 16000
  short extracted text f =
      let q : cut 16000 (full_text extracted) ≡ text = ground arith in
      subst (λ t. length (codes t) ≤ 16000) q (length-cut 16000 (full_text extracted))

  completed-bounded :
      (extracted : Extraction) (is : List TemporaryInspection)
      → All IsShort
          (update (is_inspection vault_id inspection_id) (completed dumps stamp extracted) is)
  unfolding update
  completed-bounded extracted [] = tt
  completed-bounded extracted (i ∷ is) =
      elim (Bool-cases (is_inspection vault_id inspection_id i)) [
        | inl e ↦ rw e (λ _ text f. short extracted text f, completed-bounded extracted is)
        | inr e ↦ rw e (λ f. absurd (ground arith), completed-bounded extracted is)
      ]

  -- An inspection that ends was queued and read its file, changes no row but its own, has stored at
  -- most 16,000 characters of the text, and its file is gone.
  process_temporary_inspection-Inspected :
      (extract : List String → (path name : String) → Result String Extraction) (d d' : Disk)
      → process_temporary_inspection dumps stamp d vault_id inspection_id extract ≡ (d', ok tt)
      → Inspected extract d d'
  unfolding process_temporary_inspection
  process_temporary_inspection-Inspected extract d d' h =
      elim (Option-cases
        (fetch_one (is_queued_inspection vault_id inspection_id) d.catalog.inspections)) [
          | inl p ↦ absurd (ground arith)
          | inr (i, p) ↦ elim (Option-cases (inspected_path i)) [
            | inl q ↦ absurd (ground arith)
            | inr (path, q) ↦ elim (Result-cases (extract d.staged_files path i.file_name)) [
              | inr (f, r) ↦ absurd (ground arith)
              | inl (x, r) ↦
                  let after : Disk = record {
                    catalog = record d.catalog {
                      inspections =
                          update (is_inspection vault_id inspection_id) (completed dumps stamp x)
                            d.catalog.inspections;
                    };
                    staged_files = unlink path d.staged_files;
                  } in
                  let s : after ≡ d' = ground arith in
                  subst (Inspected extract d) s (record {
                    row = i;
                    path = path;
                    extracted = x;
                    found = p;
                    staged = q;
                    answered = r;
                    catalog = refl;
                    removed = has-unlink path d.staged_files;
                    bounded = completed-bounded x d.catalog.inspections;
                  })
            ]
          ]
        ]
