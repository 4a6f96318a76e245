-- ===== src/Ingest/Uploaded.antt =====
-- What an upload of app/main.py leaves, accepted or refused.
use personal_vault_rag.Prelude.{
  Bool, Bool-cases, List, Option-cases, Result, Result-cases, String, [], ap, arith, false, inl,
  inr, length, ltb, not, ok, raise, refl, same, subst, sym, true, ℕ, ◌++◌, ◌==◌, ◌∙◌, ◌∷◌, ◌≡◌, ◌≤◌,
  ◌||◌, ◌⊎◌, ◌+◌,
}
use personal_vault_rag.Db.{Vault}
use personal_vault_rag.Table.{fetch_one, select, delete, update}
use personal_vault_rag.Table.Each.{has}
use personal_vault_rag.Security.{Principal, require}
use personal_vault_rag.Catalog.{Catalog, Capacity, accounted_bytes, is_vault, check_capacity}
use personal_vault_rag.Catalog.Upload.{Upload, UploadError, Registered, register_upload}
use personal_vault_rag.Ingest.{
  Bytes, StagedFile, has_path, Intake, IngestError, receive, capacity_error, unlink, addressed,
  Settings, accept, finish, admit, upload, ingest,
}
use personal_vault_rag.Ingest.Streams.{stream, receive-ok}

-- Nothing of the catalog but the vaults has changed.
abbrev pub OnlyVaults : Catalog → Catalog → Type 0
OnlyVaults c d = d ≡ record c { vaults = d.vaults }

capacity_error-ok : (a : Capacity) (u : Unit {0}) → capacity_error a ≡ ok u → a ≡ Capacity.accepted
capacity_error-ok Capacity.accepted u h = refl
capacity_error-ok Capacity.paused u h = absurd (ground arith)
capacity_error-ok Capacity.over_quota u h = absurd (ground arith)
capacity_error-ok Capacity.no_space u h = absurd (ground arith)

delete-unknown :
    (q : StagedFile → Bool) (files : List StagedFile) → has q files ≡ false → delete q files ≡ files
unfolding fetch_one delete select
delete-unknown q [] h = refl
delete-unknown q (f ∷ files) h = ground (arith, delete-unknown q files)

module _ (settings : Settings) (stamp : ℕ) (uuid : (kind id : String) → String)
    (sha256 : Bytes → String) (target : String) (supported valid_id : Bool) (p : Principal)
    (form : Upload) (blocks : List Bytes) where
  abbrev register : Catalog → Result UploadError (Catalog × Registered)
  register c =
      register_upload stamp uuid c settings.staging_ttl_hours supported valid_id
        (addressed p target form)

  -- The files after an upload: one for a job, none for a document that has not changed.
  abbrev pub left_files : List StagedFile → Registered → List StagedFile
  left_files files Registered.unchanged = unlink target (files ++ (target, stream blocks) ∷ [])
  left_files files (Registered.job id) = files ++ (target, stream blocks) ∷ []

  -- What an upload that is accepted has stored.
  pub record Stored (s t : Intake) (r : Registered) : Type 0 where
    pub known : same (sha256 (stream blocks)) form.content_sha256 ≡ true
    pub declared : length (stream blocks) ≡ form.size_bytes
    pub bounded : form.size_bytes ≤ settings.max_upload_bytes
    pub fresh : has (has_path target) s.files ≡ false
    pub registered : register s.catalog ≡ ok (t.catalog, r)
    pub files : t.files ≡ left_files s.files r

  check_capacity-accepted :
      (c : Catalog) (free : ℕ) (vault_id : String) (incoming : ℕ)
      → (check_capacity c free vault_id incoming).1 ≡ Capacity.accepted
      → (check_capacity c free vault_id incoming).0 ≡ c.vaults
  unfolding check_capacity
  check_capacity-accepted c free vault_id incoming h =
      elim (Option-cases (fetch_one (is_vault vault_id) c.vaults)) [
        | inl e ↦ absurd (ground arith)
        | inr (v, e) ↦ ground arith
      ]

  -- An upload that passed the first tests left the state.
  admit-ok :
      (s t : Intake) (u : Unit {0})
      → admit settings stamp uuid sha256 target supported valid_id s p form ≡ (t, ok u)
      → (s ≡ t) × (form.size_bytes ≤ settings.max_upload_bytes)
  unfolding admit
  admit-ok s t u h = elim (Result-cases (require p "ingest")) [
    | inr (e, f) ↦ absurd (ground arith)
    | inl (v, f) ↦ elim (Bool-cases (not supported)) [
      | inl g ↦ absurd (ground arith)
      | inr g ↦ elim (Bool-cases (ltb settings.max_upload_bytes form.size_bytes)) [
        | inl k ↦ absurd (ground arith)
        | inr k ↦
            let r = check_capacity s.catalog settings.free_bytes p.vault_id form.size_bytes in
            let a : capacity_error r.1 ≡ ok u = ground arith in
            let same_vaults =
              check_capacity-accepted s.catalog settings.free_bytes p.vault_id form.size_bytes
                (capacity_error-ok r.1 u a) in
            let q : record s { catalog = record s.catalog { vaults = r.0 } } ≡ t = ground arith in
            (rw same_vaults at q, ground arith)
      ]
    ]
  ]

  accept-ok :
      (s t : Intake) (r : Registered)
      → accept settings stamp uuid sha256 target supported valid_id s p form blocks ≡ ok (t, r)
      → (has (has_path target) s.files ≡ false)
        × (same (sha256 (stream blocks)) form.content_sha256 ≡ true)
        × (length (stream blocks) ≡ form.size_bytes)
        × (register s.catalog ≡ ok (t.catalog, r))
        × (t.files ≡ s.files ++ (target, stream blocks) ∷ [])
  unfolding accept
  accept-ok s t r h = elim (Bool-cases (has (has_path target) s.files)) [
    | inl e ↦ absurd (ground arith)
    | inr e ↦ elim (Result-cases (receive settings.max_upload_bytes form.size_bytes 0 [] blocks)) [
      | inr (x, f) ↦ absurd (ground arith)
      | inl ((received, written), f) ↦
          let (w, n) =
            receive-ok settings.max_upload_bytes form.size_bytes 0 [] blocks received written f in
          elim (Bool-cases (
            not (received == form.size_bytes) || not (same (sha256 written) form.content_sha256))) [
              | inl g ↦ absurd (ground arith)
              | inr g ↦ elim (Result-cases (register s.catalog)) [
                | inr (x, k) ↦ absurd (ground arith)
                | inl ((c, a), k) ↦
                    let known : same (sha256 written) form.content_sha256 ≡ true = ground arith in
                    let size : received ≡ form.size_bytes = ground arith in
                    let placed : t.files ≡ s.files ++ (target, written) ∷ [] = ground arith in
                    (e, rw w at known, omega arith, ground arith, rw w at placed)
              ]
            ]
    ]
  ]

  finish-Stored :
      (s t : Intake) (r : Registered) (x : Result IngestError (Intake × Registered))
      → form.size_bytes ≤ settings.max_upload_bytes
      → accept settings stamp uuid sha256 target supported valid_id s p form blocks ≡ x
      → finish settings stamp uuid sha256 target supported valid_id s x ≡ (t, ok r)
      → Stored s t r
  finish-Stored s t r (raise e) b a h = absurd (ground arith)
  finish-Stored s t r (ok (u, Registered.unchanged)) b a h =
      let (fresh, known, declared, registered, files) = accept-ok s u Registered.unchanged a in
      let after : Intake = record u { files = unlink target u.files } in
      let q : after ≡ t = ground arith in
      let k : Registered.unchanged ≡ r = ground arith in
      subst (λ z. Stored s z r) q
        (subst (Stored s after) k (record {
          known = known;
          declared = declared;
          bounded = b;
          fresh = fresh;
          registered = registered;
          files = ap (unlink target) files;
        }))
  finish-Stored s t r (ok (u, Registered.job id)) b a h =
      let (fresh, known, declared, registered, files) = accept-ok s u (Registered.job id) a in
      let q : u ≡ t = ground arith in
      let k : Registered.job id ≡ r = ground arith in
      subst (λ z. Stored s z r) q
        (subst (Stored s u) k (record {
          known = known;
          declared = declared;
          bounded = b;
          fresh = fresh;
          registered = registered;
          files = files;
        }))

  upload-Stored :
      (s t : Intake) (r : Registered) (a : Intake × Result IngestError (Unit {0}))
      → admit settings stamp uuid sha256 target supported valid_id s p form ≡ a
      → upload settings stamp uuid sha256 target supported valid_id p form blocks a ≡ (t, ok r)
      → Stored s t r
  upload-Stored s t r (u, raise e) a h = absurd (ground arith)
  upload-Stored s t r (u, ok v) a h =
      let (q, b) = admit-ok s u v a in finish-Stored s t r _ b refl (rw (← q) at h)

  -- What an upload that is accepted has stored: the bytes of the stream, whole, of the declared size
  -- and digest and within the limit, in a new file; the catalog is what `register_upload` makes of
  -- it; and the file is kept for a job, and removed where nothing has changed.
  pub ingest-Stored :
      (s t : Intake) (r : Registered)
      → ingest settings stamp uuid sha256 target supported valid_id s p form blocks ≡ (t, ok r)
      → Stored s t r
  unfolding ingest
  ingest-Stored s t r h = upload-Stored s t r _ refl h

  -- What an upload that is refused has changed.
  finish-raise :
      (s t : Intake) (e : IngestError) (x : Result IngestError (Intake × Registered))
      → has (has_path target) s.files ≡ false
      → finish settings stamp uuid sha256 target supported valid_id s x ≡ (t, raise e)
      → t ≡ s
  finish-raise s t e (ok (u, Registered.unchanged)) f h = absurd (ground arith)
  finish-raise s t e (ok (u, Registered.job id)) f h = absurd (ground arith)
  finish-raise s t e (raise x) f h =
      let q : record s { files = unlink target s.files } ≡ t = ground arith in
      sym q ∙ rw (delete-unknown (has_path target) s.files f) refl

  -- The vaults are as they were, or the caller's is paused.
  abbrev pub IsPaused : List Vault → List Vault → Type 0
  IsPaused vaults after =
      (after ≡ vaults)
      ⊎ (after ≡ update (is_vault p.vault_id) (λ v. record v { paused = true }) vaults)

  abbrev pub IsUntouched : Intake → Intake → Type 0
  IsUntouched s t =
      (t.files ≡ s.files)
      × OnlyVaults s.catalog t.catalog
      × IsPaused s.catalog.vaults t.catalog.vaults

  check_capacity-IsPaused :
      (c : Catalog) (free incoming : ℕ)
      → IsPaused c.vaults (check_capacity c free p.vault_id incoming).0
  unfolding check_capacity
  check_capacity-IsPaused c free incoming =
      elim (Option-cases (fetch_one (is_vault p.vault_id) c.vaults)) [
        | inl e ↦ rw (e, check_capacity) (inl refl)
        | inr (v, e) ↦ elim (Bool-cases v.paused) [
          | inl f ↦ rw (e, f, check_capacity) (inl refl)
          | inr f ↦
              elim (Bool-cases (ltb v.quota_bytes (accounted_bytes p.vault_id c + incoming))) [
                | inl g ↦ rw (e, f, g, check_capacity) (inl refl)
                | inr g ↦ elim (Bool-cases (ltb free (v.min_free_bytes + incoming))) [
                  | inl h ↦ rw (e, f, g, h, check_capacity) (inr refl)
                  | inr h ↦ rw (e, f, g, h, check_capacity) (inl refl)
                ]
              ]
        ]
      ]

  admit-IsUntouched :
      (s : Intake)
      → IsUntouched s (admit settings stamp uuid sha256 target supported valid_id s p form).0
  unfolding admit
  admit-IsUntouched s = elim (Result-cases (require p "ingest")) [
    | inr (e, f) ↦ rw (f, admit) (refl, refl, inl refl)
    | inl (v, f) ↦ elim (Bool-cases (not supported)) [
      | inl g ↦ rw (f, g, admit) (refl, refl, inl refl)
      | inr g ↦ elim (Bool-cases (ltb settings.max_upload_bytes form.size_bytes)) [
        | inl k ↦ rw (f, g, k, admit) (refl, refl, inl refl)
        | inr k ↦
            rw (f, g, k, admit)
              (refl, refl, check_capacity-IsPaused s.catalog settings.free_bytes form.size_bytes)
      ]
    ]
  ]

  upload-raise :
      (s t : Intake) (e : IngestError) (a : Intake × Result IngestError (Unit {0}))
      → has (has_path target) s.files ≡ false
      → admit settings stamp uuid sha256 target supported valid_id s p form ≡ a
      → upload settings stamp uuid sha256 target supported valid_id p form blocks a ≡ (t, raise e)
      → IsUntouched s t
  upload-raise s t e (u, raise x) f a h =
      let q : u ≡ t = ground arith in
      subst (IsUntouched s) (ap (λ z. z.0) a ∙ q) (admit-IsUntouched s)
  upload-raise s t e (u, ok v) f a h =
      let (q, b) = admit-ok s u v a in
      let k =
        finish-raise s t e
          (accept settings stamp uuid sha256 target supported valid_id s p form blocks) f
          (rw (← q) at h) in
      subst (IsUntouched s) (sym k) (refl, refl, inl refl)

  -- If its name is new, an upload that is refused leaves the files as they were and changes nothing of
  -- the catalog, but that it may pause the caller's vault.
  pub ingest-raise :
      (s t : Intake) (e : IngestError)
      → has (has_path target) s.files ≡ false
      → ingest settings stamp uuid sha256 target supported valid_id s p form blocks ≡ (t, raise e)
      → IsUntouched s t
  unfolding ingest
  ingest-raise s t e f h = upload-raise s t e _ f refl h
