-- ===== src/Worker/Integrity.antt =====
-- The foreign keys of app/db.py from what is derived to the versions, under the operations of
-- app/catalog.py and the jobs of app/worker.py that write.
pub mod Derived
pub mod Batches
pub mod Dispatch
use personal_vault_rag.Prelude.{
  Bool, Bool-cases, List, Option, Option-cases, String, [], inl, inr, none, ok, checks-ok, refl,
  seconds, some, subst, truthy, ℕ, ◌*◌, ◌++◌, ◌+◌, ◌∷◌, ◌≡◌,
}
use personal_vault_rag.Db.{Version}
use personal_vault_rag.Table.{select, fetch_one, update}
use personal_vault_rag.Table.Each.{All-deleted}
use personal_vault_rag.Catalog.{Catalog, is_version}
use personal_vault_rag.Catalog.Upload.{
  Upload, Registered, staged, new_version, upsert_document, recover_visual, keep_indexed,
  queue_extract, register_version, register_upload,
}
use personal_vault_rag.Catalog.Cleanup.{
  is_stale, is_old, unstaged, recover, is_visual_batch, recover_versions, expired_versions,
  cleanup_expired,
}
use personal_vault_rag.Catalog.References.{IsReferenced, IsReferenced-grow, has-append, has-update}

-- A change of a version that keeps its key.
abbrev pub IsKeyKept : (Version → Version) → Type 0
IsKeyKept f = (x : Version) → (v id : String) → is_version v id (f x) ≡ is_version v id x

-- Versions are changed and everything derived is kept.
pub update-IsReferenced :
    (q : Version → Bool) (f : Version → Version) (c : Catalog)
    → IsKeyKept f
    → IsReferenced c
    → IsReferenced (record c { versions = update q f c.versions })
update-IsReferenced q f c keeps h =
    IsReferenced-grow c (update q f c.versions) (λ v id e. has-update q f keeps c.versions v id e) h

module _ (stamp : ℕ) (uuid : (kind id : String) → String) (u : Upload) (expiry : ℕ) where
  queue_extract-IsReferenced :
      (c : Catalog) → IsReferenced c → IsReferenced (queue_extract stamp uuid c expiry u).0
  unfolding queue_extract
  queue_extract-IsReferenced c h =
      elim (Option-cases (fetch_one (is_version u.vault_id u.version_id) c.versions)) [
        | inl e ↦
            let g =
              IsReferenced-grow c (c.versions ++ new_version stamp u expiry ∷ [])
                (λ v id e. has-append c.versions (new_version stamp u expiry ∷ []) v id e) h in
            rw e (record { chunks = g.chunks; previews = g.previews; batches = g.batches })
        | inr (x, e) ↦
            let g =
              update-IsReferenced (is_version u.vault_id u.version_id) (staged u expiry) c
                (λ x v id. refl) h in
            rw e (record { chunks = g.chunks; previews = g.previews; batches = g.batches })
      ]

  register_version-IsReferenced :
      (c : Catalog) (row : Option Version)
      → IsReferenced c
      → IsReferenced (register_version stamp uuid c expiry u row).0
  unfolding register_version recover_visual keep_indexed
  register_version-IsReferenced c none h = queue_extract-IsReferenced c h
  register_version-IsReferenced c (some v) h = elim (Bool-cases (truthy v.indexed_at)) [
    | inr e ↦ rw e (queue_extract-IsReferenced c h)
    | inl e ↦ elim (Bool-cases v.visual_recovery_needed) [
      | inl f ↦
          let g =
            update-IsReferenced (is_version u.vault_id u.version_id) (staged u expiry) c
              (λ x v id. refl) h in
          rw (e, f) (record { chunks = g.chunks; previews = g.previews; batches = g.batches })
      | inr f ↦ rw (e, f) (record { chunks = h.chunks; previews = h.previews; batches = h.batches })
    ]
  ]

pub register_upload-IsReferenced :
    (stamp : ℕ) (uuid : (kind id : String) → String) (c : Catalog) (hours : ℕ)
    (supported valid_id : Bool) (u : Upload) (r : Catalog × Registered)
    → IsReferenced c
    → register_upload stamp uuid c hours supported valid_id u ≡ ok r
    → IsReferenced r.0
unfolding register_upload
register_upload-IsReferenced stamp uuid c hours supported valid_id u r h e =
    let q : register_version stamp uuid
          (record c { documents = upsert_document stamp u c.documents })
          (stamp + seconds (hours * 3600)) u
          (fetch_one (is_version u.vault_id u.version_id) c.versions)
        ≡ r =
      checks-ok _ _ r e in
    subst (λ x. IsReferenced x.0) q
      (register_version-IsReferenced stamp uuid u (stamp + seconds (hours * 3600))
        (record c { documents = upsert_document stamp u c.documents })
        (fetch_one (is_version u.vault_id u.version_id) c.versions)
        (record { chunks = h.chunks; previews = h.previews; batches = h.batches }))

module _ (stamp : ℕ) (uuid : String → String) where
  recover_versions-IsReferenced :
      (pairs : List (String × String)) (c : Catalog)
      → IsReferenced c
      → IsReferenced (recover_versions stamp uuid pairs c)
  unfolding recover_versions
  recover_versions-IsReferenced [] c h = h
  recover_versions-IsReferenced ((vault_id, version_id) ∷ pairs) c h =
      let g = update-IsReferenced (is_version vault_id version_id) recover c (λ x v id. refl) h in
      recover_versions-IsReferenced pairs _ (record {
        chunks = g.chunks;
        previews = g.previews;
        batches = All-deleted _ (is_visual_batch vault_id version_id) c.batches g.batches;
      })

  pub cleanup_expired-IsReferenced :
      (c : Catalog) (days : ℕ) → IsReferenced c → IsReferenced (cleanup_expired stamp uuid c days).0
  unfolding cleanup_expired
  cleanup_expired-IsReferenced c days h =
      let g = update-IsReferenced (is_stale stamp) unstaged c (λ x v id. refl) h in
      recover_versions-IsReferenced (expired_versions (select (is_old stamp days) c.previews)) _
        (record {
          chunks = g.chunks;
          previews = All-deleted _ (is_old stamp days) c.previews g.previews;
          batches = g.batches;
        })
