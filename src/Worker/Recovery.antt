-- ===== src/Worker/Recovery.antt =====
-- A version whose previews have expired and that comes back: `register_upload` of app/catalog.py and
-- then `process_render_visual` of app/worker.py.
use personal_vault_rag.Prelude.{
  Bool-cases, List, Option-cases, Result, String, ap, arith, if◌then◌else◌, false, inl, inr, none,
  ok, raise, refl, same, some, true, truthy, seconds, ℕ, ◌+◌, ◌*◌, ◌∙◌, ◌≡◌,
}
use personal_vault_rag.Db.{Document, Version}
use personal_vault_rag.Table.{fetch_one, update}
use personal_vault_rag.Table.Closed.{fetch_one-update}
use personal_vault_rag.Table.Rows.{fetch_one-Place}
use personal_vault_rag.Table.Each.{has}
use personal_vault_rag.Jobs.{create_job}
use personal_vault_rag.Catalog.{Catalog, is_document, is_version, is_source}
use personal_vault_rag.Catalog.Upload.{
  Upload, Registered, refreshed, path_taken, upsert_document, version_payload, recover_visual,
  register_version, register_upload,
}
use personal_vault_rag.Worker.{Extraction}
use personal_vault_rag.Worker.Evidence.{Target, Names}
use personal_vault_rag.Worker.Extract.{staged_row, current_row, process_render_visual}

current_row-other :
    (names : Names) (stamp : ℕ) (uuid : (kind id : String) → String) (t : Target) (c : Catalog)
    (d : Document) (other : String)
    → fetch_one (is_document t.vault_id t.document_id) c.documents ≡ some d
    → d.current_version_id ≡ some other
    → same other t.version_id ≡ false
    → current_row names stamp uuid t c ≡ none
unfolding current_row staged_row
current_row-other names stamp uuid t c d other found current differs =
    elim (Option-cases (fetch_one (is_version t.vault_id t.version_id) c.versions)) [
      | inl e ↦ ground arith
      | inr (v, e) ↦ elim (Bool-cases (same v.document_id t.document_id)) [
        | inl b ↦ ground arith
        | inr b ↦ ground arith
      ]
    ]

upsert_document-own :
    (stamp : ℕ) (u : Upload) (ds : List Document) (d : Document)
    → fetch_one (is_document u.vault_id u.document_id) ds ≡ some d
    → fetch_one (is_document u.vault_id u.document_id) (upsert_document stamp u ds)
      ≡ some (refreshed stamp u d)
unfolding upsert_document
upsert_document-own stamp u ds d own =
    let key = is_document u.vault_id u.document_id in
    let written : upsert_document stamp u ds ≡ update key (refreshed stamp u) ds = ground arith in
    let fits : key d ≡ true = (fetch_one-Place key ds d own).1 in
    ap (fetch_one key) written
    ∙ fetch_one-update key key (refreshed stamp u) (λ x. refl) ds d own
    ∙ ap (λ b. some (if b then refreshed stamp u d else d)) fits

process_render_visual-none :
    (names : Names) (stamp : ℕ) (uuid : (kind id : String) → String) (t : Target) (c : Catalog)
    (extract : (path name : String) → Result String Extraction) (unindex : Result String (Unit {0}))
    → current_row names stamp uuid t c ≡ none
    → process_render_visual names stamp uuid t c extract unindex
      ≡ (c, raise "Source content is required to regenerate expired visual previews")
unfolding process_render_visual
process_render_visual-none names stamp uuid t c extract unindex e = ground arith

-- Where the uploaded document has another current version, the source owns the
-- document, no other document has the path and the uploaded version is indexed and waits for new
-- previews, `register_upload` accepts the file and queues a rendering, but `process_render_visual`
-- on the catalog that it leaves raises and changes nothing, whatever the extraction and the vector
-- store answer.
pub render_visual-recovered :
    (names : Names) (stamp : ℕ) (uuid job_uuid : (kind id : String) → String) (c : Catalog)
    (staging_ttl_hours : ℕ) (u : Upload) (d : Document) (v : Version) (other : String)
    → fetch_one (is_document u.vault_id u.document_id) c.documents ≡ some d
    → same d.source_id u.source_id ≡ true
    → path_taken u c.documents ≡ false
    → has (is_source u.vault_id u.source_id) c.sources ≡ true
    → fetch_one (is_version u.vault_id u.version_id) c.versions ≡ some v
    → truthy v.indexed_at ≡ true
    → v.visual_recovery_needed ≡ true
    → d.current_version_id ≡ some other
    → same other u.version_id ≡ false
    → (after : Catalog) × ((id : String) × ((register_upload stamp job_uuid c staging_ttl_hours true
              true u
            ≡ ok (after, Registered.job id))
          × ((extract : (path name : String) → Result String Extraction)
              → (unindex : Result String (Unit {0}))
              → process_render_visual names stamp uuid
                  (record {
                    vault_id = u.vault_id;
                    document_id = u.document_id;
                    version_id = u.version_id;
                  })
                  after
                  extract
                  unindex
                ≡ (
                  after,
                  raise "Source content is required to regenerate expired visual previews",
                ))))
unfolding register_upload register_version recover_visual path_taken
render_visual-recovered names stamp uuid job_uuid c hours u d v other own from free known row
      indexed lost current differs =
    let t : Target = record {
      vault_id = u.vault_id;
      document_id = u.document_id;
      version_id = u.version_id;
    } in
    let done : Catalog × Registered =
      recover_visual stamp job_uuid (record c { documents = upsert_document stamp u c.documents })
        (stamp + seconds (hours * 3600)) u in
    let none_current : current_row names stamp uuid t done.0 ≡ none =
      current_row-other names stamp uuid t done.0 (refreshed stamp u d) other
        (upsert_document-own stamp u c.documents d own) current differs in
    let id : String =
      (create_job c.jobs stamp (job_uuid "render_visual" u.version_id) u.vault_id "render_visual"
        (version_payload u) 70).1 in
    (
      done.0,
      (
        id,
        (
          rw (known, own, from, free, row, indexed, lost) refl,
          λ extract unindex.
              process_render_visual-none names stamp uuid t done.0 extract unindex none_current,
        ),
      ),
    )
