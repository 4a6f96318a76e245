-- ===== src/Worker/Histories.antt =====
-- The catalog over histories of uploads, reconciliations, cleanups and the jobs of app/worker.py.
use personal_vault_rag.Prelude.{Bool, Result, String, ok, subst, sym, ℕ, ◌≡◌}
use personal_vault_rag.Db.{Chunk, Preview}
use personal_vault_rag.Catalog.{Catalog, complete_reconcile}
use personal_vault_rag.Catalog.Upload.{Upload, Registered, register_upload}
use personal_vault_rag.Catalog.Cleanup.{cleanup_expired}
use personal_vault_rag.Security.{Principal}
use personal_vault_rag.Catalog.Seen.{SeenRequest, seen}
use personal_vault_rag.Catalog.Sightings.{seen-ok}
use personal_vault_rag.Catalog.References.{IsReferenced, complete_reconcile-IsReferenced}
use personal_vault_rag.Worker.{Extraction}
use personal_vault_rag.Worker.Evidence.{Target, Names}
use personal_vault_rag.Worker.Extract.{process_extract, process_render_visual}
use personal_vault_rag.Worker.Embed.{Embedder, process_embed_text, process_embed_visual}
use personal_vault_rag.Worker.Integrity.{register_upload-IsReferenced, cleanup_expired-IsReferenced}
use personal_vault_rag.Worker.Integrity.Derived.{
  process_extract-IsReferenced, process_render_visual-IsReferenced,
}
use personal_vault_rag.Worker.Integrity.Batches.{
  process_embed_text-IsReferenced, process_embed_visual-IsReferenced,
}
use personal_vault_rag.Worker.Inspect.{Disk}
use personal_vault_rag.Worker.Dispatch.{Services, round}
use personal_vault_rag.Worker.Integrity.Dispatch.{round-IsReferenced}

-- One operation on the catalog: a request of a connector, a cleanup, or a job, which may raise.
pub data Step (c c' : Catalog) : Type 0 where
  uploads :
      (stamp : ℕ) (uuid : (kind id : String) → String) (hours : ℕ) (supported valid_id : Bool)
      (u : Upload) (r : Registered)
      → register_upload stamp uuid c hours supported valid_id u ≡ ok (c', r)
      → Step c c'
  sees :
      (p : Principal) (stamp : ℕ) (body : SeenRequest) (wanted : Bool)
      → seen c p stamp body ≡ ok (c', wanted)
      → Step c c'
  reconciles :
      (vault_id : String) (stamp : ℕ) (uuid : String → String) (confirmations : ℕ)
      (source_id : String) (generation : ℕ) (complete : Bool)
      → c'
        ≡ (complete_reconcile vault_id stamp uuid c confirmations source_id generation complete).0.0
      → Step c c'
  cleans :
      (stamp : ℕ) (uuid : String → String) (days : ℕ)
      → c' ≡ (cleanup_expired stamp uuid c days).0
      → Step c c'
  extracts :
      (names : Names) (stamp : ℕ) (uuid : (kind id : String) → String) (t : Target)
      (extract : (path name : String) → Result String Extraction)
      → c' ≡ (process_extract names stamp uuid t c extract).0
      → Step c c'
  renders :
      (names : Names) (stamp : ℕ) (uuid : (kind id : String) → String) (t : Target)
      (extract : (path name : String) → Result String Extraction)
      (unindex : Result String (Unit {0}))
      → c' ≡ (process_render_visual names stamp uuid t c extract unindex).0
      → Step c c'
  embeds_text :
      (stamp : ℕ) (vault_id version_id model : String) (embedder : Embedder Chunk)
      → c' ≡ (process_embed_text stamp vault_id version_id model c embedder).0.0
      → Step c c'
  embeds_visual :
      (stamp : ℕ) (vault_id version_id model : String) (is_file : String → Bool)
      (unindex : Result String (Unit {0})) (embedder : Embedder (Preview × Chunk))
      → c' ≡ (process_embed_visual stamp vault_id version_id model c is_file unindex embedder).0.0
      → Step c c'
  rounds :
      (services : Services) (worker : String) (claimed_at run_at ended_at last_cleanup : ℕ)
      (d : Disk)
      → c ≡ d.catalog
      → c' ≡ (round services worker claimed_at run_at ended_at (d, last_cleanup)).0.0.catalog
      → Step c c'

-- The catalogs that such operations reach.
pub data Reach (c : Catalog) : Catalog → Type 0 where
  start : Reach c c
  next : {e : Catalog} (d : Catalog) → Reach c d → Step d e → Reach c e

seen-IsReferenced :
    (c c' : Catalog) (p : Principal) (stamp : ℕ) (body : SeenRequest) (wanted : Bool)
    → IsReferenced c
    → seen c p stamp body ≡ ok (c', wanted)
    → IsReferenced c'
seen-IsReferenced c c' p stamp body wanted h e =
    let (d, (found, (own, q))) = seen-ok c c' p stamp body wanted e in
    subst IsReferenced q (record { chunks = h.chunks; previews = h.previews; batches = h.batches })

Step-IsReferenced : (c c' : Catalog) → Step c c' → IsReferenced c → IsReferenced c'
Step-IsReferenced c c' (uploads stamp uuid hours supported valid_id u r e) h =
    register_upload-IsReferenced stamp uuid c hours supported valid_id u (c', r) h e
Step-IsReferenced c c' (sees p stamp body wanted e) h =
    seen-IsReferenced c c' p stamp body wanted h e
Step-IsReferenced c c' (reconciles vault_id stamp uuid conf source_id generation complete e) h =
    subst IsReferenced (sym e)
      (complete_reconcile-IsReferenced vault_id stamp uuid c conf source_id generation complete h)
Step-IsReferenced c c' (cleans stamp uuid days e) h =
    subst IsReferenced (sym e) (cleanup_expired-IsReferenced stamp uuid c days h)
Step-IsReferenced c c' (extracts names stamp uuid t extract e) h =
    subst IsReferenced (sym e) (process_extract-IsReferenced names stamp t uuid c extract h)
Step-IsReferenced c c' (renders names stamp uuid t extract unindex e) h =
    subst IsReferenced (sym e)
      (process_render_visual-IsReferenced names stamp t uuid c extract unindex h)
Step-IsReferenced c c' (embeds_text stamp vault_id version_id model embedder e) h =
    subst IsReferenced (sym e)
      (process_embed_text-IsReferenced stamp vault_id version_id model c embedder h)
Step-IsReferenced c c' (embeds_visual stamp vault_id version_id model is_file unindex embedder e)
      h =
    subst IsReferenced (sym e) (
      process_embed_visual-IsReferenced stamp vault_id version_id model c is_file unindex embedder
        h)
Step-IsReferenced c c' (rounds services worker claimed_at run_at ended_at last_cleanup d p e) h =
    subst IsReferenced (sym e) (
      round-IsReferenced services worker claimed_at run_at ended_at d last_cleanup
        (subst IsReferenced p h))

-- Whatever uploads, scans, cleanups and jobs run one after another, also where jobs raise half way:
-- if every chunk, preview and embedding batch has its version at the start, every one has it at the
-- end.
pub Reach-IsReferenced : (c c' : Catalog) → Reach c c' → IsReferenced c → IsReferenced c'
Reach-IsReferenced c _ start h = h
Reach-IsReferenced c e (next d r s) h = Step-IsReferenced d e s (Reach-IsReferenced c d r h)
