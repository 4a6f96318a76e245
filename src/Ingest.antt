-- ===== src/Ingest.antt =====
-- The upload of a file by a connector: the request `ingest` of app/main.py with the stream of its
-- bytes, over the catalog and the staged files with their contents. SHA-256, the tests of the
-- suffix and of the document's identifier, and the name of the staged file are arguments.
pub mod Streams
pub mod Uploaded
pub mod Orphans
use personal_vault_rag.Prelude.{
  Bool, List, Option, Result, String, [], if◌then◌else◌, length, ltb, map, none, not, ok, raise,
  raise_if, same, some, ℕ, ◌+◌, ◌++◌, ◌==◌, ◌>>◌, ◌||◌, ◌∷◌,
}
use personal_vault_rag.Table.{delete}
use personal_vault_rag.Table.Each.{has}
use personal_vault_rag.Security.{Principal, HttpException, require}
use personal_vault_rag.Catalog.{Catalog, Capacity, check_capacity}
use personal_vault_rag.Catalog.Upload.{Upload, Registered, UploadError, register_upload}

abbrev pub Bytes : Type 0
Bytes = List ℕ

-- A staged file: its path and its bytes.
abbrev pub StagedFile : Type 0
StagedFile = String × Bytes

abbrev pub has_path : String → StagedFile → Bool
has_path path f = same f.0 path

-- What the request raises: an HTTP error, an error of `register_upload`, or the exception of
-- `open("xb")` for a file that exists.
pub data IngestError : Type 0 where
  refused : HttpException → IngestError
  unregistered : UploadError → IngestError
  file_exists : IngestError

pub record Intake : Type 0 where
  pub catalog : Catalog
  pub files : List StagedFile

abbrev pub too_large : HttpException
too_large = HttpException.http 413 "Upload exceeded declared or configured size"

-- The loop over the blocks, to the first that is empty: what was received and written.
unfoldable pub receive :
    (max_upload_bytes size_bytes received : ℕ) (written : Bytes)
    → List Bytes
    → Result HttpException (ℕ × Bytes)
receive limit size received written [] = ok (received, written)
receive limit size received written ([] ∷ blocks) = ok (received, written)
receive limit size received written ((b ∷ bs) ∷ blocks) =
    let total = received + length (b ∷ bs) in
    let rest = receive limit size total (written ++ (b ∷ bs)) blocks in
    if ltb limit total || ltb (size + 1) total then raise too_large else rest

abbrev pub capacity_error : Capacity → Result IngestError (Unit {0})
capacity_error Capacity.accepted = ok tt
capacity_error Capacity.paused =
    raise (refused (HttpException.http 423 "Indexing is paused for this vault"))
capacity_error Capacity.over_quota =
    raise (refused (HttpException.http 507 "Vault derived-data quota would be exceeded"))
capacity_error Capacity.no_space = raise (
    refused
      (HttpException.http 507 "Indexing paused to preserve the configured free-space reserve"))

abbrev pub unsupported : HttpException
unsupported = HttpException.http 415 "Unsupported file type"

abbrev pub over_limit : HttpException
over_limit = HttpException.http 413 "File exceeds configured upload limit"

abbrev pub mismatch : HttpException
mismatch = HttpException.http 422 "Uploaded bytes do not match declared size/fingerprint"

-- `target.unlink(missing_ok=True)`
abbrev pub unlink : String → List StagedFile → List StagedFile
unlink target = delete (has_path target)

-- The form with the vault of the caller and the path of the staged file.
abbrev pub addressed : Principal → (target : String) → Upload → Upload
addressed p target form = record form { vault_id = p.vault_id; staging_path = target }

-- The settings and what the server draws for one request.
pub record Settings : Type 0 where
  pub max_upload_bytes : ℕ
  pub staging_ttl_hours : ℕ
  pub free_bytes : ℕ

module _ (settings : Settings) (stamp : ℕ) (uuid : (kind id : String) → String)
    (sha256 : Bytes → String) (target : String) (supported valid_id : Bool) where
  -- The body of the `try`: the new state where it ends, or the exception.
  unfoldable pub accept :
      Intake → Principal → (form : Upload) → List Bytes → Result IngestError (Intake × Registered)
  accept s p form blocks =
      raise_if (has (has_path target) s.files) file_exists
      >> elim (receive settings.max_upload_bytes form.size_bytes 0 [] blocks) [
        | raise e ↦ raise (refused e)
        | ok (received, written) ↦
            raise_if
              (not (received == form.size_bytes) || not (same (sha256 written) form.content_sha256))
              (refused mismatch)
            >> elim (register_upload stamp uuid s.catalog settings.staging_ttl_hours supported
                valid_id (addressed p target form)) [
                  | raise e ↦ raise (unregistered e)
                  | ok (c, r) ↦
                      ok (record { catalog = c; files = s.files ++ (target, written) ∷ [] }, r)
                ]
      ]

  -- The end of the `try`: an unchanged document needs no file, and an exception leaves none.
  abbrev pub finish :
      Intake → Result IngestError (Intake × Registered) → Intake × Result IngestError Registered
  finish s (ok (t, Registered.unchanged)) =
      (record t { files = unlink target t.files }, ok Registered.unchanged)
  finish s (ok (t, Registered.job id)) = (t, ok (Registered.job id))
  finish s (raise e) = (record s { files = unlink target s.files }, raise e)

  -- The tests before the upload: the state, which may pause the vault, and the refusal, if any.
  unfoldable pub admit :
      Intake → Principal → (form : Upload) → Intake × Result IngestError (Unit {0})
  admit s p form = elim (require p "ingest") [
    | raise e ↦ (s, raise (refused e))
    | ok _ ↦
        if not supported
        then (s, raise (refused unsupported))
        else if ltb settings.max_upload_bytes form.size_bytes
        then (s, raise (refused over_limit))
        else let r = check_capacity s.catalog settings.free_bytes p.vault_id form.size_bytes in
          (record s { catalog = record s.catalog { vaults = r.0 } }, capacity_error r.1)
  ]

  abbrev pub upload :
      Principal
      → (form : Upload) → List Bytes
      → Intake × Result IngestError (Unit {0})
      → Intake × Result IngestError Registered
  upload p form blocks (s, raise e) = (s, raise e)
  upload p form blocks (s, ok _) = finish s (accept s p form blocks)

  unfoldable pub ingest :
      Intake → Principal → (form : Upload) → List Bytes → Intake × Result IngestError Registered
  unfolding accept admit
  ingest s p form blocks = upload p form blocks (admit s p form)
