-- ===== src/Worker.antt =====
-- The jobs of app/worker.py over the catalog. A transaction is one function on the catalog; a job
-- is the composition of its transactions, and an exception in between leaves what is committed.
-- What the readers of the files, the provider and the vector store answer, the printing of
-- locators, the identifiers and the clock are arguments. An exception is its text.
pub mod Evidence
pub mod Extract
pub mod Recovery
pub mod Stored
pub mod Extracted
pub mod Integrity
pub mod Embed
pub mod Batches
pub mod Histories
pub mod Inspect
pub mod Inspections
pub mod Dispatch
pub mod Rounds
use personal_vault_rag.Prelude.{
  Bool, List, Option, Result, String, [], if◌then◌else◌, ◌&&◌, is_some, leb, none, ok, or_else,
  raise, same, some, ℕ, ◌==◌, ◌∷◌,
}
use personal_vault_rag.Catalog.{Catalog}

-- The fields of a locator that are compared. Times are natural numbers.
pub record Locator : Type 0 where
  pub page : Option ℕ
  pub page_end : Option ℕ
  pub slide : Option ℕ
  pub image : Option ℕ
  pub time_start : Option ℕ
  pub time_end : Option ℕ

-- A passage of the extracted text.
pub record Passage : Type 0 where
  pub text : String
  pub kind : String
  pub heading_path : String
  pub locator : Locator

-- A picture that the extraction wrote; `size` is that of its file, if it exists.
pub record Picture : Type 0 where
  pub path : String
  pub is_webp : Bool
  pub locator : Locator
  pub size : Option ℕ

-- What `extract_document` returns.
pub record Extraction : Type 0 where
  pub chunks : List Passage
  pub previews : List Picture
  pub warnings : List String

-- The catalog as far as it is committed, and the result or the exception.
abbrev pub Outcome : Type 0 → Type 0
Outcome A = Catalog × Result String A

-- `payload[key]`
unfoldable pub payload_field : String → List (String × String) → Option String
payload_field key [] = none
payload_field key ((name, value) ∷ fields) =
    if same name key then some value else payload_field key fields
