-- ===== src/Worker/Evidence.antt =====
-- `_replace_chunks` and `_replace_visual_evidence` of app/worker.py.
use personal_vault_rag.Prelude.{
  Bool, List, Option, Result, String, [], codes, concat, cut, if◌then◌else◌, is_some, leb, length,
  map, max, none, not, ok, or_else, raise_if, same, some, ℕ, ◌&&◌, ◌++◌, ◌+◌, ◌/◌, ◌==◌, ◌>>◌, ◌∷◌,
}
use personal_vault_rag.Db.{Chunk, ChunkFts, Preview}
use personal_vault_rag.Table.{fetch_one, delete}
use personal_vault_rag.Table.Each.{has}
use personal_vault_rag.Catalog.{Catalog, is_version, is_document}
use personal_vault_rag.Worker.{Locator, Passage, Picture, Extraction}

-- The row that is being worked on.
pub record Target : Type 0 where
  pub vault_id : String
  pub document_id : String
  pub version_id : String

abbrev pub of_target : Target → Chunk → Bool
of_target t k = same k.vault_id t.vault_id && same k.version_id t.version_id

abbrev pub fts_of_target : Target → ChunkFts → Bool
fts_of_target t k = same k.vault_id t.vault_id && same k.version_id t.version_id

abbrev pub preview_of_target : Target → Preview → Bool
preview_of_target t p = same p.vault_id t.vault_id && same p.version_id t.version_id

-- FOREIGN KEY (vault_id, document_id) and (vault_id, version_id)
abbrev pub is_referable : Target → Catalog → Bool
is_referable t c =
    has (is_document t.vault_id t.document_id) c.documents
    && has (is_version t.vault_id t.version_id) c.versions

-- `dump` prints a locator; `chunk_uuid` makes the identifier of a version's passage from its ordinal
-- and text, `visual_uuid` and `preview_uuid` those of a picture from its index.
pub record Names : Type 0 where
  pub dump : Locator → String
  pub parse : String → Locator
  pub chunk_uuid : (version_id : String) (ordinal : ℕ) (text : String) → String
  pub visual_uuid : (version_id : String) (index : ℕ) → String
  pub preview_uuid : (version_id : String) (index : ℕ) → String

module _ (names : Names) (stamp : ℕ) (t : Target) where
  unfoldable pub text_record : ℕ → Passage → Chunk
  text_record ordinal p = record {
    id = concat "chk_" (names.chunk_uuid t.version_id ordinal (cut 120 p.text));
    vault_id = t.vault_id;
    document_id = t.document_id;
    version_id = t.version_id;
    ordinal = ordinal;
    kind = p.kind;
    heading_path = some p.heading_path;
    locator_json = names.dump p.locator;
    text = p.text;
    contextual_text = none;
    token_estimate = max 1 (length (codes p.text) / 4);
    created_at = stamp;
  }

  unfoldable pub text_records : ℕ → List Passage → List Chunk
  text_records ordinal [] = []
  text_records ordinal (p ∷ ps) = text_record ordinal p ∷ text_records (ordinal + 1) ps

  abbrev pub fts_record : Chunk → ChunkFts
  fts_record k = record {
    text = k.text;
    contextual_text = "";
    heading_path = or_else k.heading_path "";
    vault_id = k.vault_id;
    chunk_id = k.id;
    document_id = k.document_id;
    version_id = k.version_id;
  }

  -- An INSERT of a chunk without its version or document raises; the transaction is rolled back.
  unfoldable pub replace_chunks : Catalog → Extraction → Result String (Catalog × List Chunk)
  unfolding text_records
  replace_chunks c extracted =
      let records = text_records 0 extracted.chunks in
      raise_if (not (length records == 0) && not (is_referable t c)) "IntegrityError"
      >> ok (
        record c {
          chunks = delete (of_target t) c.chunks ++ records;
          chunks_fts = delete (fts_of_target t) c.chunks_fts ++ map fts_record records;
        },
        records,
      )

-- `_locator_matches`: both have a page, or else a slide, an image, a time.
abbrev pub both : Option ℕ → Option ℕ → Bool
both a b = is_some a && is_some b

abbrev pub number : Option ℕ → ℕ
number a = or_else a 0

unfoldable pub locator_matches : (preview chunk : Locator) → Bool
locator_matches p k =
    if both p.page k.page
    then leb (number k.page) (number p.page)
      && leb (number p.page) (or_else k.page_end (number k.page))
    else if both p.slide k.slide
    then number p.slide == number k.slide
    else if both p.image k.image
    then number p.image == number k.image
    else both p.time_start k.time_start
      && leb (number k.time_start) (or_else p.time_end (number p.time_start))
      && leb (number p.time_start) (or_else k.time_end (number k.time_start))

module _ (names : Names) (stamp : ℕ) (t : Target) where
  -- The first text record whose locator matches the picture's.
  unfoldable pub nearby : List Chunk → Picture → Option Chunk
  unfolding locator_matches
  nearby records p = fetch_one (λ k. locator_matches p.locator (names.parse k.locator_json)) records

  abbrev pub visual_text : String
  visual_text =
      "Visual evidence is available; inspect the identified preview before making a visual claim."

  unfoldable pub visual_record : List Chunk → ℕ → Picture → Chunk
  unfolding nearby
  visual_record records index p = record {
    id = concat "chk_" (names.visual_uuid t.version_id index);
    vault_id = t.vault_id;
    document_id = t.document_id;
    version_id = t.version_id;
    ordinal = length records + index;
    kind = "visual";
    heading_path = elim (nearby records p) [
      | none ↦ some "Visual evidence"
      | some k ↦ k.heading_path
    ];
    locator_json = names.dump p.locator;
    text = visual_text;
    contextual_text = elim (nearby records p) [ none ↦ none | some k ↦ some (cut 1200 k.text) ];
    token_estimate = 1;
    created_at = stamp;
  }

  unfoldable pub preview_record : ℕ → Picture → Preview
  preview_record index p = record {
    id = concat "preview_" (names.preview_uuid t.version_id index);
    vault_id = t.vault_id;
    document_id = t.document_id;
    version_id = t.version_id;
    ordinal = index;
    path = p.path;
    media_type = if p.is_webp then "image/webp" else "image/jpeg";
    locator_json = names.dump p.locator;
    text_chunk_id = some (concat "chk_" (names.visual_uuid t.version_id index));
    created_at = stamp;
  }

  unfoldable pub visual_records : List Chunk → ℕ → List Picture → List Chunk
  visual_records records index [] = []
  visual_records records index (p ∷ ps) =
      visual_record records index p ∷ visual_records records (index + 1) ps

  unfoldable pub preview_records : ℕ → List Picture → List Preview
  preview_records index [] = []
  preview_records index (p ∷ ps) = preview_record index p ∷ preview_records (index + 1) ps

  unfoldable pub replace_visual_evidence :
      Catalog → List Picture → (text_records : List Chunk) → Result String Catalog
  unfolding visual_records preview_records
  replace_visual_evidence c previews records =
      raise_if (not (length previews == 0) && not (is_referable t c)) "IntegrityError"
      >> ok (record c {
        previews = delete (preview_of_target t) c.previews ++ preview_records 0 previews;
        chunks =
            delete (λ k. of_target t k && same k.kind "visual") c.chunks
            ++ visual_records records 0 previews;
      })
