-- ===== src/Tests/Reading.antt =====
-- Runs of the requests and tools that read. A signature is the document, and the disk has every file, or
-- none.
use personal_vault_rag.Prelude.{
  same, ◌&&◌, All, Bool, Option, String, [], arith, false, ltb, none, ok, raise, refl, some, true,
  ℕ, ◌+◌, ◌/◌, ◌∷◌, ◌≡◌, ◌≤◌,
}
use personal_vault_rag.Db.{Chunk, Preview}
use personal_vault_rag.Table.{select, fetch_one, update, count, order_by}
use personal_vault_rag.Security.{Principal, require, has_scope, check_view_signature}
use personal_vault_rag.Mcp.{Access, current_vault}
use personal_vault_rag.Catalog.{Catalog, is_document}
use personal_vault_rag.Catalog.References.{IsReferenced}
use personal_vault_rag.Catalog.Seen.{SeenRequest, needs_content, seen}
use personal_vault_rag.Retrieval.{Filters, Scores, search}
use personal_vault_rag.Retrieval.Paths.{Text}
use personal_vault_rag.Views.{
  pos, negsuc, clamp, Evidence, Page, fetch_chunk, fetch_evidence, view_document,
}
use personal_vault_rag.Views.Previews.{missing_410, api_visual_preview}
use personal_vault_rag.Views.Passages.{IsEvidence, fetch_evidence-IsEvidence}
use personal_vault_rag.Views.Pages.{IsPage, view_document-IsPage}
use personal_vault_rag.Views.Images.{IsSent, view_document-IsSent}
use personal_vault_rag.Views.Links.{view_link, Opens, search-Opens}
use personal_vault_rag.Views.Missing.{api_visual_preview-seen}
use personal_vault_rag.Views.Tool.{inspect_visual}
use personal_vault_rag.Views.Agreement.{IsOwned, Agrees, inspect_visual-api_visual_preview}
use personal_vault_rag.Tests.{home, laptop, document, version}

abbrev chunk : (id : String) (ordinal : ℕ) → Chunk
chunk id ordinal = record {
  id = id;
  vault_id = "home";
  document_id = "d1";
  version_id = "v1";
  ordinal = ordinal;
  kind = "text";
  heading_path = none;
  locator_json = "{}";
  text = "words";
  contextual_text = none;
  token_estimate = 1;
  created_at = 5;
}

abbrev page : Preview
page = record {
  id = "p1";
  vault_id = "home";
  document_id = "d1";
  version_id = "v1";
  ordinal = 0;
  path = "/previews/p1.webp";
  media_type = "image/webp";
  locator_json = "{}";
  text_chunk_id = none;
  created_at = 5;
}

abbrev catalog : Catalog
catalog = record {
  vaults = home ∷ [];
  sources = laptop ∷ [];
  documents = document "d1" "a.txt" 1 ∷ [];
  versions = version "v1" "d1" ∷ [];
  chunks = chunk "c9" 9 ∷ chunk "c1" 1 ∷ chunk "c0" 0 ∷ [];
  chunks_fts = [];
  previews = page ∷ [];
  batches = [];
  artifacts = [];
  inspections = [];
  jobs = [];
}

abbrev access : Option Access
access = some (record {
  token = "secret";
  client_id = "tok_1";
  scopes = "search" ∷ [];
  subject = some "home";
})

abbrev evidence : Evidence
evidence = record {
  document_id = "d1";
  version_id = "v1";
  requested_chunk_id = "c1";
  passages = chunk "c0" 0 ∷ chunk "c1" 1 ∷ [];
}

evidence_runs : fetch_evidence catalog.chunks access "c1" (pos 40) ≡ ok evidence
unfolding fetch_evidence fetch_chunk current_vault has_scope fetch_one select order_by
evidence_runs = refl

fetch_evidence-IsEvidence_example :
    (vault_id : String) × (current_vault access "search" ≡ ok vault_id)
    × (clamp 5 (pos 40) ≤ 5)
    × IsEvidence catalog.chunks vault_id "c1" (clamp 5 (pos 40)) evidence
fetch_evidence-IsEvidence_example =
    fetch_evidence-IsEvidence catalog.chunks access "c1" (pos 40) evidence evidence_runs

abbrev sign : String → String → String → ℕ → String
sign vault_id document_id version_id expires = document_id

abbrev shown : Page
shown = record {
  document = document "d1" "a.txt" 1;
  chunks = chunk "c0" 0 ∷ chunk "c1" 1 ∷ chunk "c9" 9 ∷ [];
  previews = page ∷ [];
  older = false;
}

page_runs : view_document sign 5_000_000 catalog "d1" "home" "v1" 9 "d1" ≡ ok shown
unfolding view_document check_view_signature fetch_one select order_by
page_runs = refl

view_document-IsPage_example : IsPage sign 5_000_000 catalog "d1" "home" "v1" 9 "d1" shown
view_document-IsPage_example =
    view_document-IsPage sign 5_000_000 catalog "d1" "home" "v1" 9 "d1" shown page_runs

abbrev full_disk : String → Bool
full_disk path = true

page_unique :
    (id : String) → count (λ p. same p.vault_id "home" && same p.id id) catalog.previews ≤ 1
unfolding count
page_unique id = ground arith

view_document-IsSent_example :
    All (IsSent sign 7_000_000 catalog full_disk "d1" "home" "v1" 9 "d1") shown.previews
view_document-IsSent_example =
    view_document-IsSent sign 7_000_000 catalog full_disk "d1" "home" "v1" 9 "d1" 5_000_000 shown
      page_unique (omega arith) page_runs

-- Scores as whole numbers: 840 / (60 + rank).
abbrev whole : Scores
whole = record {
  Score = ℕ;
  nil = 0;
  add = λ a b. a + b;
  score = λ rank. 840 / (60 + rank);
  less = ltb;
}

abbrev keep : ℕ → Text
keep c = c ∷ []

abbrev filters : Filters
filters = record {
  include_history = false;
  source_id = none;
  media_type = none;
  path_prefix = none;
}

search-Opens_example :
    All
      (λ r. Opens sign 90_000_000 catalog (view_link sign 50 "home" r) r.chunk)
      (search whole keep catalog.documents catalog.versions catalog.chunks "home" filters 5
        ("c1" ∷ [])
        ("c9" ∷ [])
        []
        none)
search-Opens_example =
    search-Opens sign whole keep catalog "home" filters 5 ("c1" ∷ []) ("c9" ∷ []) [] none 50
      90_000_000 (omega arith)

abbrev caller : Principal
caller = record {
  vault_id = "home";
  token_id = "tok";
  scopes = "search" ∷ "ingest" ∷ [];
  label = "Browser";
}

abbrev empty_disk : String → Bool
empty_disk path = false

abbrev marked : Catalog
marked = (api_visual_preview 50 "1" empty_disk catalog caller "d1" (negsuc 3)).0

preview_runs :
    api_visual_preview 50 "1" empty_disk catalog caller "d1" (negsuc 3)
    ≡ (marked, raise missing_410)
unfolding api_visual_preview require has_scope fetch_one
preview_runs = refl

abbrev sighting : SeenRequest
sighting = record {
  source_id = "laptop";
  document_id = "d1";
  relative_path = "a.txt";
  display_name = "a.txt";
  mtime_ns = 1;
  size_bytes = 12;
  scan_generation = 2;
}

abbrev scanned : Catalog
scanned = record marked {
  documents =
      record (document "d1" "a.txt" 2) { last_seen_at = some 60; missing_confirmations = 0 } ∷ [];
}

scan_runs : seen marked caller 60 sighting ≡ ok (scanned, true)
unfolding seen needs_content api_visual_preview require has_scope fetch_one update
scan_runs = refl

catalog-IsReferenced : IsReferenced catalog
unfolding fetch_one
catalog-IsReferenced = record {
  chunks = (refl, (refl, (refl, tt)));
  previews = (refl, tt);
  batches = tt;
}

one_document : (id : String) → count (is_document "home" id) catalog.documents ≤ 1
unfolding count
one_document id = ground arith

api_visual_preview-seen_example : true ≡ true
api_visual_preview-seen_example =
    api_visual_preview-seen 50 60 "1" empty_disk catalog marked scanned caller caller "d1"
      (negsuc 3) sighting true (one_document "d1") catalog-IsReferenced refl refl preview_runs
      scan_runs

catalog-IsOwned : IsOwned catalog "home"
catalog-IsOwned = record {
  unique = one_document;
  owners = ((λ e. refl, tt), tt);
  filled = (refl, tt);
}

search_granted : current_vault access "search" ≡ ok "home"
unfolding current_vault has_scope
search_granted = refl

search_allowed : require caller "search" ≡ ok tt
unfolding require has_scope
search_allowed = refl

inspect_visual-api_visual_preview_example :
    Agrees
      (inspect_visual 50 "1" empty_disk catalog access "d1" (pos 0) none)
      (api_visual_preview 50 "1" empty_disk catalog caller "d1" (pos 0))
inspect_visual-api_visual_preview_example =
    inspect_visual-api_visual_preview 50 "1" empty_disk catalog access caller "d1" (pos 0)
      catalog-IsOwned search_granted search_allowed
