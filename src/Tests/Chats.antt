-- ===== src/Tests/Chats.antt =====
-- Runs of the tools that queue and poll inspections, with the worker's attempts.
use personal_vault_rag.Prelude.{
  Bool-cases, cut, Option, arith, inl, inr, subst, List, String, [], map, ok, refl, same, some, ◌∷◌,
  ◌≡◌,
}
use personal_vault_rag.Db.{Job}
use personal_vault_rag.Table.{fetch_one, update, count}
use personal_vault_rag.Table.Each.{has}
use personal_vault_rag.Jobs.{retries}
use personal_vault_rag.Worker.{payload_field}
use personal_vault_rag.Worker.Inspect.{
  fail_job, Disk, inspection_warnings, inspected_path, process_temporary_inspection,
}
use personal_vault_rag.Worker.Dispatch.{Services, process_job, settle_job}
use personal_vault_rag.Security.{has_scope}
use personal_vault_rag.Jobs.Unique.{IsUnique}
use personal_vault_rag.Mcp.{Access, current_vault}
use personal_vault_rag.Mcp.Inspection.{inspect_chat_attachment, insert_inspection}
use personal_vault_rag.Mcp.Attempts.{IsFor}
use personal_vault_rag.Mcp.Polled.{
  IsParsed, tried, start, other, Polls, inspect_chat_attachment-Polls,
}
use personal_vault_rag.Tests.Rounds.{inspects, disk, read, dumps, extract_words, services}

abbrev searches : Option Access
searches = some (record {
  token = "secret";
  client_id = "tok_1";
  scopes = "search" ∷ [];
  subject = some "home";
})

abbrev loads : String → List String
loads text = []

abbrev reading : Services
reading = record services { extract = extract_words }

abbrev bare : Disk
bare = record disk {
  catalog = record disk.catalog { inspections = []; jobs = [] };
  staged_files = [];
}

abbrev last_part : String → String
last_part path = "1"

bare-IsUnique : IsUnique []
unfolding count
bare-IsUnique = record { ids = λ id. omega arith; active = λ v k p. omega arith }

abbrev handed : Disk
handed =
    (inspect_chat_attachment "i1" 1 1 last_part "u1" searches (ok "/staging/1") "f1" (some "a.txt")
      bare).0

handed_runs :
    inspect_chat_attachment "i1" 1 1 last_part "u1" searches
      (ok "/staging/1")
      "f1"
      (some "a.txt")
      bare
    ≡ (handed, ok "i1")
unfolding inspect_chat_attachment insert_inspection current_vault has_scope fetch_one
handed_runs = refl

searches_runs : current_vault searches "search" ≡ ok "home"
unfolding current_vault has_scope
searches_runs = refl

-- Another file has arrived.
abbrev crowded : Disk
crowded = record handed { staged_files = "/staging/2" ∷ handed.staged_files }

words-IsParsed :
    IsParsed "i1" 1 1 last_part loads reading searches "home" "/staging/1" "f1" (some "a.txt")
unfolding inspection_warnings
words-IsParsed files x e = elim (Bool-cases (has (λ f. same f "/staging/1") files)) [
  | inl h ↦
      let q : read ≡ x = ground arith in (subst (λ y. [] ≡ inspection_warnings y) q refl, refl)
  | inr h ↦ absurd (ground arith)
]

inspects-IsFor : IsFor "home" "i1" inspects
unfolding payload_field
inspects-IsFor = (refl, refl, refl)

inspect_chat_attachment-Polls_example :
    Polls "i1" 1 1 last_part loads reading searches "home" "/staging/1" "f1"
      (some "a.txt")
      handed
      crowded
      inspects
      (tried "i1" 1 1 last_part loads reading searches "home" "/staging/1" "f1"
        (some "a.txt")
        "worker"
        50
        51
        52
        inspects
        crowded)
inspect_chat_attachment-Polls_example =
    inspect_chat_attachment-Polls "i1" 1 1 last_part loads reading searches "home" "/staging/1" "f1"
      (some "a.txt") "u1" searches bare handed crowded inspects "worker" 50 51 52 bare-IsUnique
      words-IsParsed refl searches_runs searches_runs handed_runs (other handed crowded start refl)
      inspects-IsFor

-- The last attempt of a job whose first has completed the inspection, when the worker ended before the
-- job was finished.
abbrev repeated : Job
repeated = record inspects { attempts = 2 }

abbrev complete : Disk
complete = (process_temporary_inspection dumps 50 disk "home" "i1" extract_words).0

abbrev states : Disk → List (String × Option String)
states d = map (λ i. (i.state, i.extracted_text)) d.catalog.inspections

complete_runs : states complete ≡ ("complete", some "words") ∷ []
unfolding process_temporary_inspection fetch_one update inspected_path cut
complete_runs = refl

repeated_runs :
    states
      (settle_job reading "worker" 60 61 62 repeated (process_job reading 61 complete repeated)).0
    ≡ ("failed", some "words") ∷ []
unfolding settle_job process_job process_temporary_inspection fail_job retries payload_field
    fetch_one update inspected_path cut
repeated_runs = refl
