-- ===== src/Catalog/Embedding.antt =====
-- The embedding jobs that a version lacks: `_enqueue_missing_embedding_jobs` of app/catalog.py.
use personal_vault_rag.Prelude.{
  Bool, List, Option, String, [], false, if◌then◌else◌, is_some, none, not, same, some, true,
  truthy, ℕ, ◌&&◌, ◌+◌, ◌==◌, ◌||◌, ◌∷◌,
}
use personal_vault_rag.Db.{Vault, Version, Job}
use personal_vault_rag.Table.{select, fetch_one}
use personal_vault_rag.Jobs.{create_job}
use personal_vault_rag.Catalog.{Catalog, is_vault}

-- `a != b` for a column that may be NULL
abbrev pub differs : Option String → String → Bool
differs none b = true
differs (some a) b = not (same a b)

abbrev pub has_text : Catalog → Version → Bool
has_text c v = is_some (
    fetch_one
      (λ k.
        same k.vault_id v.vault_id
        && same k.version_id v.id
        && not (same k.kind "visual")
        && not (same k.text ""))
      c.chunks)

abbrev pub has_visual : Catalog → Version → Bool
has_visual c v =
    is_some (fetch_one (λ p. same p.vault_id v.vault_id && same p.version_id v.id) c.previews)

-- The version is the current one of a document that is not deleted, and its text is indexed.
abbrev pub is_eligible : Catalog → (vault_id : String) (version_id : Option String) → Version → Bool
is_eligible c vault_id version_id v =
    same v.vault_id vault_id
    && is_some v.lexical_indexed_at
    && elim version_id [ none ↦ true | some id ↦ same v.id id ]
    && is_some (
        fetch_one
          (λ d.
            same d.vault_id v.vault_id
            && not (differs d.current_version_id v.id)
            && not (is_some d.deleted_at))
          c.documents)

abbrev pub needs_text : Vault → Catalog → Version → Bool
needs_text vault c v =
    has_text c v
    && (not (truthy v.text_indexed_at) || differs v.embedding_model vault.embedding_model)

abbrev pub needs_visual : Vault → Catalog → Version → Bool
needs_visual vault c v =
    has_visual c v
    && (not (truthy v.visual_indexed_at) || differs v.visual_model vault.visual_model)

-- `vault["provider_ciphertext"]` is neither NULL nor empty.
abbrev pub has_key : Vault → Bool
has_key vault = elim vault.provider_ciphertext [ none ↦ false | some c ↦ not (same c "") ]

abbrev pub embed_payload : (version_id model : String) → List (String × String)
embed_payload version_id model = ("version_id", version_id) ∷ ("model", model) ∷ []

-- A kind of job with a version's identifier makes the identifier of a new job.
module _ (stamp : ℕ) (uuid : (kind id : String) → String) where
  -- The loop over the rows, on the jobs and the two counts.
  unfoldable pub enqueue_rows :
      Catalog → Vault → List Version → List Job × (ℕ × ℕ) → List Job × (ℕ × ℕ)
  enqueue_rows c vault [] queued = queued
  enqueue_rows c vault (v ∷ vs) (jobs, (text, visual)) =
      let embeds = needs_text vault c v in
      let shows = needs_visual vault c v in
      let jobs_text =
        if embeds
        then (create_job jobs stamp (uuid "embed_text" v.id) vault.id "embed_text"
            (embed_payload v.id vault.embedding_model) 80).0
        else jobs in
      let jobs_visual =
        if shows
        then (create_job jobs_text stamp (uuid "embed_visual" v.id) vault.id "embed_visual"
            (embed_payload v.id vault.visual_model) 85).0
        else jobs_text in
      enqueue_rows c vault vs
        (jobs_visual, (text + (if embeds then 1 else 0), visual + (if shows then 1 else 0)))

  unfoldable pub enqueue_missing_embedding_jobs :
      Catalog → (vault_id : String) (version_id : Option String) → List Job × (ℕ × ℕ)
  unfolding enqueue_rows
  enqueue_missing_embedding_jobs c vault_id version_id =
      elim (fetch_one (is_vault vault_id) c.vaults) [
        | none ↦ (c.jobs, (0, 0))
        | some vault ↦
            if not (has_key vault) || (vault.monthly_budget_microusd == 0)
            then (c.jobs, (0, 0))
            else enqueue_rows c vault (select (is_eligible c vault_id version_id) c.versions)
                (c.jobs, (0, 0))
      ]
