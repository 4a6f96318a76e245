-- ===== src/Retrieval.antt =====
-- The ranking of app/retrieval.py's `search`: fusion of the channels, the check of the candidates
-- against the catalog, the reordering by the reranker and the selection of the results. What the
-- channels and the reranker answer are arguments; scores are an interface.
pub mod Paths
pub mod Prefixes
pub mod Selection
pub mod Kept
pub mod Loading
pub mod Fusion
use personal_vault_rag.Prelude.{
  Bool, List, Option, String, [], codes, false, get_elem?, if◌then◌else◌, is_some, leb, length, ltb,
  map, max, min, none, not, or_else, same, some, take, true, ℕ, ◌&&◌, ◌*◌, ◌++◌, ◌+◌, ◌/◌, ◌==◌,
  ◌||◌, ◌∷◌,
}
use personal_vault_rag.Db.{Document, Version, Chunk}
use personal_vault_rag.Table.{select, fetch_one}
use Paths.{Text, normalized_prefix, within_prefix, casefold, text_starts_with}

-- A row of the join in `_load_chunks`.
pub record Row : Type 0 where
  pub chunk : Chunk
  pub document : Document
  pub version : Version

-- The filters of a search; an absent one is none, or an empty text.
pub record Filters : Type 0 where
  pub include_history : Bool
  pub source_id : Option String
  pub media_type : Option String
  pub path_prefix : Option String

-- `filters.get(…)` where its truth value decides.
unfoldable pub given : Option String → Option String
given none = none
given (some s) = if same s "" then none else some s

unfoldable pub contains : String → List String → Bool
contains s [] = false
contains s (t ∷ ts) = same t s || contains s ts

-- `value.rstrip("*")`
unfoldable pub rstrip_star : Text → Text
rstrip_star [] = []
rstrip_star (c ∷ cs) = elim (rstrip_star cs) [
  | [] ↦ if c == b'*' then [] else c ∷ []
  | d ∷ ds ↦ c ∷ d ∷ ds
]

-- `_load_chunks`: the row of the join for a chunk of this vault.
unfoldable pub join_row : List Document → List Version → String → Chunk → Option Row
join_row documents versions vault_id c =
    elim (fetch_one
      (λ d. same d.vault_id c.vault_id && same d.id c.document_id && not (is_some d.deleted_at))
      documents) [
        | none ↦ none
        | some d ↦
            elim (fetch_one (λ v. same v.vault_id c.vault_id && same v.id c.version_id) versions) [
              | none ↦ none
              | some v ↦
                  if same c.vault_id vault_id
                  then some (record { chunk = c; document = d; version = v })
                  else none
            ]
      ]

abbrev pub is_current : Row → Bool
is_current r = elim r.document.current_version_id [
  | none ↦ false
  | some current ↦ same r.chunk.version_id current
]

abbrev pub source_passes : Option String → Row → Bool
source_passes none r = true
source_passes (some s) r = same r.document.source_id s

abbrev pub media_passes : (ℕ → Text) → Option String → Row → Bool
media_passes fold none r = true
media_passes fold (some m) r =
    text_starts_with (casefold fold (codes (or_else r.document.media_type "")))
      (casefold fold (rstrip_star (codes m)))

abbrev pub path_passes : (ℕ → Text) → Option String → Row → Bool
path_passes fold none r = true
path_passes fold (some p) r =
    within_prefix (normalized_prefix fold (codes r.document.relative_path))
      (normalized_prefix fold (codes p))

-- The tests of `_load_chunks` on a row.
unfoldable pub passes : (ℕ → Text) → Filters → Row → Bool
passes fold filters r =
    (filters.include_history || is_current r)
    && source_passes (given filters.source_id) r
    && media_passes fold (given filters.media_type) r
    && path_passes fold (given filters.path_prefix) r

module _ (fold : ℕ → Text) (documents : List Document) (versions : List Version) (vault_id : String)
    (filters : Filters) where
  -- `loaded`: the rows in the order of the table.
  unfoldable pub load_chunks : (chunk_ids : List String) → List Chunk → List Row
  unfolding join_row passes contains
  load_chunks ids [] = []
  load_chunks ids (c ∷ cs) =
      let rest = load_chunks ids cs in
      if contains c.id ids
      then elim (join_row documents versions vault_id c) [
        | none ↦ rest
        | some r ↦ if passes fold filters r then r ∷ rest else rest
      ]
      else rest

-- `loaded[id]`
unfoldable pub loaded_row : List Row → String → Option Row
loaded_row loaded id = fetch_one (λ r. same r.chunk.id id) loaded

-- `[value for value in ranked_ids if value in loaded]`, with the row of each
unfoldable pub keep_loaded : List Row → List String → List Row
unfolding loaded_row
keep_loaded loaded [] = []
keep_loaded loaded (id ∷ ids) =
    let rest = keep_loaded loaded ids in
    elim (loaded_row loaded id) [ none ↦ rest | some r ↦ r ∷ rest ]

-- `[original_ids[index] for index, _ in reranked]`; `none` where an index is out of range
unfoldable pub pick : {A : Type 0} → List A → List ℕ → Option (List A)
pick xs [] = some []
pick xs (i ∷ is) = elim (get_elem? xs i) [
  | none ↦ none
  | some x ↦ elim (pick xs is) [ none ↦ none | some rest ↦ some (x ∷ rest) ]
]

-- The reranker is asked about more than one candidate; `none` is a refusal or an exception, which
-- leaves the order.
unfoldable pub reorder : {A : Type 0} → List A → Option (List ℕ) → List A
unfolding pick
reorder [] reply = []
reorder (x ∷ []) reply = x ∷ []
reorder (x ∷ y ∷ xs) none = x ∷ y ∷ xs
reorder (x ∷ y ∷ xs) (some indices) = or_else (pick (x ∷ y ∷ xs) indices) (x ∷ y ∷ xs)

-- `per_document`
abbrev pub bump : String → (String → ℕ) → String → ℕ
bump doc_id counts d = if same doc_id d then counts d + 1 else counts d

abbrev pub doc_of : Row → String
doc_of r = r.chunk.document_id

-- The document has its three results and less than half of the results are found.
unfoldable pub is_skipped : (limit : ℕ) → (String → ℕ) → List Row → Row → Bool
is_skipped limit counts selected r = leb 3 (counts (doc_of r)) && ltb (length selected) (limit / 2)

-- The results are complete with one more.
unfoldable pub is_last : (limit : ℕ) → List Row → Bool
is_last limit selected = leb limit (length selected + 1)

-- The loop that selects the results.
unfoldable pub select_from : (limit : ℕ) → (String → ℕ) → (selected ranked : List Row) → List Row
select_from limit counts selected [] = selected
select_from limit counts selected (r ∷ rs) = elim (is_skipped limit counts selected r) [
  | true ↦ select_from limit counts selected rs
  | false ↦ elim (is_last limit selected) [
    | true ↦ selected ++ r ∷ []
    | false ↦ select_from limit (bump (doc_of r) counts) (selected ++ r ∷ []) rs
  ]
]

unfoldable pub diversify : (limit : ℕ) → List Row → List Row
unfolding select_from
diversify limit ranked = select_from limit (λ d. 0) [] ranked

-- Scores: `score rank` is 1.0 / (60 + rank).
pub record Scores : Type 1 where
  pub Score : Type 0
  pub nil : Score
  pub add : Score → Score → Score
  pub score : ℕ → Score
  pub less : Score → Score → Bool

pub record Hit (S : Scores) : Type 0 where
  pub chunk_id : String
  pub total : S.Score
  pub channels : List String

module _ (S : Scores) where
  -- `scores[id] += …` and `channels[id].append(channel)` on dictionaries with defaults
  unfoldable pub credit : String → String → S.Score → List (Hit S) → List (Hit S)
  credit channel id s [] =
      record { chunk_id = id; total = S.add S.nil s; channels = channel ∷ [] } ∷ []
  credit channel id s (h ∷ hs) =
      if same h.chunk_id id
      then record h { total = S.add h.total s; channels = h.channels ++ channel ∷ [] } ∷ hs
      else h ∷ credit channel id s hs

  unfoldable pub credit_all : String → (rank : ℕ) → List String → List (Hit S) → List (Hit S)
  unfolding credit
  credit_all channel rank [] hits = hits
  credit_all channel rank (id ∷ ids) hits =
      credit_all channel (rank + 1) ids (credit channel id (S.score rank) hits)

  unfoldable pub fuse : (lexical dense visual : List String) → List (Hit S)
  unfolding credit_all
  fuse lexical dense visual =
      credit_all "visual" 1 visual (credit_all "dense" 1 dense (credit_all "lexical" 1 lexical []))

  -- `sorted(scores, key=scores.get, reverse=True)` keeps the order of equal scores.
  unfoldable pub insert_hit : Hit S → List (Hit S) → List (Hit S)
  insert_hit h [] = h ∷ []
  insert_hit h (k ∷ ks) = if S.less h.total k.total then k ∷ insert_hit h ks else h ∷ k ∷ ks

  unfoldable pub sort_hits : List (Hit S) → List (Hit S)
  unfolding insert_hit
  sort_hits [] = []
  sort_hits (h ∷ hs) = insert_hit h (sort_hits hs)

  unfoldable pub ranked_ids : (limit : ℕ) (lexical dense visual : List String) → List String
  unfolding fuse sort_hits
  ranked_ids limit lexical dense visual =
      let candidate_limit = min 100 (max 20 (limit * 5)) in
      take (min 50 (candidate_limit * 2))
        (map (λ h. h.chunk_id) (sort_hits (fuse lexical dense visual)))

  -- The rows of the results of `search`, in order.
  unfoldable pub search :
      (fold : ℕ → Text)
      → List Document
      → List Version
      → List Chunk
      → (vault_id : String) (filters : Filters) (limit : ℕ)
      → (lexical dense visual : List String) (reranked : Option (List ℕ)) → List Row
  unfolding ranked_ids load_chunks keep_loaded reorder diversify
  search fold documents versions chunks vault_id filters limit lexical dense visual reranked =
      let ids = ranked_ids limit lexical dense visual in
      let loaded = load_chunks fold documents versions vault_id filters ids chunks in
      diversify limit (reorder (keep_loaded loaded ids) reranked)
