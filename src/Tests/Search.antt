-- ===== src/Tests/Search.antt =====
-- Runs of the search.
use personal_vault_rag.Prelude.{
  All, arith, codes, true, String, [], false, ltb, none, refl, some, ℕ, ◌+◌, ◌/◌, ◌∷◌, ◌≡◌,
}
use personal_vault_rag.Db.{Chunk}
use personal_vault_rag.Retrieval.{Filters, Scores, fuse, search}
use personal_vault_rag.Retrieval.Paths.{
  Text, slashed, lstrip_slash, rstrip_slash, casefold, filled, joins, join_slash,
  path_prefix_values, same_text, normalized_prefix, split_slash, in_path_prefixes, within_prefix,
}
use personal_vault_rag.Table.{fetch_one}
use personal_vault_rag.Retrieval.Prefixes.{IsFilled, in_path_prefixes-within_prefix}
use personal_vault_rag.Retrieval.Loading.{IsServed, search-IsServed}
use personal_vault_rag.Retrieval.Fusion.{found, votes, fuse-votes}
use personal_vault_rag.Tests.{document, version}

-- Scores as whole numbers: 840 / (60 + rank).
abbrev whole : Scores
whole = record {
  Score = ℕ;
  nil = 0;
  add = λ a b. a + b;
  score = λ rank. 840 / (60 + rank);
  less = ltb;
}

abbrev chunk : (id document_id version_id : String) → Chunk
chunk id document_id version_id = record {
  id = id;
  vault_id = "home";
  document_id = document_id;
  version_id = version_id;
  ordinal = 0;
  kind = "text";
  heading_path = none;
  locator_json = "{}";
  text = "words";
  contextual_text = none;
  token_estimate = 1;
  created_at = 5;
}

abbrev keep : ℕ → Text
keep c = c ∷ []

abbrev filters : Filters
filters = record {
  include_history = false;
  source_id = some "laptop";
  media_type = none;
  path_prefix = none;
}

search-IsServed_example :
    All
      (IsServed keep
        (document "d1" "a.txt" 1 ∷ [])
        (version "v1" "d1" ∷ [])
        (chunk "c1" "d1" "v1" ∷ [])
        "home"
        filters)
      (search whole keep
        (document "d1" "a.txt" 1 ∷ [])
        (version "v1" "d1" ∷ [])
        (chunk "c1" "d1" "v1" ∷ [])
        "home"
        filters
        5
        ("c1" ∷ "c2" ∷ [])
        ("c2" ∷ [])
        []
        none)
search-IsServed_example =
    search-IsServed whole keep (document "d1" "a.txt" 1 ∷ []) (version "v1" "d1" ∷ [])
      (chunk "c1" "d1" "v1" ∷ []) "home" filters 5 ("c1" ∷ "c2" ∷ []) ("c2" ∷ []) [] none

fuse-votes_example :
    found whole "c1" (fuse whole ("c1" ∷ []) ("c2" ∷ "c1" ∷ []) [])
    ≡ votes whole "c1" "visual" 1 [] (
        votes whole "c1" "dense" 1
          ("c2" ∷ "c1" ∷ [])
          (votes whole "c1" "lexical" 1 ("c1" ∷ []) none))
fuse-votes_example = fuse-votes whole "c1" ("c1" ∷ []) ("c2" ∷ "c1" ∷ []) []

-- `Notes\\Tea/Milk.md`
abbrev milk : Text
milk = codes "Notes\\Tea/Milk.md"

milk-IsFilled : All IsFilled (split_slash (normalized_prefix keep milk))
unfolding normalized_prefix slashed lstrip_slash rstrip_slash casefold split_slash
milk-IsFilled = (omega arith, (omega arith, (omega arith, tt)))

in_path_prefixes-within_prefix_example :
    in_path_prefixes keep (codes "/Notes/Tea/") milk
    ≡ within_prefix (normalized_prefix keep milk) (normalized_prefix keep (codes "/Notes/Tea/"))
in_path_prefixes-within_prefix_example =
    in_path_prefixes-within_prefix keep (codes "/Notes/Tea/") milk milk-IsFilled

tea_found : in_path_prefixes keep (codes "/Notes/Tea/") milk ≡ true
unfolding in_path_prefixes path_prefix_values normalized_prefix slashed lstrip_slash rstrip_slash
    casefold split_slash filled joins join_slash same_text fetch_one
tea_found = refl
