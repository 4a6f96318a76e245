-- ===== src/Retrieval/Paths.antt =====
-- Path prefixes, as `_normalized_prefix` and `_path_prefix_values` of app/retrieval.py and
-- `_path_prefixes` of app/worker.py compute them. A text is the list of its code points, and
-- `fold` is the case folding of one character, which `str.casefold` applies to each.
use personal_vault_rag.Prelude.{
  Bool, List, [], false, if◌then◌else◌, length, suc, take, true, zero, ℕ, ◌&&◌, ◌++◌, ◌+◌, ◌==◌,
  ◌||◌, ◌∷◌,
}
use personal_vault_rag.Table.Each.{has}

abbrev pub Text : Type 0
Text = List ℕ

abbrev pub slash : ℕ
slash = b'/'

abbrev pub backslash : ℕ
backslash = 92

-- `value.replace("\\", "/")`
unfoldable pub slashed : Text → Text
slashed [] = []
slashed (c ∷ cs) = (if c == backslash then slash else c) ∷ slashed cs

-- `value.lstrip("/")`
unfoldable pub lstrip_slash : Text → Text
lstrip_slash [] = []
lstrip_slash (c ∷ cs) = let rest = lstrip_slash cs in if c == slash then rest else c ∷ cs

abbrev pub keep_slash : ℕ → Text → Text
keep_slash c [] = if c == slash then [] else c ∷ []
keep_slash c (d ∷ ds) = c ∷ d ∷ ds

-- `value.rstrip("/")`
unfoldable pub rstrip_slash : Text → Text
rstrip_slash [] = []
rstrip_slash (c ∷ cs) = keep_slash c (rstrip_slash cs)

-- `value.casefold()`
unfoldable pub casefold : (ℕ → Text) → Text → Text
casefold fold [] = []
casefold fold (c ∷ cs) = fold c ++ casefold fold cs

unfoldable pub normalized_prefix : (ℕ → Text) → Text → Text
unfolding slashed lstrip_slash rstrip_slash casefold
normalized_prefix fold value = casefold fold (rstrip_slash (lstrip_slash (slashed value)))

abbrev pub cons_part : ℕ → List Text → List Text
cons_part c [] = (c ∷ []) ∷ []
cons_part c (p ∷ ps) = (c ∷ p) ∷ ps

-- `value.split("/")`
unfoldable pub split_slash : Text → List Text
split_slash [] = [] ∷ []
split_slash (c ∷ cs) =
    let rest = split_slash cs in if c == slash then [] ∷ rest else cons_part c rest

-- `[part for part in parts if part]`
unfoldable pub filled : List Text → List Text
filled [] = []
filled ([] ∷ ps) = filled ps
filled ((c ∷ p) ∷ ps) = (c ∷ p) ∷ filled ps

-- `"/".join(parts)`
unfoldable pub join_slash : List Text → Text
join_slash [] = []
join_slash (p ∷ []) = p
join_slash (p ∷ q ∷ ps) = p ++ slash ∷ join_slash (q ∷ ps)

-- `["/".join(parts[:index]) for index in range(start, len(parts) + 1)]`, for `rounds` indices
unfoldable pub joins : (rounds start : ℕ) → List Text → List Text
unfolding join_slash
joins zero start parts = []
joins (suc n) start parts = join_slash (take start parts) ∷ joins n (start + 1) parts

unfoldable pub path_prefix_values : (ℕ → Text) → Text → List Text
unfolding normalized_prefix split_slash filled joins
path_prefix_values fold relative_path =
    let parts = filled (split_slash (normalized_prefix fold relative_path)) in
    joins (length parts) 1 parts

unfoldable pub same_text : Text → Text → Bool
same_text [] [] = true
same_text [] (d ∷ ds) = false
same_text (c ∷ cs) [] = false
same_text (c ∷ cs) (d ∷ ds) = (c == d) && same_text cs ds

-- `s.startswith(t)`
unfoldable pub text_starts_with : Text → Text → Bool
text_starts_with s [] = true
text_starts_with [] (d ∷ ds) = false
text_starts_with (c ∷ cs) (d ∷ ds) = (c == d) && text_starts_with cs ds

-- The check of a path in `_load_chunks`, for the normalized path and prefix.
unfoldable pub within_prefix : Text → Text → Bool
unfolding same_text text_starts_with
within_prefix relative prefix =
    same_text relative prefix || text_starts_with relative (prefix ++ slash ∷ [])

-- The condition of `_qdrant_filter` on a path: a value of the list is equal to the prefix.
unfoldable pub in_path_prefixes : (ℕ → Text) → (prefix relative_path : Text) → Bool
unfolding same_text path_prefix_values normalized_prefix
in_path_prefixes fold prefix relative_path =
    has (same_text (normalized_prefix fold prefix)) (path_prefix_values fold relative_path)
