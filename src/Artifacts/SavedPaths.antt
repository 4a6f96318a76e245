-- ===== src/Artifacts/SavedPaths.antt =====
-- `PurePosixPath(path.replace("\\", "/"))` as `artifact_complete` of app/main.py uses it: the parts
-- of a relative path, without the empty ones and the ".".
use Prim.Native.Char.{Char, code}
use personal_vault_rag.Prelude.{
  Bool, List, Option, String, [], concat, false, if◌then◌else◌, none, some, same, ◌==◌, ◌||◌, ◌∷◌,
}

abbrev pub is_slash : Char → Bool
is_slash c = code c == b'/'

-- `path.replace("\\", "/")`
unfoldable pub slashed : String → String
slashed String.[] = String.[]
slashed (String.◌∷◌ c s) = String.◌∷◌ (if code c == b'\\' then "/" else c) (slashed s)

abbrev pub cons_first : Char → List String → List String
cons_first c [] = String.◌∷◌ c String.[] ∷ []
cons_first c (p ∷ ps) = String.◌∷◌ c p ∷ ps

-- `path.split("/")`
unfoldable pub split_path : String → List String
split_path String.[] = String.[] ∷ []
split_path (String.◌∷◌ c s) =
    let rest = split_path s in if is_slash c then String.[] ∷ rest else cons_first c rest

-- The parts of a relative path.
unfoldable pub kept : List String → List String
kept [] = []
kept (p ∷ ps) = let rest = kept ps in if same p "" || same p "." then rest else p ∷ rest

-- `is_absolute()`
unfoldable pub is_absolute : String → Bool
is_absolute String.[] = false
is_absolute (String.◌∷◌ c s) = is_slash c

abbrev pub join_parts : List String → String
join_parts [] = ""
join_parts (p ∷ []) = p
join_parts (p ∷ q ∷ ps) = concat p (concat "/" (join_parts (q ∷ ps)))

-- `as_posix()` of a relative path
unfoldable pub as_posix : List String → String
as_posix [] = "."
as_posix (p ∷ ps) = join_parts (p ∷ ps)

unfoldable pub has_part : String → List String → Bool
has_part part [] = false
has_part part (p ∷ ps) = same p part || has_part part ps

-- The text of a saved path, if it is a safe one: it is not empty, not absolute and has no part "..".
unfoldable pub saved_path : (normalized_path : String) → Option String
unfolding split_path kept is_absolute as_posix has_part
saved_path normalized_path =
    let parts = kept (split_path normalized_path) in
    if same normalized_path "" || is_absolute normalized_path || has_part ".." parts
    then none
    else some (as_posix parts)
