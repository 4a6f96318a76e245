-- ===== src/Extraction/Strip.antt =====
-- Python's `strip`, `rfind` and the substitution of blanks, on lists of code points.
use personal_vault_rag.Prelude.{
  Bool, List, Option, [], false, if◌then◌else◌, leb, none, some, suc, true, ℕ, ◌&&◌, ◌==◌, ◌||◌,
  ◌∷◌,
}

abbrev pub Text : Type 0
Text = List ℕ

-- `str.isspace` of a character, and `\s` of a regular expression.
unfoldable pub is_space : ℕ → Bool
is_space c =
    (leb 9 c && leb c 13)
    || (leb 28 c && leb c 32)
    || (c == 0x85)
    || (c == 0xa0)
    || (c == 0x1680)
    || (leb 0x2000 c && leb c 0x200a)
    || (c == 0x2028)
    || (c == 0x2029)
    || (c == 0x202f)
    || (c == 0x205f)
    || (c == 0x3000)

unfoldable pub lstrip : Text → Text
lstrip [] = []
lstrip (c ∷ cs) = let rest = lstrip cs in if is_space c then rest else c ∷ cs

abbrev pub keep_from : Bool → ℕ → Text → Text
keep_from true c [] = []
keep_from true c (d ∷ ds) = c ∷ d ∷ ds
keep_from false c ds = c ∷ ds

unfoldable pub rstrip : Text → Text
rstrip [] = []
rstrip (c ∷ cs) = keep_from (is_space c) c (rstrip cs)

unfoldable pub strip : Text → Text
unfolding lstrip rstrip
strip s = rstrip (lstrip s)

-- `[ \t]`
unfoldable pub is_blank : ℕ → Bool
is_blank c = (c == 32) || (c == 9)

-- The flag tells that the character before was blank.
unfoldable pub collapse_from : Bool → Text → Text
collapse_from b [] = []
collapse_from b (c ∷ cs) =
    let rest = collapse_from (is_blank c) cs in
    if is_blank c then (if b then rest else 32 ∷ rest) else c ∷ rest

-- `re.sub(r"[ \t]+", " ", s)`
unfoldable pub collapse : Text → Text
unfolding collapse_from is_blank
collapse s = collapse_from false s

-- The last position of a character.
unfoldable pub rfind : ℕ → Text → Option ℕ
rfind c [] = none
rfind c (d ∷ ds) = elim (rfind c ds) [
  | some i ↦ some (suc i)
  | none ↦ if d == c then some 0 else none
]
