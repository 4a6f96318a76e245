-- ===== src/Extraction.antt =====
-- `_split` of app/extraction.py: the text of a section to passages of bounded size. A text is the
-- list of its code points, so that `len` is `length`.
pub mod Strip
pub mod Ink
pub mod Bounds
use personal_vault_rag.Prelude.{
  List, Option, String, [], cut, drop, false, if◌then◌else◌, leb, length, ltb, map, none, or_else,
  some, suc, take, true, zero, ℕ, ◌++◌, ◌+◌, ◌/◌, ◌==◌, ◌∷◌, ◌≡◌,
}
use Strip.{Text, is_space, strip, collapse, rfind}

-- `L` is the type of locators.
pub record ExtractedChunk (L : Type 0) : Type 0 where
  pub text : Text
  pub kind : String
  pub heading_path : String
  pub locator : L

-- In a text that follows a newline: the length of the longest run of spaces that ends in a newline,
-- the rest of a match of `\n\s*\n`.
unfoldable pub last_newline : Text → Option ℕ
last_newline [] = none
last_newline (c ∷ cs) =
    let rest = last_newline cs in
    if is_space c
    then elim rest [ some n ↦ some (suc n) | none ↦ if c == 10 then some 1 else none ]
    else none

abbrev pub match_rest : ℕ → Text → Option ℕ
match_rest c cs = if c == 10 then last_newline cs else none

abbrev pub cons_first : ℕ → List Text → List Text
cons_first c [] = (c ∷ []) ∷ []
cons_first c (p ∷ ps) = (c ∷ p) ∷ ps

-- `re.split(r"\n\s*\n", text)`; the number counts the characters of a match that are left to skip.
unfoldable pub split_from : ℕ → Text → List Text
unfolding last_newline
split_from k [] = [] ∷ []
split_from (suc k) (c ∷ cs) = split_from k cs
split_from zero (c ∷ cs) =
    let m = match_rest c cs in
    let rest = split_from (or_else m 0) cs in
    elim m [ none ↦ cons_first c rest | some _ ↦ [] ∷ rest ]

-- Where a long paragraph is cut: at the last blank of its first `limit` characters, if that lies in
-- their second half.
unfoldable pub cut_at : ℕ → Text → ℕ
cut_at limit para = elim (rfind 32 (take limit para)) [
  | none ↦ limit
  | some i ↦ if ltb (limit / 2) i then i else limit
]

-- `while len(para) > limit`: the passages that are cut off, and what is left. Each round drops a
-- character at least, so the paragraph's length is fuel enough.
unfoldable pub cut_long : ℕ → ℕ → Text → List Text × Text
cut_long zero limit para = ([], para)
cut_long (suc fuel) limit para =
    let cut = cut_at limit para in
    let (pieces, last) = cut_long fuel limit (strip (drop cut para)) in
    if ltb limit (length para) then (strip (take cut para) ∷ pieces, last) else ([], para)

pub cut_long_more :
    (fuel limit : ℕ) (para : Text)
    → ltb limit (length para) ≡ true
    → let r = cut_long fuel limit (strip (drop (cut_at limit para) para)) in
      cut_long (suc fuel) limit para ≡ (strip (take (cut_at limit para) para) ∷ r.0, r.1)
unfolding cut_long
cut_long_more fuel limit para e = rw e

pub cut_long_done :
    (fuel limit : ℕ) (para : Text)
    → ltb limit (length para) ≡ false
    → cut_long (suc fuel) limit para ≡ ([], para)
unfolding cut_long
cut_long_done fuel limit para e = rw e

abbrev pub emit : Text → List Text
emit [] = []
emit (c ∷ cs) = (c ∷ cs) ∷ []

-- The body of the loop over the paragraphs: the passages that it completes, and the new buffer.
unfoldable pub place : ℕ → Text → Text → List Text × Text
place limit buffer [] = ([], buffer)
place limit buffer (c ∷ cs) =
    let para = c ∷ cs in
    let (pieces, last) = cut_long (length para) limit para in
    if leb (length buffer + length para + 2) limit
    then ([], strip (buffer ++ (10 ∷ 10 ∷ para)))
    else (emit buffer ++ pieces, last)

unfoldable pub pack : ℕ → Text → List Text → List Text
unfolding place
pack limit buffer [] = emit buffer
pack limit buffer (p ∷ ps) =
    let (done, buffer') = place limit buffer (strip p) in done ++ pack limit buffer' ps

unfoldable pub passages : ℕ → Text → List Text
unfolding pack split_from
passages limit [] = []
passages limit (c ∷ cs) = pack limit [] (split_from 0 (c ∷ cs))

unfoldable pub split :
    {L : Type 0} → Text → L → (heading kind : String) (limit : ℕ) → List (ExtractedChunk L)
unfolding passages
split text locator heading kind limit =
    map (λ t. record { text = t; kind = kind; heading_path = heading; locator = locator })
      (passages limit (strip (collapse text)))
