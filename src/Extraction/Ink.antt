-- ===== src/Extraction/Ink.antt =====
-- Splitting loses no text: the passages hold every character but white space, in order.
use personal_vault_rag.Prelude.{
  All, ◌≤◌, Bool, Bool-cases, List, Option-cases, String, [], ap, arith, drop, false, if◌then◌else◌,
  inl, inr, leb, length, ltb, map, refl, some, suc, sym, take, take-append-drop, true, zero, ℕ,
  ◌++◌, ◌+◌, ◌∙◌, ◌∷◌, ◌≡◌,
}
use personal_vault_rag.Extraction.Bounds.{Fits, split-Fits}
use personal_vault_rag.Extraction.Strip.{
  Text, is_space, lstrip, rstrip, strip, keep_from, is_blank, collapse_from, collapse,
}
use mathlib.Core.List.{append_assoc, append-nil}
use personal_vault_rag.Extraction.{
  ExtractedChunk, last_newline, match_rest, cons_first, split_from, cut_at, cut_long, cut_long_more,
  cut_long_done, emit, place, pack, passages, split,
}

-- The characters that are no white space.
unfoldable pub ink : Text → Text
ink [] = []
ink (c ∷ cs) = let rest = ink cs in if is_space c then rest else c ∷ rest

pub ink-append : (s t : Text) → ink (s ++ t) ≡ ink s ++ ink t
unfolding ink
ink-append [] t = refl
ink-append (c ∷ s) t = elim (Bool-cases (is_space c)) [
  | inl e ↦ rw (e, ink-append s t)
  | inr e ↦ rw (e, ink-append s t)
]

ink-lstrip : (s : Text) → ink (lstrip s) ≡ ink s
unfolding ink lstrip
ink-lstrip [] = refl
ink-lstrip (c ∷ s) = ground (arith, ink-lstrip s)

ink-keep_from : (c : ℕ) (s : Text) → ink (keep_from (is_space c) c s) ≡ ink (c ∷ s)
unfolding ink
ink-keep_from c [] = ground arith
ink-keep_from c (d ∷ ds) = ground arith

ink-rstrip : (s : Text) → ink (rstrip s) ≡ ink s
unfolding ink rstrip
ink-rstrip [] = refl
ink-rstrip (c ∷ s) = ink-keep_from c (rstrip s) ∙ rw (ink-rstrip s)

pub ink-strip : (s : Text) → ink (strip s) ≡ ink s
unfolding strip
ink-strip s = ink-rstrip (lstrip s) ∙ ink-lstrip s

blank_space : (c : ℕ) → is_blank c ≡ true → is_space c ≡ true
unfolding is_blank is_space
blank_space c h = ground arith

space_32 : is_space 32 ≡ true
unfolding is_space
space_32 = refl

ink-collapse_from : (b : Bool) (s : Text) → ink (collapse_from b s) ≡ ink s
unfolding ink collapse_from
ink-collapse_from b [] = refl
ink-collapse_from true (c ∷ s) = ground (arith, blank_space c, ink-collapse_from (is_blank c) s)
ink-collapse_from false (c ∷ s) =
    ground (arith, blank_space c, space_32, ink-collapse_from (is_blank c) s)

space_10 : is_space 10 ≡ true
unfolding is_space
space_10 = refl

match_rest-eq-some :
    (c : ℕ) (cs : Text) (n : ℕ) → match_rest c cs ≡ some n → (c ≡ 10) × (last_newline cs ≡ some n)
match_rest-eq-some c cs n e = ground arith

ink-drop : (cs : Text) (n : ℕ) → last_newline cs ≡ some n → ink (drop n cs) ≡ ink cs
unfolding ink last_newline
ink-drop [] n h = absurd (ground arith)
ink-drop (c ∷ cs) n h = elim (Option-cases (last_newline cs)) [
  | inl e ↦ let q : n ≡ 1 = ground arith in rw q (ground arith)
  | inr (m, e) ↦ let q : n ≡ suc m = ground arith in rw q (ground (arith, ink-drop cs m e))
]

-- The characters of the texts of a list, without white space.
unfoldable pub ink_all : List Text → Text
ink_all [] = []
ink_all (t ∷ ts) = ink t ++ ink_all ts

ink_all-append : (ps qs : List Text) → ink_all (ps ++ qs) ≡ ink_all ps ++ ink_all qs
unfolding ink_all
ink_all-append [] qs = refl
ink_all-append (p ∷ ps) qs =
    rw (ink_all-append ps qs) (sym (append_assoc (ink p) (ink_all ps) (ink_all qs)))

ink_all-cons_first :
    (c : ℕ) (ps : List Text) → ink_all (cons_first c ps) ≡ ink (c ∷ []) ++ ink_all ps
unfolding ink_all ink
ink_all-cons_first c [] = refl
ink_all-cons_first c (p ∷ ps) = ground arith

ink_all-split_from : (k : ℕ) (s : Text) → ink_all (split_from k s) ≡ ink (drop k s)
unfolding split_from ink_all ink
ink_all-split_from zero [] = refl
ink_all-split_from (suc k) [] = refl
ink_all-split_from (suc k) (c ∷ cs) = ink_all-split_from k cs
ink_all-split_from zero (c ∷ cs) = elim (Option-cases (match_rest c cs)) [
  | inl e ↦
      let ih = ink_all-split_from 0 cs in
      let rec : split_from zero (c ∷ cs) ≡ cons_first c (split_from 0 cs) = ground arith in
      ap ink_all rec ∙ ink_all-cons_first c (split_from 0 cs) ∙ ground (arith, ih)
  | inr (n, e) ↦
      let ih = ink_all-split_from n cs in
      let rec : split_from zero (c ∷ cs) ≡ [] ∷ split_from n cs = ground arith in
      let (newline, found) = match_rest-eq-some c cs n e in
      ap ink_all rec ∙ ih ∙ ink-drop cs n found ∙ ground (arith, space_10)
]

ink-emit : (b : Text) → ink_all (emit b) ≡ ink b
unfolding ink_all ink
ink-emit [] = refl
ink-emit (c ∷ b) = append-nil (ink (c ∷ b))

-- The ink of passages and of what is left.
abbrev ink_of : List Text × Text → Text
ink_of r = ink_all r.0 ++ ink r.1

ink_of-cons : (t : Text) (r : List Text × Text) → ink_of (strip t ∷ r.0, r.1) ≡ ink t ++ ink_of r
unfolding ink_all
ink_of-cons t r =
    append_assoc (ink (strip t)) (ink_all r.0) (ink r.1) ∙ ap (λ s. s ++ ink_of r) (ink-strip t)

ink-cut_long : (fuel limit : ℕ) (para : Text) → ink_of (cut_long fuel limit para) ≡ ink para
unfolding cut_long ink_all
ink-cut_long zero limit para = refl
ink-cut_long (suc fuel) limit para = elim (Bool-cases (ltb limit (length para))) [
  | inl e ↦
      let n = cut_at limit para in
      ap ink_of (cut_long_more fuel limit para e)
      ∙ ink_of-cons (take n para) (cut_long fuel limit (strip (drop n para)))
      ∙ ap (λ s. ink (take n para) ++ s)
          (ink-cut_long fuel limit (strip (drop n para)) ∙ ink-strip (drop n para))
      ∙ sym (ink-append (take n para) (drop n para))
      ∙ ap ink (take-append-drop n para)
  | inr e ↦ ap ink_of (cut_long_done fuel limit para e)
]

ink_newlines : (t : Text) → ink (10 ∷ 10 ∷ t) ≡ ink t
unfolding ink
ink_newlines t = ground (arith, space_10)

ink-place :
    (limit : ℕ) (buffer para : Text) → ink_of (place limit buffer para) ≡ ink buffer ++ ink para
unfolding place ink_all
ink-place limit buffer [] = unfold ink in sym (append-nil (ink buffer))
ink-place limit buffer (c ∷ cs) =
    let para : Text = c ∷ cs in
    let r = cut_long (length para) limit para in
    elim (Bool-cases (leb (length buffer + length (c ∷ cs) + 2) limit)) [
      | inl e ↦ rw e (
          ink-strip (buffer ++ (10 ∷ 10 ∷ para))
          ∙ ink-append buffer (10 ∷ 10 ∷ para)
          ∙ ap (λ s. ink buffer ++ s) (ink_newlines para))
      | inr e ↦ rw e (
          ap (λ s. s ++ ink r.1) (ink_all-append (emit buffer) r.0)
          ∙ append_assoc (ink_all (emit buffer)) (ink_all r.0) (ink r.1)
          ∙ ap (λ s. s ++ ink_of r) (ink-emit buffer)
          ∙ ap (λ s. ink buffer ++ s) (ink-cut_long (length para) limit para))
    ]

ink-pack :
    (limit : ℕ) (buffer : Text) (ps : List Text)
    → ink_all (pack limit buffer ps) ≡ ink buffer ++ ink_all ps
unfolding pack
ink-pack limit buffer [] = unfold ink_all in ink-emit buffer ∙ sym (append-nil (ink buffer))
ink-pack limit buffer (p ∷ ps) =
    let r = place limit buffer (strip p) in
    ink_all-append r.0 (pack limit r.1 ps)
    ∙ ap (λ s. ink_all r.0 ++ s) (ink-pack limit r.1 ps)
    ∙ sym (append_assoc (ink_all r.0) (ink r.1) (ink_all ps))
    ∙ ap (λ s. s ++ ink_all ps) (ink-place limit buffer (strip p))
    ∙ append_assoc (ink buffer) (ink (strip p)) (ink_all ps)
    ∙ ap (λ s. ink buffer ++ (s ++ ink_all ps)) (ink-strip p)
    ∙ unfold ink_all in refl

ink-passages : (limit : ℕ) (s : Text) → ink_all (passages limit s) ≡ ink s
unfolding passages
ink-passages limit [] = unfold ink_all ink in refl
ink-passages limit (c ∷ cs) =
    ink-pack limit [] (split_from 0 (c ∷ cs)) ∙ unfold ink in ink_all-split_from 0 (c ∷ cs)

abbrev pub texts : {L : Type 0} → List (ExtractedChunk L) → List Text
texts chunks = map (λ c. c.text) chunks

texts-map :
    {L : Type 0} (locator : L) (heading kind : String) (ts : List Text)
    → texts
        (map (λ t. record { text = t; kind = kind; heading_path = heading; locator = locator }) ts)
      ≡ ts
texts-map locator heading kind [] = refl
texts-map locator heading kind (t ∷ ts) = ap (λ l. t ∷ l) (texts-map locator heading kind ts)

ink-split :
    {L : Type 0} (text : Text) (locator : L) (heading kind : String) (limit : ℕ)
    → ink_all (texts (split text locator heading kind limit)) ≡ ink text
unfolding split collapse
ink-split text locator heading kind limit =
    ap ink_all (texts-map locator heading kind (passages limit (strip (collapse text))))
    ∙ ink-passages limit (strip (collapse text))
    ∙ ink-strip (collapse text)
    ∙ ink-collapse_from false text

-- With a limit of 1 at least, every passage that a text is split to has between 1 and `limit`
-- characters, and the passages, one after another, hold the characters of the text that are not
-- white space, each as often and in the same order.
pub split-IsWhole :
    {L : Type 0} (text : Text) (locator : L) (heading kind : String) (limit : ℕ)
    → 1 ≤ limit
    → let passages = split text locator heading kind limit in
      All (λ (c : ExtractedChunk L). Fits limit c.text) passages
      × (ink_all (texts passages) ≡ ink text)
split-IsWhole text locator heading kind limit one =
    (split-Fits text locator heading kind limit one, ink-split text locator heading kind limit)
