-- ===== src/Extraction/Bounds.antt =====
-- Every passage is filled, and none is longer than the limit.
use personal_vault_rag.Prelude.{
  All, All-append, Bool, Bool-cases, List, Option-cases, String, [], arith, drop, false, inl, inr,
  leb, leb→le, length, length-append, length-drop, length-take, ltb, ltb→lt, map, some, subst, suc,
  sym, take, true, zero, ℕ, ◌++◌, ◌+◌, ◌<◌, ◌∷◌, ◌≡◌, ◌≤◌,
}
use personal_vault_rag.Extraction.Strip.{
  Text, is_space, lstrip, rstrip, strip, keep_from, rfind, collapse,
}
use personal_vault_rag.Extraction.{
  ExtractedChunk, split_from, cut_at, cut_long, cut_long_more, cut_long_done, emit, place, pack,
  passages, split,
}

-- A text that is empty or begins with a character that is no white space.
abbrev IsClean : Text → Type 0
IsClean [] = Unit
IsClean (c ∷ cs) = is_space c ≡ false

lstrip-IsClean : (s : Text) → IsClean (lstrip s)
unfolding lstrip
lstrip-IsClean [] = tt
lstrip-IsClean (c ∷ s) = elim (Bool-cases (is_space c)) [
  | inl e ↦ rw e (lstrip-IsClean s)
  | inr e ↦ rw e e
]

rstrip_clean : (c : ℕ) (s : Text) → is_space c ≡ false → rstrip (c ∷ s) ≡ c ∷ rstrip s
unfolding rstrip
rstrip_clean c s e = rw e

rstrip-IsClean : (s : Text) → IsClean s → IsClean (rstrip s)
rstrip-IsClean [] h = unfold rstrip in tt
rstrip-IsClean (c ∷ s) h = rw (rstrip_clean c s h) h

strip-IsClean : (s : Text) → IsClean (strip s)
unfolding strip
strip-IsClean s = rstrip-IsClean (lstrip s) (lstrip-IsClean s)

length-lstrip : (s : Text) → length (lstrip s) ≤ length s
unfolding lstrip
length-lstrip [] = omega arith
length-lstrip (c ∷ s) = ground (arith, length-lstrip s)

length-keep_from : (b : Bool) (c : ℕ) (s : Text) → length (keep_from b c s) ≤ suc (length s)
length-keep_from true c [] = omega arith
length-keep_from true c (d ∷ s) = omega arith
length-keep_from false c s = omega arith

length-rstrip : (s : Text) → length (rstrip s) ≤ length s
unfolding rstrip
length-rstrip [] = omega arith
length-rstrip (c ∷ s) = omega (arith, length-keep_from (is_space c) c (rstrip s), length-rstrip s)

length-strip : (s : Text) → length (strip s) ≤ length s
unfolding strip
length-strip s = omega (arith, length-rstrip (lstrip s), length-lstrip s)

-- A filled passage within the limit.
abbrev pub Fits : ℕ → Text → Type 0
Fits limit t = (1 ≤ length t) × (length t ≤ limit)

rfind-lt : (c : ℕ) (s : Text) (i : ℕ) → rfind c s ≡ some i → i < length s
unfolding rfind
rfind-lt c [] i h = absurd (ground arith)
rfind-lt c (d ∷ s) i h = elim (Option-cases (rfind c s)) [
  | inl e ↦ ground arith
  | inr (j, e) ↦ ground (arith, rfind-lt c s j)
]

cut_at_bounds :
    (limit : ℕ) (para : Text) → 1 ≤ limit → (1 ≤ cut_at limit para) × (cut_at limit para ≤ limit)
unfolding cut_at
cut_at_bounds limit para h = elim (Option-cases (rfind 32 (take limit para))) [
  | inl e ↦ ground arith
  | inr (i, e) ↦ ground (arith, rfind-lt 32 (take limit para) i e, length-take limit para)
]

strip_clean_pos : (c : ℕ) (s : Text) → is_space c ≡ false → 1 ≤ length (strip (c ∷ s))
unfolding strip lstrip
strip_clean_pos c s e = rw (e, rstrip_clean c s e) (omega arith)

piece-Fits :
    (limit n : ℕ) (para : Text)
    → 1 ≤ n
    → n ≤ limit
    → IsClean para
    → limit < length para
    → Fits limit (strip (take n para))
piece-Fits limit zero para one most clean long = absurd (omega arith)
piece-Fits limit (suc n) [] one most clean long = absurd (omega arith)
piece-Fits limit (suc n) (c ∷ cs) one most clean long = (
  strip_clean_pos c (take n cs) clean,
  omega (arith, length-strip (c ∷ take n cs), length-take n cs),
)

-- Passages that fit, and a rest within the limit.
abbrev Cuts : ℕ → List Text × Text → Type 0
Cuts limit r = All (Fits limit) r.0 × (length r.1 ≤ limit)

cut_long-Cuts :
    (fuel limit : ℕ) (para : Text)
    → 1 ≤ limit
    → length para ≤ fuel
    → IsClean para
    → Cuts limit (cut_long fuel limit para)
cut_long-Cuts zero limit para one few clean = unfold cut_long in (tt, omega arith)
cut_long-Cuts (suc fuel) limit para one few clean = elim (Bool-cases (ltb limit (length para))) [
  | inl e ↦
      let n = cut_at limit para in
      let (low, high) = cut_at_bounds limit para one in
      let long = ltb→lt limit (length para) e in
      let shorter : length (strip (drop n para)) ≤ fuel =
        omega (arith, length-strip (drop n para), length-drop n para) in
      let (done, left) =
        cut_long-Cuts fuel limit (strip (drop n para)) one shorter (strip-IsClean (drop n para)) in
      subst (Cuts limit) (sym (cut_long_more fuel limit para e))
        ((piece-Fits limit n para low high clean long, done), left)
  | inr e ↦ subst (Cuts limit) (sym (cut_long_done fuel limit para e)) (tt, ground arith)
]

emit-Fits : (limit : ℕ) (b : Text) → length b ≤ limit → All (Fits limit) (emit b)
emit-Fits limit [] h = tt
emit-Fits limit (c ∷ b) h = ((omega arith, h), tt)

place-Cuts :
    (limit : ℕ) (buffer para : Text)
    → 1 ≤ limit
    → length buffer ≤ limit
    → IsClean para
    → Cuts limit (place limit buffer para)
unfolding place
place-Cuts limit buffer [] one small clean = (tt, small)
place-Cuts limit buffer (c ∷ cs) one small clean =
    let para : Text = c ∷ cs in
    elim (Bool-cases (leb (length buffer + length (c ∷ cs) + 2) limit)) [
      | inl e ↦ rw e (
        tt,
        omega (
          arith,
          leb→le _ _ e,
          length-strip (buffer ++ (10 ∷ 10 ∷ para)),
          length-append buffer (10 ∷ 10 ∷ para),
        ),
      )
      | inr e ↦
          let (done, left) = cut_long-Cuts (length para) limit para one (omega arith) clean in
          rw e (All-append (Fits limit) (emit buffer) _ (emit-Fits limit buffer small) done, left)
    ]

pack-Fits :
    (limit : ℕ) (buffer : Text) (ps : List Text)
    → 1 ≤ limit
    → length buffer ≤ limit
    → All (Fits limit) (pack limit buffer ps)
unfolding pack
pack-Fits limit buffer [] one small = emit-Fits limit buffer small
pack-Fits limit buffer (p ∷ ps) one small =
    let (done, left) = place-Cuts limit buffer (strip p) one small (strip-IsClean p) in
    All-append (Fits limit) _ _ done (pack-Fits limit (place limit buffer (strip p)).1 ps one left)

passages-Fits : (limit : ℕ) (s : Text) → 1 ≤ limit → All (Fits limit) (passages limit s)
unfolding passages
passages-Fits limit [] one = tt
passages-Fits limit (c ∷ cs) one = pack-Fits limit [] (split_from 0 (c ∷ cs)) one (omega arith)

All-chunks :
    {L : Type 0} (limit : ℕ) (locator : L) (heading kind : String) (ts : List Text)
    → All (Fits limit) ts
    → All
        (λ (c : ExtractedChunk L). Fits limit c.text)
        (map (λ t. record { text = t; kind = kind; heading_path = heading; locator = locator }) ts)
All-chunks limit locator heading kind [] h = tt
All-chunks limit locator heading kind (t ∷ ts) h =
    (h.0, All-chunks limit locator heading kind ts h.1)

-- With a limit of 1 at least, every passage that a text is split to has between 1 and `limit`
-- characters.
pub split-Fits :
    {L : Type 0} (text : Text) (locator : L) (heading kind : String) (limit : ℕ)
    → 1 ≤ limit
    → All (λ (c : ExtractedChunk L). Fits limit c.text) (split text locator heading kind limit)
unfolding split
split-Fits text locator heading kind limit one =
    All-chunks limit locator heading kind _ (passages-Fits limit (strip (collapse text)) one)
