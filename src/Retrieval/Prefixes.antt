-- ===== src/Retrieval/Prefixes.antt =====
-- The prefixes of a path that the vector store is filtered by agree with the check of `_load_chunks`
-- of app/retrieval.py.
use mathlib.Core.List.{append_assoc}
use personal_vault_rag.Prelude.{
  All, Bool-cases, List, [], ap, arith, false, inl, inr, length, subst, length-append, ap₂, ◌≤◌,
  refl, suc, sym, take, ℕ, ◌++◌, ◌+◌, ◌==◌, ◌||◌, ◌∙◌, ◌∷◌, ◌≡◌,
}
use personal_vault_rag.Table.Each.{has}
use personal_vault_rag.Table.{fetch_one}
use personal_vault_rag.Retrieval.Paths.{
  Text, slash, split_slash, filled, join_slash, joins, normalized_prefix, path_prefix_values,
  in_path_prefixes, same_text, text_starts_with, within_prefix,
}

-- The text has no slash.
abbrev NoSlash : Text → Type 0
NoSlash s = All (λ c. (c == slash) ≡ false) s

-- The text is not empty.
abbrev pub IsFilled : Text → Type 0
IsFilled p = 1 ≤ length p

-- A text, and then what it is joined to part by part.
more : Text → List Text → List Text
more acc [] = []
more acc (x ∷ xs) = (acc ++ slash ∷ x) ∷ more (acc ++ slash ∷ x) xs

whole : Text → List Text → Text
whole acc [] = acc
whole acc (x ∷ xs) = whole (acc ++ slash ∷ x) xs

same_text_sym : (s t : Text) → same_text s t ≡ same_text t s
unfolding same_text
same_text_sym [] [] = refl
same_text_sym [] (d ∷ t) = refl
same_text_sym (c ∷ s) [] = refl
same_text_sym (c ∷ s) (d ∷ t) = ground (arith, same_text_sym s t)

-- Without a slash, no text followed by a slash starts it.
text_starts_with-NoSlash : (x q : Text) → NoSlash x → text_starts_with x (q ++ slash ∷ []) ≡ false
unfolding text_starts_with
text_starts_with-NoSlash [] [] h = refl
text_starts_with-NoSlash [] (d ∷ q) h = refl
text_starts_with-NoSlash (c ∷ x) [] h = ground (arith, h.0)
text_starts_with-NoSlash (c ∷ x) (d ∷ q) h = ground (arith, text_starts_with-NoSlash x q h.1)

text_starts_with-append :
    (acc x q : Text)
    → NoSlash x
    → text_starts_with (acc ++ slash ∷ x) (q ++ slash ∷ [])
      ≡ (same_text acc q || text_starts_with acc (q ++ slash ∷ []))
unfolding text_starts_with same_text
text_starts_with-append [] x [] h = refl
text_starts_with-append [] x (c ∷ q) h = ground (arith, text_starts_with-NoSlash x q h)
text_starts_with-append (a ∷ acc) x [] h = refl
text_starts_with-append (a ∷ acc) x (c ∷ q) h = ground (arith, text_starts_with-append acc x q h)

-- The texts of `more` and the first hold `q` where the whole is `q` or lies below it.
has-more :
    (acc q : Text) (xs : List Text)
    → All NoSlash xs
    → (has (same_text q) (acc ∷ more acc xs) || text_starts_with acc (q ++ slash ∷ []))
      ≡ within_prefix (whole acc xs) q
unfolding fetch_one within_prefix more whole
has-more acc q [] h = ground (arith, same_text_sym acc q)
has-more acc q (x ∷ xs) h = ground (
  arith,
  has-more (acc ++ slash ∷ x) q xs h.1,
  text_starts_with-append acc x q h.0,
  same_text_sym acc q,
)

join_slash-append :
    (p : Text) (ps : List Text) (x : Text)
    → join_slash ((p ∷ ps) ++ x ∷ []) ≡ join_slash (p ∷ ps) ++ slash ∷ x
unfolding join_slash
join_slash-append p [] x = refl
join_slash-append p (q ∷ ps) x =
    ap (λ l. p ++ slash ∷ l) (join_slash-append q ps x)
    ∙ sym (append_assoc p (slash ∷ join_slash (q ∷ ps)) (slash ∷ x))

take-next :
    (ps : List Text) (x : Text) (xs : List Text)
    → take (suc (length ps)) (ps ++ x ∷ xs) ≡ ps ++ x ∷ []
take-next [] x xs = refl
take-next (p ∷ ps) x xs = ap (λ l. p ∷ l) (take-next ps x xs)

-- The joins of a path's first parts, after those of `p ∷ ps`.
joins-more :
    (n : ℕ) (p : Text) (ps xs : List Text)
    → n ≡ suc (length (p ∷ ps))
    → joins (length xs) n ((p ∷ ps) ++ xs) ≡ more (join_slash (p ∷ ps)) xs
unfolding joins more
joins-more n p ps [] e = refl
joins-more n p ps (x ∷ xs) e =
    let first : join_slash (take n ((p ∷ ps) ++ x ∷ xs)) ≡ join_slash (p ∷ ps) ++ slash ∷ x =
      rw e (ap join_slash (take-next (p ∷ ps) x xs) ∙ join_slash-append p ps x) in
    let regroup : (p ∷ ps) ++ x ∷ xs ≡ (p ∷ (ps ++ x ∷ [])) ++ xs =
      sym (append_assoc (p ∷ ps) (x ∷ []) xs) in
    let rest =
      joins-more (n + 1) p (ps ++ x ∷ []) xs (omega (arith, e, length-append ps (x ∷ []))) in
    ap₂ (λ a b. a ∷ b) first
      (ap (joins (length xs) (n + 1)) regroup
        ∙ rest
        ∙ ap (λ a. more a xs) (join_slash-append p ps x))

-- What the parts of a text are joined to.
whole_of : List Text → Text
whole_of [] = []
whole_of (p ∷ ps) = whole p ps

whole-cons : (c : ℕ) (acc : Text) (xs : List Text) → whole (c ∷ acc) xs ≡ c ∷ whole acc xs
unfolding whole
whole-cons c acc [] = refl
whole-cons c acc (x ∷ xs) = whole-cons c (acc ++ slash ∷ x) xs

split_slash-nonempty : (s : Text) → (p : Text) × ((ps : List Text) × (split_slash s ≡ p ∷ ps))
unfolding split_slash
split_slash-nonempty [] = ([], ([], refl))
split_slash-nonempty (c ∷ s) =
    let (p, (ps, e)) = split_slash-nonempty s in
    elim (Bool-cases (c == slash)) [
      | inl h ↦ rw h ([], (split_slash s, refl))
      | inr h ↦ rw (h, e) (c ∷ p, (ps, refl))
    ]

whole_of-split_slash : (s : Text) → whole_of (split_slash s) ≡ s
unfolding split_slash whole_of whole
whole_of-split_slash [] = refl
whole_of-split_slash (c ∷ s) =
    let (p, (ps, e)) = split_slash-nonempty s in
    let rest : whole p ps ≡ s = ap whole_of (sym e) ∙ whole_of-split_slash s in
    elim (Bool-cases (c == slash)) [
      | inl h ↦
          let q : slash ≡ c = ground arith in
          rw (h, e) (whole-cons slash p ps ∙ ap₂ (λ a b. a ∷ b) q rest)
      | inr h ↦ rw (h, e) (whole-cons c p ps ∙ ap (λ l. c ∷ l) rest)
    ]

split_slash-NoSlash : (s : Text) → All NoSlash (split_slash s)
unfolding split_slash
split_slash-NoSlash [] = (tt, tt)
split_slash-NoSlash (c ∷ s) =
    let (p, (ps, e)) = split_slash-nonempty s in
    let rest : All NoSlash (p ∷ ps) = subst (All NoSlash) e (split_slash-NoSlash s) in
    elim (Bool-cases (c == slash)) [
      | inl h ↦ rw h (tt, split_slash-NoSlash s)
      | inr h ↦ rw (h, e) ((h, rest.0), rest.1)
    ]

filled-IsFilled : (ps : List Text) → All IsFilled ps → filled ps ≡ ps
unfolding filled
filled-IsFilled [] h = refl
filled-IsFilled ([] ∷ ps) h = absurd (omega (arith, h.0))
filled-IsFilled ((c ∷ p) ∷ ps) h = ap (λ l. (c ∷ p) ∷ l) (filled-IsFilled ps h.1)

-- Where the parts `p ∷ ps` of a text are filled, its prefixes are these.
prefixes-more : (p : Text) (ps : List Text) → joins (length (p ∷ ps)) 1 (p ∷ ps) ≡ p ∷ more p ps
unfolding joins join_slash
prefixes-more p ps = ap (λ l. p ∷ l) (joins-more 2 p [] ps refl)

-- Where no part between the slashes of a normalized path is empty, a prefix passes the filter of the
-- vector store exactly if it passes the check of `_load_chunks`.
pub in_path_prefixes-within_prefix :
    (fold : ℕ → Text) (prefix relative_path : Text)
    → All IsFilled (split_slash (normalized_prefix fold relative_path))
    → in_path_prefixes fold prefix relative_path
      ≡ within_prefix (normalized_prefix fold relative_path) (normalized_prefix fold prefix)
unfolding in_path_prefixes path_prefix_values whole_of
in_path_prefixes-within_prefix fold prefix relative_path h =
    let n = normalized_prefix fold relative_path in
    let q = normalized_prefix fold prefix in
    let (p, (ps, e)) = split_slash-nonempty n in
    let parts : All NoSlash (p ∷ ps) = subst (All NoSlash) e (split_slash-NoSlash n) in
    let all : whole p ps ≡ n = ap whole_of (sym e) ∙ whole_of-split_slash n in
    let values : path_prefix_values fold relative_path ≡ p ∷ more p ps =
      rw (filled-IsFilled (split_slash n) h, e) (prefixes-more p ps) in
    let found : has (same_text q) (p ∷ more p ps) ≡ within_prefix (whole p ps) q =
      ground (arith, has-more p q ps parts.1, text_starts_with-NoSlash p q parts.0) in
    ap (has (same_text q)) values ∙ found ∙ ap (λ t. within_prefix t q) all
