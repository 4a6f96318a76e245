-- ===== src/Artifacts/SafePaths.antt =====
-- The path that `artifact_complete` of app/main.py stores.
use Prim.Native.Char.{Char}
use text.Mathlib.TextLemmas.{nil-append, cons-append, cons-ne-nil}
use personal_vault_rag.Prelude.{
  All, Bool-cases, List, String, [], ap, arith, concat, false, inl, inr, refl, same, same_iff, some,
  subst, ◌∙◌, ◌∷◌, ◌≡◌, ◌||◌,
}
use personal_vault_rag.Artifacts.SavedPaths.{
  is_slash, cons_first, split_path, kept, is_absolute, join_parts, as_posix, has_part, saved_path,
}

abbrev NoSlash : String → Type 0
NoSlash String.[] = Unit
NoSlash (String.◌∷◌ c s) = (is_slash c ≡ false) × NoSlash s

-- A part as `kept` leaves it.
abbrev IsPart : String → Type 0
IsPart p = NoSlash p × ((same p "" ≡ false) × (same p "." ≡ false))

cons_first-NoSlash :
    (c : Char) (ps : List String)
    → is_slash c ≡ false
    → All NoSlash ps
    → All NoSlash (cons_first c ps)
cons_first-NoSlash c [] e h = ((e, tt), tt)
cons_first-NoSlash c (p ∷ ps) e h = ((e, h.0), h.1)

split_path-NoSlash : (s : String) → All NoSlash (split_path s)
unfolding split_path
split_path-NoSlash String.[] = (tt, tt)
split_path-NoSlash (String.◌∷◌ c s) = elim (Bool-cases (is_slash c)) [
  | inl e ↦ rw e (tt, split_path-NoSlash s)
  | inr e ↦ rw e (cons_first-NoSlash c (split_path s) e (split_path-NoSlash s))
]

kept-IsPart : (ps : List String) → All NoSlash ps → All IsPart (kept ps)
unfolding kept
kept-IsPart [] h = tt
kept-IsPart (p ∷ ps) h = ground (arith, kept-IsPart ps)

kept_of_IsPart : (ps : List String) → All IsPart ps → kept ps ≡ ps
unfolding kept
kept_of_IsPart [] h = refl
kept_of_IsPart (p ∷ ps) h = ground (arith, kept_of_IsPart ps)

-- A part in front of a slash or of the end is split off.
split_path-last : (p : String) → NoSlash p → split_path p ≡ p ∷ []
unfolding split_path
split_path-last String.[] h = refl
split_path-last (String.◌∷◌ c s) h = rw (h.0, split_path-last s h.1) refl

split_path-first :
    (p s : String) → NoSlash p → split_path (concat p (concat "/" s)) ≡ p ∷ split_path s
unfolding split_path
split_path-first String.[] s h = rw (nil-append, cons-append, nil-append) refl
split_path-first (String.◌∷◌ c p) s h = rw cons-append (rw (h.0, split_path-first p s h.1) refl)

split_path-join_parts :
    (p : String) (ps : List String)
    → All IsPart (p ∷ ps)
    → split_path (join_parts (p ∷ ps)) ≡ p ∷ ps
split_path-join_parts p [] h = split_path-last p h.0.0
split_path-join_parts p (q ∷ ps) h =
    split_path-first p (join_parts (q ∷ ps)) h.0.0
    ∙ ap (λ l. p ∷ l) (split_path-join_parts q ps h.1)

-- A path below the folder: it is not empty and not absolute, has no part "..", and is written in one
-- way only.
pub record IsSafe (path : String) : Type 0 where
  pub filled : same path "" ≡ false
  pub relative : is_absolute path ≡ false
  pub inside : has_part ".." (split_path path) ≡ false
  pub normal : saved_path path ≡ some path

same-cons : (c : Char) (s : String) → same (String.◌∷◌ c s) "" ≡ false
same-cons c s = elim (Bool-cases (same (String.◌∷◌ c s) "")) [
  | inl e ↦ absurd (cons-ne-nil c s ((same_iff (String.◌∷◌ c s) "").0 e))
  | inr e ↦ e
]

join_parts-relative :
    (p : String) (ps : List String)
    → IsPart p
    → (same (join_parts (p ∷ ps)) "" ≡ false) × (is_absolute (join_parts (p ∷ ps)) ≡ false)
unfolding is_absolute
join_parts-relative String.[] ps h = absurd (ground arith)
join_parts-relative (String.◌∷◌ c p) [] h = (h.1.0, h.0.0)
join_parts-relative (String.◌∷◌ c p) (q ∷ ps) h = rw cons-append (same-cons c _, h.0.0)

as_posix-IsSafe :
    (parts : List String) → All IsPart parts → has_part ".." parts ≡ false → IsSafe (as_posix parts)
unfolding as_posix saved_path
as_posix-IsSafe [] h inside = record {
  filled = unfold has_part in refl;
  relative = unfold is_absolute in refl;
  inside = unfold has_part split_path in refl;
  normal = unfold has_part split_path is_absolute kept in refl;
}
as_posix-IsSafe (p ∷ ps) h inside =
    let e = split_path-join_parts p ps h in
    let r = join_parts-relative p ps h.0 in
    let k = kept_of_IsPart (p ∷ ps) h in
    record {
      filled = r.0;
      relative = r.1;
      inside = rw e inside;
      normal = rw (r.0, r.1, e, k, inside) (unfold as_posix in refl);
    }

-- A path that is accepted is stored in a safe form, which would be accepted again as it is.
pub saved_path-IsSafe :
    (normalized_path path : String) → saved_path normalized_path ≡ some path → IsSafe path
unfolding saved_path
saved_path-IsSafe normalized_path path h =
    let parts = kept (split_path normalized_path) in
    elim (Bool-cases
      (same normalized_path "" || is_absolute normalized_path || has_part ".." parts)) [
        | inl e ↦ absurd (ground arith)
        | inr e ↦
            let q : as_posix parts ≡ path = ground arith in
            let inside : has_part ".." parts ≡ false = ground arith in
            subst IsSafe q (
              as_posix-IsSafe parts
                (kept-IsPart (split_path normalized_path) (split_path-NoSlash normalized_path))
                inside)
      ]
