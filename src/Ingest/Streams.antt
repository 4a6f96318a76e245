-- ===== src/Ingest/Streams.antt =====
-- What `ingest` of app/main.py reads from a stream.
use mathlib.Core.List.{append_assoc, append-nil}
use personal_vault_rag.Prelude.{
  Bool-cases, List, false, [], ap, arith, inl, inr, length, length-append, ltb, ok, refl, sym, ℕ,
  ◌+◌, ◌++◌, ◌∙◌, ◌∷◌, ◌≡◌, ◌≤◌, ◌||◌,
}
use personal_vault_rag.Ingest.{Bytes, receive}

-- The bytes of the blocks in front of the first empty one.
abbrev pub stream : List Bytes → Bytes
stream [] = []
stream ([] ∷ blocks) = []
stream ((b ∷ bs) ∷ blocks) = (b ∷ bs) ++ stream blocks

module _ (limit size : ℕ) where
  -- A stream that is taken is taken whole, and is within the limits.
  pub receive-ok :
      (received : ℕ) (written : Bytes) (blocks : List Bytes) (total : ℕ) (bytes : Bytes)
      → receive limit size received written blocks ≡ ok (total, bytes)
      → (bytes ≡ written ++ stream blocks) × (total ≡ received + length (stream blocks))
  unfolding receive
  receive-ok received written [] total bytes h =
      let q : written ≡ bytes = ground arith in (sym q ∙ sym (append-nil written), ground arith)
  receive-ok received written ([] ∷ blocks) total bytes h =
      let q : written ≡ bytes = ground arith in (sym q ∙ sym (append-nil written), ground arith)
  receive-ok received written ((b ∷ bs) ∷ blocks) total bytes h =
      let sum = received + length (b ∷ bs) in
      elim (Bool-cases (ltb limit sum || ltb (size + 1) sum)) [
        | inl e ↦ absurd (ground arith)
        | inr e ↦
            let (w, t) = receive-ok sum (written ++ (b ∷ bs)) blocks total bytes (rw e at h) in
            (
              w ∙ append_assoc written (b ∷ bs) (stream blocks),
              omega (arith, t, length-append (b ∷ bs) (stream blocks)),
            )
      ]

  -- A stream that keeps to the limits is taken.
  pub receive-fits :
      (received : ℕ) (written : Bytes) (blocks : List Bytes)
      → received + length (stream blocks) ≤ limit
      → received + length (stream blocks) ≤ size + 1
      → receive limit size received written blocks
        ≡ ok (received + length (stream blocks), written ++ stream blocks)
  unfolding receive
  receive-fits received written [] h k = rw append-nil (ap (λ n. ok (n, written)) (omega arith))
  receive-fits received written ([] ∷ blocks) h k =
      rw append-nil (ap (λ n. ok (n, written)) (omega arith))
  receive-fits received written ((b ∷ bs) ∷ blocks) h k =
      let sum = received + length (b ∷ bs) in
      let l = length-append (b ∷ bs) (stream blocks) in
      let n : received + length ((b ∷ bs) ++ stream blocks) ≡ sum + length (stream blocks) =
        omega (arith, l) in
      let small : (ltb limit sum || ltb (size + 1) sum) ≡ false = ground arith in
      rw small (
        receive-fits sum (written ++ (b ∷ bs)) blocks (omega arith) (omega arith)
        ∙ rw (append_assoc, n) refl)
