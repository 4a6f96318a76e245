-- ===== src/Provider/Spending.antt =====
-- What the calls of app/provider.py do to the ledger.
use personal_vault_rag.Prelude.{
  All, All-append, List, Option, Option-cases, Result, String, [], arith, concat, inl, inr, none,
  ok, raise, refl, same, same_refl, some, true, ℕ, ◌++◌, ◌∷◌, ◌≡◌, ◌≤◌, ◌⊎◌,
}
use personal_vault_rag.Db.{Vault, Usage, UsageState}
use personal_vault_rag.Table.{count}
use personal_vault_rag.Table.Laws.{All-of_count_zero, update-last}
use personal_vault_rag.Budget.{
  Reservation, new_usage, find_vault, reserve, complete, mark_uncertain,
}
use personal_vault_rag.Budget.Limit.{
  IsWithin, Reach, here, wait, next, reserves, completes, doubts, reserve-eq-ok, Reach-IsWithin,
}
use personal_vault_rag.Provider.{ProviderError, Attempt, Outcome, prepare, settle, attempt}

-- A new identifier: no row of the ledger has it.
abbrev pub IsFresh : Attempt → List Usage → Type 0
IsFresh a ledger = count (λ u. same u.id (concat "use_" a.use_uuid)) ledger ≡ 0

-- An attempt either leaves the ledger, or adds one row, which is settled when the call is over; a
-- value comes only with a row that is complete.
pub data Books {V : Type 0} (ledger : List Usage) (o : Outcome V) : Type 0 where
  untouched : (e : _) → o ≡ (ledger, raise e) → Books ledger o
  settled :
      (row : Usage) (v : V)
      → row.state ≡ UsageState.complete
      → o ≡ (ledger ++ row ∷ [], ok v)
      → Books ledger o
  unsettled :
      (row : Usage) (e : _)
      → (row.state ≡ UsageState.uncertain) ⊎ (row.state ≡ UsageState.released)
      → o ≡ (ledger ++ row ∷ [], raise e)
      → Books ledger o

abbrev pub Costs : {V : Type 0} → ℕ → String ⊎ (ℕ × (String ⊎ V)) → Type 0
Costs cost (inl reason) = Unit
Costs cost (inr (actual, value)) = actual ≤ cost

module _ (vaults : List Vault) (ledger : List Usage) (a : Attempt) where
  prepare-eq-ok :
      (decrypt : String → Option String) (vault_id : String) (model : Vault → String)
      (operation : String) (units cost : ℕ) (key : String) (l : List Usage) (r : Reservation)
      → prepare decrypt vaults ledger a vault_id model operation units cost key ≡ ok (l, r)
      → (m : String) × (reserve vaults ledger a.stamp a.use_uuid a.attempt_uuid vault_id m operation
            units cost key
          ≡ ok (l, r))
  unfolding prepare
  prepare-eq-ok decrypt vault_id model operation units cost key l r e =
      elim (Option-cases (find_vault vault_id vaults)) [
        | inl p ↦ absurd (ground arith)
        | inr (row, p) ↦ (model row, ground arith)
      ]

  pub prepare-append :
      (decrypt : String → Option String) (vault_id : String) (model : Vault → String)
      (operation : String) (units cost : ℕ) (key : String) (l : List Usage) (r : Reservation)
      → prepare decrypt vaults ledger a vault_id model operation units cost key ≡ ok (l, r)
      → (row : Usage) × (l ≡ ledger ++ row ∷ [])
        × (row.state ≡ UsageState.reserved)
        × (row.actual_microusd ≡ none)
        × (row.reserved_microusd ≡ cost)
        × (same row.id r.id ≡ true)
        × (r.id ≡ concat "use_" a.use_uuid)
  prepare-append decrypt vault_id model operation units cost key l r e =
      let (m, q) = prepare-eq-ok decrypt vault_id model operation units cost key l r e in
      let (vault, found, room, e', re) =
        reserve-eq-ok vaults a.stamp ledger l a.use_uuid a.attempt_uuid vault_id m operation units
          cost key r q in
      (
        new_usage a.stamp a.use_uuid a.attempt_uuid vault_id m operation units cost key,
        e',
        refl,
        refl,
        refl,
        rw re (same_refl _),
        rw re refl,
      )

  others :
      (P : Usage → Type 0) (id : String) {x : Usage}
      → count (λ u. same u.id id) ledger ≡ 0
      → (same x.id id ≡ true → P x)
      → All (λ u. same u.id id ≡ true → P u) (ledger ++ x ∷ [])
  others P id fresh h = All-append _ ledger _ (All-of_count_zero P _ ledger fresh) (h, tt)

  module _ {V : Type 0} (row : Usage) (r : Reservation)
      (fresh : count (λ u. same u.id r.id) ledger ≡ 0) (mine : same row.id r.id ≡ true) where
    settle-Books :
        (answer : String ⊎ (ℕ × (String ⊎ V)))
        → Books ledger (settle (ledger ++ row ∷ [], r) a.settled_at answer)
    unfolding settle complete mark_uncertain
    settle-Books (inl reason) = rw (update-last, fresh, mine) (unsettled _ _ (inl refl) refl)
    settle-Books (inr (cost, inr value)) = rw (update-last, fresh, mine) (settled _ value refl refl)
    settle-Books (inr (cost, inl reason)) =
        rw (update-last, fresh, mine)
          (rw (update-last, fresh, mine) (unsettled _ _ (inl refl) refl))

    settle-Reach :
        (cost : ℕ) (answer : String ⊎ (ℕ × (String ⊎ V)))
        → row.state ≡ UsageState.reserved
        → row.actual_microusd ≡ none
        → row.reserved_microusd ≡ cost
        → Costs cost answer
        → Reach vaults a.stamp ledger a.settled_at (ledger ++ row ∷ [])
        → Reach vaults a.stamp ledger a.settled_at
            (settle (ledger ++ row ∷ [], r) a.settled_at answer).0
    unfolding settle
    settle-Reach cost (inl reason) st ac re h w =
        next w (doubts r.id reason (others _ r.id fresh (λ _. ground arith)) refl)
    settle-Reach cost (inr (actual, inr value)) st ac re h w =
        next w
          (completes r.id (some actual) (others _ r.id fresh (λ _. (st, ac, omega arith))) refl)
    settle-Reach cost (inr (actual, inl reason)) st ac re h w =
        next
          (next w
            (completes r.id (some actual) (others _ r.id fresh (λ _. (st, ac, omega arith))) refl))
          (doubts r.id reason
            (unfold complete in rw (update-last, fresh, mine) (others _ r.id fresh (λ _. refl)))
            refl)

pub attempt-Books :
    {V : Type 0} (ledger : List Usage) (p : Result ProviderError (List Usage × Reservation))
    (run : List Usage × Reservation → Outcome V)
    → ((l : List Usage) (r : Reservation) → p ≡ ok (l, r) → Books ledger (run (l, r)))
    → Books ledger (attempt ledger p run)
unfolding attempt
attempt-Books ledger (raise e) run h = untouched e refl
attempt-Books ledger (ok (l, r)) run h = h l r refl

-- After the call, at the time `now`, every vault is within its allowance.
pub record Kept {V : Type 0} (vaults : List Vault) (now : ℕ) (o : Outcome V) : Type 0 where
  pub within : IsWithin vaults now o.0

pub attempt-Kept :
    {V : Type 0} (vaults : List Vault) (ledger : List Usage) (t u : ℕ)
    (p : Result ProviderError (List Usage × Reservation))
    (run : List Usage × Reservation → Outcome V)
    → t ≤ u
    → IsWithin vaults t ledger
    → ((l : List Usage) (r : Reservation) → p ≡ ok (l, r) → Reach vaults t ledger u (run (l, r)).0)
    → Kept vaults u (attempt ledger p run)
unfolding attempt
attempt-Kept vaults ledger t u (raise e) run k w h = record {
  within = Reach-IsWithin vaults t ledger u ledger (wait k here) w;
}
attempt-Kept vaults ledger t u (ok (l, r)) run k w h = record {
  within = Reach-IsWithin vaults t ledger u _ (h l r refl) w;
}

module _ (decrypt : String → Option String) (vaults : List Vault) (ledger : List Usage)
    (a : Attempt) (fresh : IsFresh a ledger) where
  module _ (vault_id : String) (model : Vault → String) (operation : String) (units cost : ℕ)
      (key : String) where
    abbrev pub prepared : Result ProviderError (List Usage × Reservation)
    prepared = prepare decrypt vaults ledger a vault_id model operation units cost key

    pub try-Books :
        {V : Type 0} (answer : String ⊎ (ℕ × (String ⊎ V))) (l : List Usage) (r : Reservation)
        → prepared ≡ ok (l, r)
        → Books ledger (settle (l, r) a.settled_at answer)
    try-Books answer l r e =
        let (row, le, st, ac, re, mine, rid) =
          prepare-append vaults ledger a decrypt vault_id model operation units cost key l r e in
        rw le (settle-Books vaults ledger a row r (rw rid fresh) mine answer)

    pub reserve-Reach :
        (l : List Usage) (r : Reservation)
        → prepared ≡ ok (l, r)
        → a.stamp ≤ a.settled_at
        → Reach vaults a.stamp ledger a.settled_at l
    reserve-Reach l r e k =
        let (m, q) =
          prepare-eq-ok vaults ledger a decrypt vault_id model operation units cost key l r e in
        wait k
          (next here (reserves a.use_uuid a.attempt_uuid vault_id m operation units cost key r q))

    pub try-Reach :
        {V : Type 0} (answer : String ⊎ (ℕ × (String ⊎ V))) (l : List Usage) (r : Reservation)
        → prepared ≡ ok (l, r)
        → a.stamp ≤ a.settled_at
        → Costs cost answer
        → Reach vaults a.stamp ledger a.settled_at (settle (l, r) a.settled_at answer).0
    try-Reach answer l r e k h =
        let (row, le, st, ac, re, mine, rid) =
          prepare-append vaults ledger a decrypt vault_id model operation units cost key l r e in
        let w = reserve-Reach l r e k in
        rw le (
          settle-Reach vaults ledger a row r (rw rid fresh) mine cost answer st ac re h
            (rw le at w))
