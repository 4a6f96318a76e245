-- ===== src/Budget/Limit.antt =====
-- The spending limit of app/budget.py over histories of reservations and settlements.
use personal_vault_rag.Prelude.{
  All, Bool-cases, List, Option, Option-cases, String, [], arith, concat, if◌then◌else◌, inl, inr,
  none, ok, or_else, same, same_iff, some, true, ℕ, ◌++◌, ◌+◌, ◌∷◌, ◌≡◌, ◌≤◌,
}
use personal_vault_rag.Db.{Vault, Usage, UsageState}
use personal_vault_rag.Table.{sum}
use personal_vault_rag.Table.Laws.{sum-append, sum_mono, sum-update-le, All-map, All-of}
use personal_vault_rag.Budget.{
  Reservation, counts, charge, spent, new_usage, find_vault, reserve, complete, release,
  mark_uncertain,
}
use personal_vault_rag.Budget.Month.{month_start, month_start_mono}

abbrev pub allowance_of : Option Vault → ℕ
allowance_of none = 0
allowance_of (some v) = v.monthly_budget_microusd

abbrev pub allowance : String → List Vault → ℕ
allowance vault_id vaults = allowance_of (find_vault vault_id vaults)

-- No vault's charges of the current month pass its allowance.
abbrev pub IsWithin : List Vault → ℕ → List Usage → Type 0
IsWithin vaults now ledger = (w : String) → spent w (month_start now) ledger ≤ allowance w vaults

charge_later : (w : String) (a b : ℕ) → a ≤ b → (u : Usage) → charge w b u ≤ charge w a u
unfolding charge
charge_later w a b h u = ground arith

-- A settlement is open to a reservation that is not settled yet, at a cost within it.
abbrev pub Settles : String → Option ℕ → Usage → Type 0
Settles id actual u =
    same u.id id ≡ true
    → (u.state ≡ UsageState.reserved)
      × (u.actual_microusd ≡ none)
      × (or_else actual u.reserved_microusd ≤ u.reserved_microusd)

abbrev pub Counted : String → Usage → Type 0
Counted id u = same u.id id ≡ true → counts u.state ≡ true

-- One operation of one process at the time `now`.
pub data Step (vaults : List Vault) (now : ℕ) (l l' : List Usage) : Type 0 where
  reserves :
      (uuid attempt w model operation : String) (units cost : ℕ) (key : String) (r : Reservation)
      → reserve vaults l now uuid attempt w model operation units cost key ≡ ok (l', r)
      → Step vaults now l l'
  completes :
      (id : String) (actual : Option ℕ)
      → All (Settles id actual) l
      → l' ≡ complete l id actual now
      → Step vaults now l l'
  releases : (id : String) → l' ≡ release l id now → Step vaults now l l'
  doubts :
      (id reason : String)
      → All (Counted id) l
      → l' ≡ mark_uncertain l id reason now
      → Step vaults now l l'

-- The ledgers that processes reach by interleaving such operations while time passes.
pub data Reach (vaults : List Vault) (t₀ : ℕ) (l₀ : List Usage) : ℕ → List Usage → Type 0 where
  here : Reach vaults t₀ l₀ t₀ l₀
  wait : {t u : ℕ} {l : List Usage} → t ≤ u → Reach vaults t₀ l₀ t l → Reach vaults t₀ l₀ u l
  next :
      {t : ℕ} {l l' : List Usage}
      → Reach vaults t₀ l₀ t l
      → Step vaults t l l'
      → Reach vaults t₀ l₀ t l'

module _ (vaults : List Vault) (now : ℕ) where
  module _ (l l' : List Usage) (uuid attempt v model operation : String) (units cost : ℕ)
      (key : String) (r : Reservation)
      (e : reserve vaults l now uuid attempt v model operation units cost key ≡ ok (l', r)) where
    -- What a successful reservation has checked and done.
    pub reserve-eq-ok :
        (vault : Vault) × (find_vault v vaults ≡ some vault)
        × (spent v (month_start now) l + cost ≤ vault.monthly_budget_microusd)
        × (l' ≡ l ++ new_usage now uuid attempt v model operation units cost key ∷ [])
        × (r ≡ record { id = concat "use_" uuid; microusd = cost })
    unfolding reserve
    reserve-eq-ok = elim (Option-cases (find_vault v vaults)) [
      | inl p ↦ absurd (ground arith)
      | inr (vault, p) ↦ (vault, p, ground arith, ground arith, ground arith)
    ]

    spent-reserve :
        (w : String)
        → spent w (month_start now) l'
          ≤ spent w (month_start now) l + (if same v w then cost else 0)
    unfolding spent sum charge
    spent-reserve w =
        let (vault, p, room, e', re) = reserve-eq-ok in rw (e', sum-append) (ground arith)

    reserve-IsWithin : IsWithin vaults now l → IsWithin vaults now l'
    reserve-IsWithin h w =
        let (vault, p, room, e', re) = reserve-eq-ok in
        elim (Bool-cases (same v w)) [
          | inl s ↦ let q : v ≡ w = (same_iff v w).0 s in ground (arith, spent-reserve w, h w)
          | inr n ↦ ground (arith, spent-reserve w, h w)
        ]

  complete-le :
      (w id : String) (actual : Option ℕ) (since : ℕ) (l : List Usage)
      → All (Settles id actual) l
      → spent w since (complete l id actual now) ≤ spent w since l
  unfolding spent complete charge
  complete-le w id actual since l s =
      sum-update-le _ _ _ l (All-map (λ u k e. ground (arith, k e)) l s)

  release-le :
      (w id : String) (since : ℕ) (l : List Usage)
      → spent w since (release l id now) ≤ spent w since l
  unfolding spent release charge
  release-le w id since l = sum-update-le _ _ _ l (All-of (λ u e. ground arith) l)

  mark_uncertain-le :
      (w id reason : String) (since : ℕ) (l : List Usage)
      → All (Counted id) l
      → spent w since (mark_uncertain l id reason now) ≤ spent w since l
  unfolding spent mark_uncertain charge
  mark_uncertain-le w id reason since l s =
      sum-update-le _ _ _ l (All-map (λ u k e. ground (arith, k e)) l s)

  -- One operation keeps every vault within its allowance.
  Step-IsWithin :
      (l l' : List Usage) → Step vaults now l l' → IsWithin vaults now l → IsWithin vaults now l'
  Step-IsWithin l l' (reserves a b v m o n c k r e) h w =
      reserve-IsWithin l l' a b v m o n c k r e h w
  Step-IsWithin l l' (completes id actual s e) h w =
      rw e (omega (arith, complete-le w id actual (month_start now) l s, h w))
  Step-IsWithin l l' (releases id e) h w =
      rw e (omega (arith, release-le w id (month_start now) l, h w))
  Step-IsWithin l l' (doubts id reason s e) h w =
      rw e (omega (arith, mark_uncertain-le w id reason (month_start now) l s, h w))

  wait-IsWithin :
      (later : ℕ) (l : List Usage) → now ≤ later → IsWithin vaults now l → IsWithin vaults later l
  unfolding spent
  wait-IsWithin later l k h w = omega (
    arith,
    h w,
    sum_mono (charge w (month_start later)) (charge w (month_start now)) l
        (All-of (charge_later w _ _ (month_start_mono now later k)) l),
  )

-- However reservations and settlements of several processes interleave while time passes, with each
-- settlement at no more than its reservation, no vault's charges of the current UTC month pass its
-- monthly allowance, if they did not at the start.
pub Reach-IsWithin :
    (vaults : List Vault) (t₀ : ℕ) (l₀ : List Usage) (t : ℕ) (l : List Usage)
    → Reach vaults t₀ l₀ t l
    → IsWithin vaults t₀ l₀
    → IsWithin vaults t l
Reach-IsWithin vaults t₀ l₀ _ _ here h = h
Reach-IsWithin vaults t₀ l₀ u l (wait {t = t} k r) h =
    wait-IsWithin vaults t u l k (Reach-IsWithin vaults t₀ l₀ t l r h)
Reach-IsWithin vaults t₀ l₀ t l' (next {l = l} r s) h =
    Step-IsWithin vaults t l l' s (Reach-IsWithin vaults t₀ l₀ t l r h)
