-- ===== src/Budget.antt =====
-- app/budget.py: the price estimates and the ledger of reservations for paid provider calls.
-- The random identifiers (`uuid4`) and the time (`now`) are arguments of the operations.
pub mod Month
pub mod Estimates
pub mod Limit
use personal_vault_rag.Prelude.{
  Bool, List, Option, Result, String, [], concat, cut, false, if◌then◌else◌, leb, ltb, max, none,
  ok, or_else, raise, raise_if, same, some, true, ℕ, ◌&&◌, ◌*◌, ◌++◌, ◌+◌, ◌/◌, ◌==◌, ◌>>=◌, ◌>>◌,
  ◌∷◌,
}
use personal_vault_rag.Db.{Vault, Usage, UsageState}
use personal_vault_rag.Table.{fetch_one, update, sum}
use Month.{month_start}

abbrev pub microusd_per_m_text_embed : ℕ
microusd_per_m_text_embed = 120_000

abbrev pub microusd_per_m_rerank : ℕ
microusd_per_m_rerank = 50_000

abbrev pub microusd_per_m_multimodal_text : ℕ
microusd_per_m_multimodal_text = 120_000

abbrev pub microusd_per_b_multimodal_pixels : ℕ
microusd_per_b_multimodal_pixels = 600_000

pub record Reservation : Type 0 where
  pub id : String
  pub microusd : ℕ

pub data BudgetUnavailable : Type 0 where
  calls_disabled would_exceed key_not_configured : BudgetUnavailable

unfoldable pub estimate_text_embedding : ℕ → ℕ
estimate_text_embedding tokens = max 1 ((tokens * microusd_per_m_text_embed + 999_999) / 1_000_000)

unfoldable pub estimate_rerank : ℕ → ℕ
estimate_rerank tokens = max 1 ((tokens * microusd_per_m_rerank + 999_999) / 1_000_000)

unfoldable pub estimate_multimodal : ℕ → ℕ → ℕ → ℕ
estimate_multimodal text_tokens image_pixels video_pixels =
    let text_cost = (text_tokens * microusd_per_m_multimodal_text + 999_999) / 1_000_000 in
    let pixel_cost =
      ((image_pixels + video_pixels) * microusd_per_b_multimodal_pixels + 999_999_999)
      / 1_000_000_000 in
    max 1 (text_cost + pixel_cost)

-- `state IN ('reserved','complete','uncertain')`
abbrev pub counts : UsageState → Bool
counts UsageState.reserved = true
counts UsageState.complete = true
counts UsageState.released = false
counts UsageState.uncertain = true

-- What a ledger row adds to the SUM of `reserve`.
unfoldable pub charge : String → ℕ → Usage → ℕ
charge vault_id since u =
    if same u.vault_id vault_id && leb since u.created_at && counts u.state
    then or_else u.actual_microusd u.reserved_microusd
    else 0

unfoldable pub spent : String → ℕ → List Usage → ℕ
unfolding charge
spent vault_id since ledger = sum (charge vault_id since) ledger

unfoldable pub find_vault : String → List Vault → Option Vault
find_vault vault_id vaults = fetch_one (λ v. same v.id vault_id) vaults

-- The row that `reserve` inserts.
abbrev pub new_usage :
    (stamp : ℕ) (use_uuid attempt_uuid vault_id model operation : String) (units microusd : ℕ)
    (logical_key : String)
    → Usage
new_usage stamp use_uuid attempt_uuid vault_id model operation units microusd key = record {
  id = concat "use_" use_uuid;
  vault_id = vault_id;
  provider = "voyage";
  model = model;
  operation = operation;
  estimated_units = units;
  reserved_microusd = microusd;
  actual_microusd = none;
  state = UsageState.reserved;
  logical_key = key;
  uncertainty_reason = none;
  created_at = stamp;
  completed_at = none;
  request_key = concat key (concat ":" attempt_uuid);
}

unfoldable pub reserve :
    (vaults : List Vault) (ledger : List Usage) (stamp : ℕ)
    (use_uuid attempt_uuid vault_id model operation : String) (units microusd : ℕ)
    (logical_key : String)
    → Result BudgetUnavailable (List Usage × Reservation)
reserve vaults ledger stamp use_uuid attempt_uuid vault_id model operation units microusd key =
    elim (find_vault vault_id vaults) [
      | none ↦ raise calls_disabled
      | some vault ↦ do
        raise_if (vault.monthly_budget_microusd == 0) calls_disabled
        raise_if
            (ltb vault.monthly_budget_microusd
              (spent vault_id (month_start stamp) ledger + microusd))
            would_exceed
        ok (
          ledger
              ++ new_usage stamp use_uuid attempt_uuid vault_id model operation units microusd key
                ∷ [],
          record { id = concat "use_" use_uuid; microusd = microusd },
        )
    ]

unfoldable pub complete : List Usage → String → Option ℕ → ℕ → List Usage
complete ledger reservation_id actual stamp =
    update (λ u. same u.id reservation_id)
      (λ u. record u {
        state = UsageState.complete;
        actual_microusd = some (or_else actual u.reserved_microusd);
        completed_at = some stamp;
      })
      ledger

unfoldable pub release : List Usage → String → ℕ → List Usage
release ledger reservation_id stamp =
    update (λ u. same u.id reservation_id)
      (λ u. record u { state = UsageState.released; completed_at = some stamp }) ledger

unfoldable pub mark_uncertain : List Usage → String → String → ℕ → List Usage
mark_uncertain ledger reservation_id reason stamp =
    update (λ u. same u.id reservation_id)
      (λ u. record u {
        state = UsageState.uncertain;
        uncertainty_reason = some (cut 1000 reason);
        completed_at = some stamp;
      })
      ledger
