-- ===== src/Budget/Estimates.antt =====
-- The price estimates of app/budget.py.
use personal_vault_rag.Prelude.{arith, ℕ, ◌*◌, ◌+◌, ◌-◌, ◌<◌, ◌≤◌}
use personal_vault_rag.Budget.{
  estimate_text_embedding, estimate_rerank, estimate_multimodal, microusd_per_m_text_embed,
  microusd_per_m_rerank, microusd_per_m_multimodal_text, microusd_per_b_multimodal_pixels,
}

-- An estimate is the price in whole micro-dollars, rounded up and at least 1: `cost` micro-dollars
-- cover the price of `units` at `price` per `per` units, and one less would not, unless it is 0.
abbrev pub IsCeiling : ℕ → ℕ → ℕ → ℕ → Type 0
IsCeiling cost units price per =
    (1 ≤ cost) × (units * price ≤ cost * per) × (1 < cost → (cost - 1) * per < units * price)

-- The estimates for text embedding and for reranking are the list price rounded up to a whole
-- micro-dollar, and at least 1.
pub estimates-IsCeiling :
    (tokens : ℕ)
    → IsCeiling (estimate_text_embedding tokens) tokens microusd_per_m_text_embed 1_000_000
      × IsCeiling (estimate_rerank tokens) tokens microusd_per_m_rerank 1_000_000
unfolding estimate_text_embedding estimate_rerank
estimates-IsCeiling tokens =
    ((omega arith, omega arith, λ h. omega arith), (omega arith, omega arith, λ h. omega arith))

-- The multimodal estimate covers the price of the text tokens and of the pixels together, and is
-- less than two micro-dollars above it, or 1.
pub estimate_multimodal_covers :
    (tokens image video : ℕ)
    → (tokens * microusd_per_m_multimodal_text * 1_000
          + (image + video) * microusd_per_b_multimodal_pixels
        ≤ estimate_multimodal tokens image video * 1_000_000_000)
      × (1 < estimate_multimodal tokens image video
          → estimate_multimodal tokens image video * 1_000_000_000
            < tokens * microusd_per_m_multimodal_text * 1_000
              + (image + video) * microusd_per_b_multimodal_pixels
              + 2_000_000_000)
unfolding estimate_multimodal
estimate_multimodal_covers tokens image video = (omega arith, λ h. omega arith)

pub estimate_text_embedding_mono :
    (m n : ℕ) → m ≤ n → estimate_text_embedding m ≤ estimate_text_embedding n
unfolding estimate_text_embedding
estimate_text_embedding_mono m n h = omega arith

pub estimate_rerank_mono : (m n : ℕ) → m ≤ n → estimate_rerank m ≤ estimate_rerank n
unfolding estimate_rerank
estimate_rerank_mono m n h = omega arith

pub estimate_multimodal_mono :
    (a b p q r : ℕ) → a ≤ b → p + r ≤ q → estimate_multimodal a p r ≤ estimate_multimodal b q 0
unfolding estimate_multimodal
estimate_multimodal_mono a b p q r h k = omega arith
