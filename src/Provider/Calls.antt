-- ===== src/Provider/Calls.antt =====
-- The three calls of app/provider.py: their books and the spending limit.
use personal_vault_rag.Prelude.{List, Option, String, inl, inr, refl, same, ℕ, ◌+◌, ◌≡◌, ◌≤◌, ◌⊎◌}
use personal_vault_rag.Db.{Vault, Usage}
use personal_vault_rag.Table.{count}
use personal_vault_rag.Table.Laws.{update-last}
use personal_vault_rag.Budget.{release}
use personal_vault_rag.Budget.Estimates.{
  estimate_text_embedding_mono, estimate_rerank_mono, estimate_multimodal_mono,
}
use personal_vault_rag.Budget.Limit.{IsWithin, next, releases}
use personal_vault_rag.Provider.{
  Attempt, Item, Reply, VisualReply, Part, not_started, failed, answered, text_tokens,
  rerank_tokens, visual_tokens, charged_pixels, embed_texts, rerank, embed_visual_inputs,
}
use personal_vault_rag.Provider.Spending.{
  IsFresh, Books, unsettled, Kept, prepare-append, try-Books, try-Reach, reserve-Reach,
  attempt-Books, attempt-Kept,
}

-- The provider counts no more text tokens than the text has bytes.
abbrev pub Bounded : {B : Type 0} → ℕ → Reply B → Type 0
Bounded tokens (failed reason) = Unit
Bounded tokens (answered actual body) = actual ≤ tokens

-- The provider counts no more text tokens and pixels than the call reserves.
abbrev pub BoundedVisual : {V : Type 0} → ℕ → ℕ → VisualReply V → Type 0
BoundedVisual tokens pixels (not_started reason) = Unit
BoundedVisual tokens pixels (failed reason) = Unit
BoundedVisual tokens pixels (answered text image video v) =
    (text ≤ tokens) × (image + video ≤ pixels)

module _ (decrypt : String → Option String) (vaults : List Vault) (ledger : List Usage)
    (a : Attempt) (fresh : IsFresh a ledger) (vault_id : String) where
  -- With a fresh identifier, `embed_texts` either leaves the ledger and raises, or adds one row
  -- to it: a complete row where it returns vectors, and one that is released or uncertain where it
  -- raises.
  pub embed_texts-Books :
      {V : Type 0} (texts : List String) (key : String) (reply : Reply (List (Item V)))
      → Books ledger (embed_texts decrypt vaults ledger a vault_id texts key reply)
  unfolding embed_texts
  embed_texts-Books texts key (failed reason) =
      attempt-Books ledger _ _
        (try-Books decrypt vaults ledger a fresh vault_id _ _ _ _ key (inl reason))
  embed_texts-Books texts key (answered actual items) =
      attempt-Books ledger _ _
        (try-Books decrypt vaults ledger a fresh vault_id _ _ _ _ key (inr _))

  -- With a fresh identifier, `rerank` either leaves the ledger and raises, or adds one row
  -- to it: a complete row where it returns scores, and one that is released or uncertain where it
  -- raises.
  pub rerank-Books :
      {S : Type 0} (query : String) (documents : List String) (key : String)
      (reply : Reply (String ⊎ List (ℕ × S)))
      → Books ledger (rerank decrypt vaults ledger a vault_id query documents key reply)
  unfolding rerank
  rerank-Books query documents key (failed reason) =
      attempt-Books ledger _ _
        (try-Books decrypt vaults ledger a fresh vault_id _ _ _ _ key (inl reason))
  rerank-Books query documents key (answered actual items) =
      attempt-Books ledger _ _
        (try-Books decrypt vaults ledger a fresh vault_id _ _ _ _ key (inr _))

  -- With a fresh identifier, `embed_visual_inputs` either leaves the ledger and raises, or adds one row
  -- to it: a complete row where it returns embeddings, and one that is released or uncertain where it
  -- raises.
  pub embed_visual_inputs-Books :
      {V : Type 0} (inputs : List (List Part)) (key : String) (reply : VisualReply V)
      → Books ledger (embed_visual_inputs decrypt vaults ledger a vault_id inputs key reply)
  unfolding embed_visual_inputs release
  embed_visual_inputs-Books inputs key (not_started reason) = attempt-Books ledger _ _ λ l r e.
      let (row, le, st, ac, re, mine, rid) =
        prepare-append vaults ledger a decrypt vault_id _ _ _ _ key l r e in
      let new : count (λ u. same u.id r.id) ledger ≡ 0 = rw rid fresh in
      rw (le, update-last, new, mine) (unsettled _ _ (inr refl) refl)
  embed_visual_inputs-Books inputs key (failed reason) =
      attempt-Books ledger _ _
        (try-Books decrypt vaults ledger a fresh vault_id _ _ _ _ key (inl reason))
  embed_visual_inputs-Books inputs key (answered text image video v) =
      attempt-Books ledger _ _
        (try-Books decrypt vaults ledger a fresh vault_id _ _ _ _ key (inr _))

  module _ (k : a.stamp ≤ a.settled_at) (w : IsWithin vaults a.stamp ledger) where
    -- With a fresh identifier, if every vault is within its allowance before the call, the clock
    -- does not run back and the provider counts no more than the call reserves, then every vault is
    -- within its allowance after `embed_texts`, whatever its outcome.
    pub embed_texts-Kept :
        {V : Type 0} (texts : List String) (key : String) (reply : Reply (List (Item V)))
        → Bounded (text_tokens texts) reply
        → Kept vaults a.settled_at (embed_texts decrypt vaults ledger a vault_id texts key reply)
    unfolding embed_texts
    embed_texts-Kept texts key (failed reason) b = attempt-Kept vaults ledger _ _ _ _ k w λ l r e.
        try-Reach decrypt vaults ledger a fresh vault_id _ _ _ _ key (inl reason) l r e k tt
    embed_texts-Kept texts key (answered actual items) b =
        attempt-Kept vaults ledger _ _ _ _ k w λ l r e.
          try-Reach decrypt vaults ledger a fresh vault_id _ _ _ _ key (inr _) l r e k
            (estimate_text_embedding_mono _ _ b)

    -- With a fresh identifier, if every vault is within its allowance before the call, the clock
    -- does not run back and the provider counts no more than the call reserves, then every vault is
    -- within its allowance after `rerank`, whatever its outcome.
    pub rerank-Kept :
        {S : Type 0} (query : String) (documents : List String) (key : String)
        (reply : Reply (String ⊎ List (ℕ × S)))
        → Bounded (rerank_tokens query documents) reply
        → Kept vaults a.settled_at
            (rerank decrypt vaults ledger a vault_id query documents key reply)
    unfolding rerank
    rerank-Kept query documents key (failed reason) b =
        attempt-Kept vaults ledger _ _ _ _ k w λ l r e.
          try-Reach decrypt vaults ledger a fresh vault_id _ _ _ _ key (inl reason) l r e k tt
    rerank-Kept query documents key (answered actual pairs) b =
        attempt-Kept vaults ledger _ _ _ _ k w λ l r e.
          try-Reach decrypt vaults ledger a fresh vault_id _ _ _ _ key (inr _) l r e k
            (estimate_rerank_mono _ _ b)

    -- With a fresh identifier, if every vault is within its allowance before the call, the clock
    -- does not run back and the provider counts no more than the call reserves, then every vault is
    -- within its allowance after `embed_visual_inputs`, whatever its outcome.
    pub embed_visual_inputs-Kept :
        {V : Type 0} (inputs : List (List Part)) (key : String) (reply : VisualReply V)
        → BoundedVisual (visual_tokens inputs) (charged_pixels inputs) reply
        → Kept vaults a.settled_at
            (embed_visual_inputs decrypt vaults ledger a vault_id inputs key reply)
    unfolding embed_visual_inputs
    embed_visual_inputs-Kept inputs key (not_started reason) b =
        attempt-Kept vaults ledger _ _ _ _ k w λ l r e.
          next (reserve-Reach decrypt vaults ledger a fresh vault_id _ _ _ _ key l r e k)
            (releases r.id refl)
    embed_visual_inputs-Kept inputs key (failed reason) b =
        attempt-Kept vaults ledger _ _ _ _ k w λ l r e.
          try-Reach decrypt vaults ledger a fresh vault_id _ _ _ _ key (inl reason) l r e k tt
    embed_visual_inputs-Kept inputs key (answered text image video v) b =
        attempt-Kept vaults ledger _ _ _ _ k w λ l r e.
          try-Reach decrypt vaults ledger a fresh vault_id _ _ _ _ key (inr _) l r e k
            (estimate_multimodal_mono _ _ _ _ _ b.0 b.1)
