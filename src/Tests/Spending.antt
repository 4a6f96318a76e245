-- ===== src/Tests/Spending.antt =====
-- Runs of the ledger and of the provider's calls.
use personal_vault_rag.Prelude.{List, Option, String, [], arith, refl, some, ℕ, ◌∷◌, ◌≡◌, ok, raise}
use personal_vault_rag.Db.{Usage}
use personal_vault_rag.Table.{count, fetch_one, sum}
use personal_vault_rag.Budget.{reserve, release, spent, find_vault}
use personal_vault_rag.Budget.Limit.{
  IsWithin, Reach, here, next, wait, reserves, releases, Reach-IsWithin,
}
use personal_vault_rag.Provider.{Attempt, Item, Reply, answered, text_tokens, embed_texts}
use personal_vault_rag.Provider.Spending.{IsFresh, Kept}
use personal_vault_rag.Provider.Calls.{Bounded, embed_texts-Kept}
use personal_vault_rag.Tests.{home}

-- The keys of the vaults are kept as they are.
abbrev decrypt : String → Option String
decrypt sealed = some sealed

abbrev attempt : Attempt
attempt = record { stamp = 100; use_uuid = "u"; attempt_uuid = "t"; settled_at = 200 }

attempt-IsFresh : IsFresh attempt []
unfolding count
attempt-IsFresh = refl

empty-IsWithin : IsWithin (home ∷ []) 100 []
unfolding spent sum find_vault
empty-IsWithin w = omega arith

abbrev vectors : Reply (List (Item ℕ))
vectors = answered 3 (record { index = some 0; embedding = some 7 } ∷ [])

vectors-Bounded : Bounded (text_tokens ("text" ∷ [])) vectors
unfolding text_tokens
vectors-Bounded = omega arith

embed_texts-Kept_example :
    Kept
      (home ∷ [])
      200
      (embed_texts decrypt (home ∷ []) [] attempt "home" ("text" ∷ []) "key" vectors)
embed_texts-Kept_example =
    embed_texts-Kept decrypt (home ∷ []) [] attempt attempt-IsFresh "home" (omega arith)
      empty-IsWithin ("text" ∷ []) "key" vectors vectors-Bounded

-- A reservation of eight micro-dollars that is released a month later.
abbrev reserved : List Usage
reserved = elim (reserve (home ∷ []) [] 100 "u" "t" "home" "text" "embed" 10 8 "key") [
  | ok r ↦ r.0
  | raise e ↦ []
]

reserved_runs :
    reserve (home ∷ []) [] 100 "u" "t" "home" "text" "embed" 10 8 "key"
    ≡ ok (reserved, record { id = "use_u"; microusd = 8 })
unfolding reserve find_vault fetch_one spent sum
reserved_runs = refl

reserved-Reach :
    Reach (home ∷ []) 100 [] 2_700_000_000_000 (release reserved "use_u" 2_700_000_000_000)
reserved-Reach =
    next
      (wait (omega arith) (
        next here (
          reserves "u" "t" "home" "text" "embed" 10 8 "key" (record { id = "use_u"; microusd = 8 })
            reserved_runs)))
      (releases "use_u" refl)

Reach-IsWithin_example :
    IsWithin (home ∷ []) 2_700_000_000_000 (release reserved "use_u" 2_700_000_000_000)
Reach-IsWithin_example =
    Reach-IsWithin (home ∷ []) 100 [] 2_700_000_000_000 (release reserved "use_u" 2_700_000_000_000)
      reserved-Reach empty-IsWithin
