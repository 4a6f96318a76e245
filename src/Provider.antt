-- ===== src/Provider.antt =====
-- app/provider.py: the paid calls to the embedding provider. The provider's answer, the decryption
-- of the key, the random identifiers and the times before and after the call are arguments. A call
-- returns the ledger with its result or its exception.
pub mod Spending
pub mod Calls
use Prim.Native.String
use personal_vault_rag.Prelude.{
  List, Option, Result, String, [], if◌then◌else◌, inl, inr, leb, length, max, min, none, ok, raise,
  same, some, ℕ, ◌*◌, ◌+◌, ◌>>=◌, ◌>>◌, ◌∷◌, ◌⊎◌,
}
use personal_vault_rag.Db.{Vault, Usage}
use personal_vault_rag.Budget.{
  BudgetUnavailable, key_not_configured, Reservation, estimate_text_embedding, estimate_rerank,
  estimate_multimodal, find_vault, reserve, complete, release, mark_uncertain,
}

pub data ProviderError : Type 0 where
  budget : BudgetUnavailable → ProviderError
  unknown_vault bad_key : ProviderError
  call_failed : String → ProviderError

-- The reservation of an attempt: the time, and the identifiers of the row and of the attempt.
pub record Attempt : Type 0 where
  pub stamp : ℕ
  pub use_uuid : String
  pub attempt_uuid : String
  pub settled_at : ℕ

abbrev pub Outcome : Type 0 → Type 0
Outcome A = List Usage × Result ProviderError A

-- One element of the "data" of an embedding answer; `none` is a missing field.
pub record Item (V : Type 0) : Type 0 where
  pub index : Option ℕ
  pub embedding : Option V

-- `failed`: the request, its status, its JSON, its "data" or its token count raises.
pub data Reply (B : Type 0) : Type 0 where
  failed : String → Reply B
  answered : ℕ → B → Reply B

-- `not_started`: the construction of the client raises, before the call.
pub data VisualReply (V : Type 0) : Type 0 where
  not_started failed : String → VisualReply V
  answered : (text_tokens image_pixels video_pixels : ℕ) → V → VisualReply V

pub data Part : Type 0 where
  image : (width height : ℕ) → Part
  words : String → Part

abbrev pub byte_tokens : String → ℕ
byte_tokens text = max 1 (String.len text)

unfoldable pub text_tokens : List String → ℕ
text_tokens [] = 0
text_tokens (t ∷ ts) = byte_tokens t + text_tokens ts

unfoldable pub rerank_tokens : String → List String → ℕ
unfolding text_tokens
rerank_tokens query documents = max 1 (String.len query) * length documents + text_tokens documents

unfoldable pub charged_pixels : List (List Part) → ℕ
charged_pixels [] = 0
charged_pixels ([] ∷ inputs) = charged_pixels inputs
charged_pixels ((image w h ∷ parts) ∷ inputs) =
    min 2_000_000 (max 50_000 (w * h)) + charged_pixels (parts ∷ inputs)
charged_pixels ((words t ∷ parts) ∷ inputs) = charged_pixels (parts ∷ inputs)

unfoldable pub visual_tokens : List (List Part) → ℕ
visual_tokens [] = 0
visual_tokens ([] ∷ inputs) = visual_tokens inputs
visual_tokens ((image w h ∷ parts) ∷ inputs) = visual_tokens (parts ∷ inputs)
visual_tokens ((words t ∷ parts) ∷ inputs) = byte_tokens t + visual_tokens (parts ∷ inputs)

module _ {V : Type 0} where
  -- The items with their indices; `none` where one lacks its index.
  unfoldable pub indexed : List (Item V) → Option (List (ℕ × Item V))
  indexed [] = some []
  indexed (x ∷ xs) = elim x.index [
    | none ↦ none
    | some i ↦ elim (indexed xs) [ none ↦ none | some r ↦ some ((i, x) ∷ r) ]
  ]

  unfoldable pub insert_item : ℕ × Item V → List (ℕ × Item V) → List (ℕ × Item V)
  insert_item x [] = x ∷ []
  insert_item x (y ∷ ys) = if leb x.0 y.0 then x ∷ y ∷ ys else y ∷ insert_item x ys

  -- `sorted(vectors, key=index)`, which is stable
  unfoldable pub sort_items : List (ℕ × Item V) → List (ℕ × Item V)
  unfolding insert_item
  sort_items [] = []
  sort_items (x ∷ xs) = insert_item x (sort_items xs)

  unfoldable pub embeddings : List (ℕ × Item V) → Option (List V)
  embeddings [] = some []
  embeddings ((i, x) ∷ xs) = elim x.embedding [
    | none ↦ none
    | some v ↦ elim (embeddings xs) [ none ↦ none | some r ↦ some (v ∷ r) ]
  ]

  -- The list comprehension of `embed_texts`, or the text of the exception that it raises.
  unfoldable pub ordered_embeddings : List (Item V) → String ⊎ List V
  unfolding indexed sort_items embeddings
  ordered_embeddings items = elim (indexed items) [
    | none ↦ inl "KeyError: 'index'"
    | some xs ↦ elim (embeddings (sort_items xs)) [
      | none ↦ inl "KeyError: 'embedding'"
      | some values ↦ inr values
    ]
  ]

-- `_key`: `none` where the decryption raises
unfoldable pub key_of : (String → Option String) → Vault → Result ProviderError String
key_of decrypt row = elim row.provider_ciphertext [
  | none ↦ raise (budget key_not_configured)
  | some c ↦ if same c "" then raise (budget key_not_configured) else elim (decrypt c) [
    | none ↦ raise bad_key
    | some key ↦ if same key "" then raise (budget key_not_configured) else ok key
  ]
]

-- What precedes the `try` of each call: the settings, the key and the reservation.
unfoldable pub prepare :
    (decrypt : String → Option String) (vaults : List Vault) (ledger : List Usage) (a : Attempt)
    (vault_id : String) (model : Vault → String) (operation : String) (units cost : ℕ)
    (request_key : String)
    → Result ProviderError (List Usage × Reservation)
prepare decrypt vaults ledger a vault_id model operation units cost request_key =
    elim (find_vault vault_id vaults) [
      | none ↦ raise unknown_vault
      | some row ↦ do
        key_of decrypt row >>= λ _.
            elim (reserve vaults ledger a.stamp a.use_uuid a.attempt_uuid vault_id (model row)
              operation units cost request_key) [ ok r ↦ ok r | raise e ↦ raise (budget e) ]
    ]

-- The end of the `try` of a call: `answer` is the cost by the provider's count with the value, or
-- with the exception where reading the value raises after `complete`. An exception is the text that
-- the ledger keeps of it.
unfoldable pub settle :
    {V : Type 0} → List Usage × Reservation → ℕ → String ⊎ (ℕ × (String ⊎ V)) → Outcome V
settle (ledger, r) stamp (inl reason) =
    (mark_uncertain ledger r.id reason stamp, raise (call_failed reason))
settle (ledger, r) stamp (inr (cost, inr value)) =
    (complete ledger r.id (some cost) stamp, ok value)
settle (ledger, r) stamp (inr (cost, inl reason)) = (
  mark_uncertain (complete ledger r.id (some cost) stamp) r.id reason stamp,
  raise (call_failed reason),
)

unfoldable pub attempt :
    {V : Type 0}
    → List Usage
    → Result ProviderError (List Usage × Reservation)
    → (List Usage × Reservation → Outcome V)
    → Outcome V
attempt ledger (raise e) run = (ledger, raise e)
attempt ledger (ok r) run = run r

module _ (decrypt : String → Option String) (vaults : List Vault) where
  unfoldable pub embed_texts :
      {V : Type 0}
      → List Usage
      → Attempt
      → (vault_id : String) (texts : List String) (request_key : String) → Reply (List (Item V))
      → Outcome (List V)
  embed_texts ledger a vault_id texts request_key reply =
      let tokens = text_tokens texts in
      attempt ledger
        (prepare decrypt vaults ledger a vault_id (λ row. row.embedding_model) "text_embedding"
          tokens (estimate_text_embedding tokens) request_key)
        λ r. settle r a.settled_at (elim reply [
          | failed reason ↦ inl reason
          | answered actual items ↦ inr (estimate_text_embedding actual, ordered_embeddings items)
        ])

  -- The answer's elements are pairs of an index and a score, or reading them raises.
  unfoldable pub rerank :
      {S : Type 0}
      → List Usage
      → Attempt
      → (vault_id query : String) (documents : List String) (request_key : String)
      → Reply (String ⊎ List (ℕ × S))
      → Outcome (List (ℕ × S))
  rerank ledger a vault_id query documents request_key reply =
      let tokens = rerank_tokens query documents in
      attempt ledger
        (prepare decrypt vaults ledger a vault_id (λ row. row.rerank_model) "rerank" tokens
          (estimate_rerank tokens) request_key)
        λ r. settle r a.settled_at (elim reply [
          | failed reason ↦ inl reason
          | answered actual pairs ↦ inr (estimate_rerank actual, pairs)
        ])

  unfoldable pub embed_visual_inputs :
      {V : Type 0}
      → List Usage
      → Attempt
      → (vault_id : String) (inputs : List (List Part)) (request_key : String) → VisualReply V
      → Outcome V
  embed_visual_inputs ledger a vault_id inputs request_key reply =
      let tokens = visual_tokens inputs in
      let pixels = charged_pixels inputs in
      attempt ledger
        (prepare decrypt vaults ledger a vault_id (λ row. row.visual_model) "multimodal_embedding"
          (tokens + pixels) (estimate_multimodal tokens pixels 0) request_key)
        λ r. elim reply [
          | not_started reason ↦ (release r.0 r.1.id a.settled_at, raise (call_failed reason))
          | failed reason ↦ settle r a.settled_at (inl reason)
          | answered text_count pixel_count video_count value ↦
              settle r a.settled_at
                (inr (estimate_multimodal text_count pixel_count video_count, inr value))
        ]
