-- ===== src/Mcp.antt =====
-- Who calls a tool of app/mcp_server.py: `VaultTokenVerifier` and `current_vault`.
pub mod Grants
pub mod Download
pub mod Fetched
pub mod Inspection
pub mod Attempts
pub mod Accepted
pub mod Polled
use personal_vault_rag.Prelude.{
  Bool, List, Option, Result, String, [], ◌∷◌, concat, if◌then◌else◌, none, not, ok, raise,
  raise_if, same, some, ℕ, ◌&&◌, ◌>>◌,
}
use personal_vault_rag.Db.{AccessToken}
use personal_vault_rag.Security.{Principal, HttpException, has_scope, authenticate_token}

-- The access token of the MCP library. `resource` and `expires_at` are constants.
pub record Access : Type 0 where
  pub token : String
  pub client_id : String
  pub scopes : List String
  pub subject : Option String

abbrev pub access_of : String → Principal → Access
access_of token p = record {
  token = token;
  client_id = p.token_id;
  scopes = p.scopes;
  subject = some p.vault_id;
}

abbrev pub admitted : String → Result HttpException Principal → Option Access
admitted token (raise e) = none
admitted token (ok p) = some (access_of token p)

unfoldable pub verify_token :
    (token_hash : String → String) → List AccessToken → (stamp : ℕ) → String → Option Access
verify_token token_hash tokens stamp token =
    admitted token (authenticate_token token_hash tokens stamp token)

abbrev pub no_context : String
no_context = "Authenticated vault context is required"

-- The scopes that the server's AuthSettings require of every token, for whatever tool.
abbrev pub required_scopes : List String
required_scopes = "search" ∷ []

-- `access` is what the library has verified and admitted for the call, if anything.
unfoldable pub current_vault : (access : Option Access) (scope : String) → Result String String
current_vault none scope = raise no_context
current_vault (some access) scope = elim access.subject [
  | none ↦ raise no_context
  | some vault_id ↦
      raise_if (same vault_id "") no_context
      >> raise_if (not (has_scope scope access.scopes) && not (has_scope "admin" access.scopes))
          (concat "Access token lacks " (concat scope " scope"))
      >> ok vault_id
]
