-- ===== src/Access.antt =====
-- Who gets an access token: app/oauth.py, and the operations of app/main.py that create vaults and
-- pair connectors. The operations that only read leave the store; those that write return it with
-- their answer. Random tokens and identifiers, the readings of the clock, SHA-256, the PKCE digest
-- and the membership of registered redirect URIs' JSON (a list here) are arguments.
pub mod Requests
pub mod Writes
pub mod Spent
pub mod Exchange
pub mod Scopes
use personal_vault_rag.Prelude.{
  Bool, List, Option, Result, String, [], codes, false, if◌then◌else◌, length, ltb, none, not, ok,
  or_else, raise_if, same, some, ℕ, ◌&&◌, ◌++◌, ◌+◌, ◌==◌, ◌>>◌, ◌||◌, ◌∷◌,
}
use personal_vault_rag.Db.{Vault, AccessToken, PairingCode, OauthClient, OauthCode}
use personal_vault_rag.Table.{fetch_one}
use personal_vault_rag.Security.{HttpException, has_scope}

-- The tables, and the content of the file `bootstrap-code`, if there is one, without the spaces
-- around.
pub record Store : Type 0 where
  pub vaults : List Vault
  pub tokens : List AccessToken
  pub pairing_codes : List PairingCode
  pub clients : List OauthClient
  pub codes : List OauthCode
  pub bootstrap_code : Option String

abbrev pub Answer : Type 0 → Type 0
Answer A = Result HttpException (Store × A)

abbrev pub error : ℕ → String → HttpException
error status detail = HttpException.http status detail

abbrev pub has_client : String → OauthClient → Bool
has_client id c = same c.client_id id

abbrev pub has_code : String → OauthCode → Bool
has_code hash c = same c.code_hash hash

abbrev pub has_pairing : String → PairingCode → Bool
has_pairing hash c = same c.code_hash hash

unfoldable pub redirects_of : String → List OauthClient → List String
redirects_of id clients = elim (fetch_one (has_client id) clients) [
  | none ↦ []
  | some c ↦ c.redirect_uris
]

-- `_validated_authorize`
unfoldable pub validated_authorize :
    List OauthClient
    → (client_id redirect_uri response_type code_challenge method : String)
    → Result HttpException (Unit {0})
validated_authorize clients client_id redirect_uri response_type code_challenge method =
    raise_if (not (has_scope redirect_uri (redirects_of client_id clients)))
      (error 400 "Unknown client or redirect URI")
    >> raise_if
        (not (same response_type "code")
          || not (same method "S256")
          || ltb (length (codes code_challenge)) 43)
        (error 400 "Authorization code with PKCE S256 is required")

unfoldable pub register_client :
    Store
    → (method : String) (redirect_uris : List String) (client_id : String) (stamp : ℕ)
    → Answer String
register_client store method redirect_uris client_id stamp =
    raise_if (not (same method "none")) (error 400 "Only public PKCE clients are supported")
    >> raise_if (length redirect_uris == 0 || ltb 10 (length redirect_uris))
        (error 400 "One to ten redirect URIs are required")
    >> ok (
      record store {
        clients =
            store.clients
            ++ record { client_id = client_id; redirect_uris = redirect_uris; created_at = stamp }
              ∷ [];
      },
      client_id,
    )

-- `[item for item in scope.split() if item in {"search", "write"}]`
unfoldable pub known_scopes : List String → List String
known_scopes [] = []
known_scopes (s ∷ ss) =
    let rest = known_scopes ss in if same s "search" || same s "write" then s ∷ rest else rest

unfoldable pub requested_scopes : List String → List String
unfolding known_scopes
requested_scopes scope =
    let requested = known_scopes scope in
    if has_scope "search" requested then requested else "search" ∷ requested

-- `any(item not in principal.scopes and "admin" not in principal.scopes for item in requested)`
unfoldable pub some_refused : List String → List String → Bool
some_refused scopes [] = false
some_refused scopes (s ∷ ss) =
    (not (has_scope s scopes) && not (has_scope "admin" scopes)) || some_refused scopes ss

-- The form of `authorize_submit`; `scope` is split into its words.
pub record Authorize : Type 0 where
  pub client_id : String
  pub redirect_uri : String
  pub response_type : String
  pub code_challenge : String
  pub code_challenge_method : String
  pub scope : List String
  pub vault_token : String

-- The form of `token_endpoint`.
pub record TokenRequest : Type 0 where
  pub grant_type : String
  pub client_id : String
  pub code : Option String
  pub code_verifier : Option String
  pub redirect_uri : Option String
  pub refresh_token : Option String

-- What one request draws at random and reads from the clock.
pub record Draw : Type 0 where
  pub access : String
  pub refresh : String
  pub access_id : String
  pub refresh_id : String
  pub checked_at : ℕ
  pub used_at : ℕ
  pub issued_at : ℕ

pub record Issued : Type 0 where
  pub access_token : String
  pub refresh_token : String
  pub scope : List String

abbrev pub invalid_code : HttpException
invalid_code = error 400 "Invalid or expired authorization code"

abbrev pub use_code : ℕ → OauthCode → OauthCode
use_code stamp row = record row { used_at = some stamp }

unfoldable pub without_refresh : List String → List String
without_refresh [] = []
without_refresh (s ∷ ss) =
    let rest = without_refresh ss in if same s "refresh" then rest else s ∷ rest

abbrev pub has_token_id : String → AccessToken → Bool
has_token_id id t = same t.id id

abbrev pub revoke : ℕ → AccessToken → AccessToken
revoke stamp t = record t { revoked_at = some stamp }

-- `value or ""` of a form field: an absent one and an empty one are refused alike.
abbrev pub field : Option String → String
field value = or_else value ""

abbrev pub is_missing : Option String → Bool
is_missing value = same (field value) ""

abbrev pub invalid_pairing : HttpException
invalid_pairing = error 400 "Invalid or expired pairing code"

abbrev pub use_pairing : ℕ → PairingCode → PairingCode
use_pairing stamp row = record row { used_at = some stamp }
