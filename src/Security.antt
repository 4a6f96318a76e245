-- ===== src/Security.antt =====
-- app/security.py: who a bearer token stands for and what it may do, and the signed links to
-- documents. SHA-256, the signing key's HMAC and the clock are arguments.
use personal_vault_rag.Prelude.{
  Bool, List, Option, Result, String, [], concat, false, if◌then◌else◌, ltb, none, not, ok, raise,
  raise_if, same, some, truthy, ℕ, ◌&&◌, ◌/◌, ◌==◌, ◌>>◌, ◌||◌, ◌∷◌,
}
use personal_vault_rag.Db.{AccessToken}
use personal_vault_rag.Table.{fetch_one}

-- The errors that the operations raise, with the status code of each.
pub data HttpException : Type 0 where
  http : (status_code : ℕ) (detail : String) → HttpException

abbrev pub invalid_token : HttpException
invalid_token = HttpException.http 401 "Invalid or expired access token"

abbrev pub lacks_scope : String → HttpException
lacks_scope scope = HttpException.http 403 (concat "Token lacks '" (concat scope "' scope"))

pub record Principal : Type 0 where
  pub vault_id : String
  pub token_id : String
  pub scopes : List String
  pub label : String

-- `scope in scopes`
unfoldable pub has_scope : String → List String → Bool
has_scope scope [] = false
has_scope scope (s ∷ ss) = same s scope || has_scope scope ss

unfoldable pub require : Principal → String → Result HttpException (Unit {0})
require p scope =
    raise_if (not (has_scope scope p.scopes) && not (has_scope "admin" p.scopes))
      (lacks_scope scope)

abbrev pub has_hash : String → AccessToken → Bool
has_hash hash t = same t.token_hash hash

-- `value and value < now`, of a time that may be NULL
abbrev pub is_past : Option ℕ → ℕ → Bool
is_past none stamp = false
is_past (some t) stamp = not (t == 0) && ltb t stamp

abbrev pub principal_of : AccessToken → Principal
principal_of t = record {
  vault_id = t.vault_id;
  token_id = t.id;
  scopes = t.scopes;
  label = t.label;
}

abbrev pub admit : ℕ → Option AccessToken → Result HttpException Principal
admit stamp none = raise invalid_token
admit stamp (some t) =
    raise_if (truthy t.revoked_at || is_past t.expires_at stamp) invalid_token
    >> ok (principal_of t)

unfoldable pub authenticate_token :
    (token_hash : String → String)
    → List AccessToken
    → (stamp : ℕ) → String
    → Result HttpException Principal
authenticate_token token_hash tokens stamp token =
    admit stamp (fetch_one (has_hash (token_hash token)) tokens)

-- `int(now())` of a time in microseconds
abbrev pub whole_seconds : ℕ → ℕ
whole_seconds stamp = stamp / 1_000_000

unfoldable pub check_view_signature :
    (sign_view : String → String → String → ℕ → String)
    → (stamp : ℕ) → (vault_id document_id version_id : String) (expires : ℕ) (signature : String)
    → Bool
check_view_signature sign_view stamp vault_id document_id version_id expires signature =
    if ltb expires (whole_seconds stamp)
    then false
    else same (sign_view vault_id document_id version_id expires) signature
