-- ===== src/Access/Scopes.antt =====
-- What `authorize_submit` of app/oauth.py grants.
use personal_vault_rag.Prelude.{
  All, Bool, String, [], ok, same, true, ℕ, ◌&&◌, ◌++◌, ◌||◌, ◌∷◌, ◌≡◌,
}
use personal_vault_rag.Security.{Principal, has_scope, authenticate_token}
use personal_vault_rag.Access.{Store, Authorize, requested_scopes, redirects_of}
use personal_vault_rag.Access.Requests.{new_code}

-- A scope that the holder of a token may pass on.
abbrev pub is_grantable : Principal → String → Bool
is_grantable p s =
    (same s "search" || same s "write") && (has_scope s p.scopes || has_scope "admin" p.scopes)

-- What `authorize_submit` has checked when it succeeds: the vault token is good, the redirect URI
-- is registered for the client, and the code it adds is for the token's vault and for scopes that
-- the token may pass on, among them `search`.
pub record Authorized (token_hash pkce_s256 : String → String) (s s' : Store) (form : Authorize)
    (checked stamp : ℕ) (code : String) : Type 0 where
  pub principal : Principal
  pub authentic : authenticate_token token_hash s.tokens checked form.vault_token ≡ ok principal
  pub registered : has_scope form.redirect_uri (redirects_of form.client_id s.clients) ≡ true
  pub added : s'.codes ≡ s.codes ++ new_code token_hash pkce_s256 form principal code stamp ∷ []
  pub granted : All (λ x. is_grantable principal x ≡ true) (requested_scopes form.scope)
  pub searches : has_scope "search" (requested_scopes form.scope) ≡ true
