-- ===== src/Mcp/Grants.antt =====
-- Which tokens the tools of app/mcp_server.py and the requests of app/main.py admit. The library that
-- asks for the required scopes before a tool runs is an argument.
use personal_vault_rag.Prelude.{
  Bool, Bool-cases, List, Option, Result-cases, String, [], arith, false, if◌then◌else◌, inl, inr,
  none, not, ok, refl, same, some, subst, sym, ◌∙◌, true, ℕ, ◌&&◌, ◌∷◌, ◌≡◌, ◌↔◌,
}
use personal_vault_rag.Db.{AccessToken}
use personal_vault_rag.Security.{Principal, has_scope, require, authenticate_token}
use personal_vault_rag.Mcp.{Access, access_of, required_scopes, verify_token, current_vault}

abbrev pub has_every : (required scopes : List String) → Bool
has_every [] scopes = true
has_every (s ∷ required) scopes = has_scope s scopes && has_every required scopes

-- The library gives a tool the access that was verified, if it has every required scope.
abbrev pub AsksScopes : (List String → Option Access → Option Access) → Type 0
AsksScopes admit =
    ((required : List String) → admit required none ≡ none)
    × ((required : List String) (a : Access)
        → admit required (some a) ≡ (if has_every required a.scopes then some a else none))

module _ (admit : List String → Option Access → Option Access) (asks : AsksScopes admit)
    (token_hash : String → String) (tokens : List AccessToken) (stamp : ℕ) (token : String)
    (scope vault_id : String) where
  -- What a tool knows of its caller.
  abbrev pub access : Option Access
  access = admit required_scopes (verify_token token_hash tokens stamp token)

  -- The token is one that a request to the HTTP interface would be admitted with for the scope, and it
  -- has the scope that every tool requires.
  pub record IsGranted : Type 0 where
    pub principal : Principal
    pub authenticated : authenticate_token token_hash tokens stamp token ≡ ok principal
    pub allowed : require principal scope ≡ ok tt
    pub own : principal.vault_id ≡ vault_id
    pub searches : has_scope "search" principal.scopes ≡ true

  access-searches :
      (p : Principal)
      → authenticate_token token_hash tokens stamp token ≡ ok p
      → has_scope "search" p.scopes ≡ true
      → access ≡ some (access_of token p)
  unfolding verify_token
  access-searches p f s = rw f (asks.1 required_scopes (access_of token p) ∙ rw s refl)

  access-lacks :
      (p : Principal)
      → authenticate_token token_hash tokens stamp token ≡ ok p
      → has_scope "search" p.scopes ≡ false
      → access ≡ none
  unfolding verify_token
  access-lacks p f s = rw f (asks.1 required_scopes (access_of token p) ∙ rw s refl)

  current_vault-grants : current_vault access scope ≡ ok vault_id → IsGranted
  unfolding current_vault verify_token require
  current_vault-grants h = elim (Result-cases (authenticate_token token_hash tokens stamp token)) [
    | inr (e, f) ↦
        let gone : access ≡ none = rw (f, verify_token) (asks.0 required_scopes) in
        absurd (ground (arith, rw gone at h))
    | inl (p, f) ↦ elim (Bool-cases (has_scope "search" p.scopes)) [
      | inr s ↦ let gone = access-lacks p f s in absurd (ground (arith, rw gone at h))
      | inl s ↦
          let k : current_vault (some (access_of token p)) scope ≡ ok vault_id =
            subst (λ a. current_vault a scope ≡ ok vault_id) (access-searches p f s) h in
          elim (Bool-cases (not (has_scope scope p.scopes) && not (has_scope "admin" p.scopes))) [
            | inl g ↦ absurd (ground arith)
            | inr g ↦ record {
              principal = p;
              authenticated = f;
              allowed = ground arith;
              own = ground arith;
              searches = s;
            }
          ]
    ]
  ]

  current_vault-granted :
      same vault_id "" ≡ false → IsGranted → current_vault access scope ≡ ok vault_id
  unfolding current_vault require
  current_vault-granted filled g =
      let p = g.principal in
      let a = g.allowed in
      let o = g.own in
      let k : current_vault (some (access_of token p)) scope ≡ ok vault_id = ground arith in
      subst (λ x. current_vault x scope ≡ ok vault_id)
        (sym (access-searches p g.authenticated g.searches)) k

  -- Where the library asks for the scopes that the server requires, and the vault's identifier is not
  -- empty, a tool that asks for a scope acts on a vault exactly when the token has the scope search and
  -- a request with it would be authenticated for that vault and be allowed the scope.
  pub current_vault-IsGranted :
      same vault_id "" ≡ false → (current_vault access scope ≡ ok vault_id) ↔ IsGranted
  current_vault-IsGranted filled = (current_vault-grants, current_vault-granted filled)
