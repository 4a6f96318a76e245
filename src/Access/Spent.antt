-- ===== src/Access/Spent.antt =====
-- Authorization codes, refresh tokens and pairing codes are good for one use.
use personal_vault_rag.Prelude.{
  List, Option-cases, String, [], ap, arith, concat, inl, inr, ok, raise, refl, same_iff, some,
  subst, true, ℕ, ◌++◌, ◌∷◌, ◌≡◌, ◌≤◌,
}
use personal_vault_rag.Db.{Vault, AccessToken}
use personal_vault_rag.Table.{fetch_one, update}
use personal_vault_rag.Table.Closed.{Closed, Closed-enter}
use personal_vault_rag.Security.{
  Principal, has_hash, authenticate_token, principal_of, invalid_token,
}
use personal_vault_rag.Access.{
  Store, Authorize, TokenRequest, Draw, Issued, has_code, has_pairing, register_client, use_code,
  invalid_code, has_token_id, revoke, use_pairing, invalid_pairing,
}
use personal_vault_rag.Access.Requests.{
  authorize_submit, issue_oauth_tokens, revoke_refresh, check_refresh, exchange_code, is_refused,
  lasting_row, token_endpoint, create_vault, setup_vault, pairing_code, claim_pairing, lasting_row,
  is_refused,
}
use personal_vault_rag.Table.Rows.{fetch_one-Place}
use personal_vault_rag.Access.Exchange.{spend, exchange_code-ok, check_refresh-ok}
use personal_vault_rag.Access.Writes.{
  is_spent, is_revoked, is_claimed, truthy-some, Keeps, Keeps-refl, Keeps-trans, use_code-Keeps,
  revoke_refresh-Keeps, issue_oauth_tokens-Keeps, register_client-Keeps, authorize_submit-Keeps,
  token_endpoint-Keeps, claim_pairing-Keeps, create_vault-Keeps, setup_vault-Keeps,
  pairing_code-Keeps,
}

module _ (token_hash pkce_s256 : String → String) where
  -- One request that writes, or a part of one. Clock readings of a use are not zero.
  pub data Step (s s' : Store) : Type 0 where
    registered :
        (method : String) (uris : List String) (id : String) (stamp : ℕ) (a : String)
        → register_client s method uris id stamp ≡ ok (s', a)
        → Step s s'
    authorized :
        (form : Authorize) (code : String) (checked stamp : ℕ) (a : String)
        → authorize_submit token_hash pkce_s256 s form code checked stamp ≡ ok (s', a)
        → Step s s'
    exchanged :
        (draw : Draw) (q : TokenRequest) (a : Issued)
        → 1 ≤ draw.used_at
        → token_endpoint token_hash pkce_s256 s draw q ≡ ok (s', a)
        → Step s s'
    created :
        (p : Principal) (vault : Vault) (access id : String) (stamp : ℕ) (a : String)
        → create_vault token_hash pkce_s256 s p vault access id stamp ≡ ok (s', a)
        → Step s s'
    set_up :
        (given : String) (vault : Vault) (access id : String) (stamp : ℕ) (a : String)
        → setup_vault token_hash pkce_s256 s given vault access id stamp ≡ ok (s', a)
        → Step s s'
    offered :
        (p : Principal) (code : String) (minutes stamp : ℕ) (a : String)
        → pairing_code token_hash pkce_s256 s p code minutes stamp ≡ ok (s', a)
        → Step s s'
    paired :
        (code device token id : String) (stamp : ℕ) (a : String)
        → 1 ≤ stamp
        → claim_pairing token_hash pkce_s256 s code device token id stamp ≡ ok (s', a)
        → Step s s'
    -- A part of an exchange, between the connections of others: a code is used, a refresh token is
    -- revoked, or tokens are issued.
    redeems :
        (stamp : ℕ) (hash : String)
        → 1 ≤ stamp
        → spend token_hash pkce_s256 s stamp hash ≡ s'
        → Step s s'
    revokes : (stamp : ℕ) (p : Principal) → 1 ≤ stamp → revoke_refresh s stamp p ≡ s' → Step s s'
    issues :
        (draw : Draw) (vault_id client_id : String) (scopes : List String)
        → (issue_oauth_tokens token_hash pkce_s256 s draw vault_id client_id scopes).0 ≡ s'
        → Step s s'

  Step-Keeps : (s s' : Store) → Step s s' → Keeps s s'
  Step-Keeps s s' (registered method uris id stamp a h) =
      register_client-Keeps token_hash pkce_s256 s s' method uris id stamp a h
  Step-Keeps s s' (authorized form code checked stamp a h) =
      authorize_submit-Keeps token_hash pkce_s256 s s' form code checked stamp a h
  Step-Keeps s s' (exchanged draw q a later h) =
      token_endpoint-Keeps token_hash pkce_s256 s s' draw q a later h
  Step-Keeps s s' (created p vault access id stamp a h) =
      create_vault-Keeps token_hash pkce_s256 s s' p vault access id stamp a h
  Step-Keeps s s' (set_up given vault access id stamp a h) =
      setup_vault-Keeps token_hash pkce_s256 s s' given vault access id stamp a h
  Step-Keeps s s' (offered p code minutes stamp a h) =
      pairing_code-Keeps token_hash pkce_s256 s s' p code minutes stamp a h
  Step-Keeps s s' (paired code device token id stamp a later h) =
      claim_pairing-Keeps token_hash pkce_s256 s s' code device token id stamp a later h
  Step-Keeps s s' (redeems stamp hash later h) =
      subst (Keeps s) h (use_code-Keeps token_hash pkce_s256 s stamp hash later)
  Step-Keeps s s' (revokes stamp p later h) =
      subst (Keeps s) h (revoke_refresh-Keeps token_hash pkce_s256 s stamp p later)
  Step-Keeps s s' (issues draw vault_id client_id scopes h) =
      subst (Keeps s) h
        (issue_oauth_tokens-Keeps token_hash pkce_s256 s draw vault_id client_id scopes)

  -- The stores that requests, and parts of exchanges, reach from a store.
  pub data Reach (s : Store) : Store → Type 0 where
    start : Reach s s
    next : {u : Store} (t : Store) → Reach s t → Step t u → Reach s u

  Reach-Keeps : (s t : Store) → Reach s t → Keeps s t
  Reach-Keeps s t start = Keeps-refl s
  Reach-Keeps s t (next u r step) = Keeps-trans s u t (Reach-Keeps s u r) (Step-Keeps u t step)

  exchange_code-spent :
      (s : Store) (draw : Draw) (client_id code verifier redirect_uri : String)
      → Closed (has_code (token_hash code)) is_spent s.codes
      → exchange_code token_hash pkce_s256 s draw client_id code verifier redirect_uri
        ≡ raise invalid_code
  unfolding exchange_code is_refused
  exchange_code-spent s draw client_id code verifier redirect_uri (row, (found, spent)) =
      rw (found, spent) refl

  -- An authorization code is good for one exchange: when one has succeeded, then whatever requests
  -- follow, every exchange of that code is refused, for every client, verifier, redirect URI, time
  -- and further random tokens.
  pub exchange_code_once :
      (s s' t : Store) (draw : Draw) (client_id code verifier redirect_uri : String) (a : Issued)
      → 1 ≤ draw.used_at
      → exchange_code token_hash pkce_s256 s draw client_id code verifier redirect_uri ≡ ok (s', a)
      → Reach s' t
      → (draw' : Draw) (client_id' verifier' redirect_uri' : String)
      → exchange_code token_hash pkce_s256 t draw' client_id' code verifier' redirect_uri'
        ≡ raise invalid_code
  exchange_code_once s s' t draw client_id code verifier redirect_uri a later h r draw' c' v' r' =
      let (row, (e, (fits, q))) =
        exchange_code-ok token_hash pkce_s256 s s' draw client_id code verifier redirect_uri a h in
      let mid = spend token_hash pkce_s256 s draw.used_at (token_hash code) in
      let fits_key : has_code (token_hash code) row ≡ true = (fetch_one-Place _ _ _ e).1 in
      let closed : Closed (has_code (token_hash code)) is_spent mid.codes =
        Closed-enter (has_code (token_hash code)) is_spent (has_code (token_hash code))
          (use_code draw.used_at) (λ x. refl) (λ x. truthy-some draw.used_at later) s.codes row e
          fits_key in
      let issued : Closed (has_code (token_hash code)) is_spent s'.codes =
        subst (λ x. Closed (has_code (token_hash code)) is_spent x.0.codes) q
          ((issue_oauth_tokens-Keeps token_hash pkce_s256 mid draw row.vault_id client_id
              row.scope).codes
            _ closed) in
      exchange_code-spent t draw' c' code v' r' ((Reach-Keeps s' t r).codes _ issued)

  authenticate_token-revoked :
      (tokens : List AccessToken) (stamp : ℕ) (token : String)
      → Closed (has_hash (token_hash token)) is_revoked tokens
      → authenticate_token token_hash tokens stamp token ≡ raise invalid_token
  unfolding authenticate_token
  authenticate_token-revoked tokens stamp token (row, (found, revoked)) = rw (found, revoked) refl

  authenticate_token-ok :
      (tokens : List AccessToken) (stamp : ℕ) (token : String) (p : Principal)
      → authenticate_token token_hash tokens stamp token ≡ ok p
      → (row : AccessToken) × ((fetch_one (has_hash (token_hash token)) tokens ≡ some row)
          × (row.id ≡ p.token_id))
  unfolding authenticate_token
  authenticate_token-ok tokens stamp token p h =
      elim (Option-cases (fetch_one (has_hash (token_hash token)) tokens)) [
        | inl e ↦ absurd (ground arith)
        | inr (row, e) ↦
            let q : principal_of row ≡ p = ground arith in (row, (e, ap (λ x. x.token_id) q))
      ]

  -- Let an exchange check a refresh token, and revoke it after whatever requests and parts of other
  -- exchanges have come between. Then, whatever requests and parts of exchanges follow, the token stands
  -- for nobody, neither for the check of a further exchange nor as a bearer token.
  pub exchange_refresh_once :
      (s u t : Store) (checked_at used_at : ℕ) (client_id token : String) (p : Principal)
      → 1 ≤ used_at
      → check_refresh token_hash pkce_s256 s checked_at client_id token ≡ ok p
      → Reach s u
      → Reach (revoke_refresh u used_at p) t
      → (stamp : ℕ) (client_id' : String)
      → (check_refresh token_hash pkce_s256 t stamp client_id' token ≡ raise invalid_token)
        × (authenticate_token token_hash t.tokens stamp token ≡ raise invalid_token)
  unfolding revoke_refresh check_refresh
  exchange_refresh_once s u t checked_at used_at client_id token p later h before after stamp
        client_id' =
      let w = check_refresh-ok token_hash pkce_s256 s checked_at client_id token p h in
      let (row, (e, same_id)) = authenticate_token-ok s.tokens checked_at token p w in
      let (mine, (found, own)) =
        (Reach-Keeps s u before).names (token_hash token) p.token_id
          (row, (e, (same_iff _ _).1 same_id)) in
      let closed : Closed (has_hash (token_hash token)) is_revoked
          (revoke_refresh u used_at p).tokens =
        Closed-enter (has_hash (token_hash token)) is_revoked (has_token_id p.token_id)
          (revoke used_at) (λ x. refl) (λ x. truthy-some used_at later) u.tokens mine found own in
      let gone =
        authenticate_token-revoked t.tokens stamp token
          ((Reach-Keeps (revoke_refresh u used_at p) t after).tokens _ closed) in
      (rw gone refl, gone)

  claim_pairing-claimed :
      (s : Store) (code device token id : String) (stamp : ℕ)
      → Closed (has_pairing (token_hash code)) is_claimed s.pairing_codes
      → claim_pairing token_hash pkce_s256 s code device token id stamp ≡ raise invalid_pairing
  unfolding claim_pairing
  claim_pairing-claimed s code device token id stamp (row, (found, used)) = rw (found, used) refl

  -- A pairing code connects one device: when one claim has succeeded, then whatever requests
  -- follow, every claim of that code is refused.
  pub claim_pairing_once :
      (s s' t : Store) (code device token id : String) (stamp : ℕ) (a : String)
      → 1 ≤ stamp
      → claim_pairing token_hash pkce_s256 s code device token id stamp ≡ ok (s', a)
      → Reach s' t
      → (device' token' id' : String) (stamp' : ℕ)
      → claim_pairing token_hash pkce_s256 t code device' token' id' stamp' ≡ raise invalid_pairing
  unfolding claim_pairing
  claim_pairing_once s s' t code device token id stamp a later h r d' k' i' t' =
      elim (Option-cases (fetch_one (has_pairing (token_hash code)) s.pairing_codes)) [
        | inl e ↦ absurd (ground arith)
        | inr (row, e) ↦
            let q : update (has_pairing (token_hash code)) (use_pairing stamp) s.pairing_codes
                ≡ s'.pairing_codes =
              let pair_q : (record s {
                pairing_codes =
                    update (has_pairing (token_hash code)) (use_pairing stamp) s.pairing_codes;
                tokens =
                    s.tokens
                    ++ lasting_row token_hash pkce_s256 id row.vault_id token
                        (concat "Connector: " device) ("search" ∷ "write" ∷ "ingest" ∷ []) stamp
                      ∷ [];
              })
                  ≡ s' =
                ground arith in
              ap (λ x. x.pairing_codes) pair_q in
            let fits_key : has_pairing (token_hash code) row ≡ true = (fetch_one-Place _ _ _ e).1 in
            let closed : Closed (has_pairing (token_hash code)) is_claimed s'.pairing_codes =
              subst (Closed (has_pairing (token_hash code)) is_claimed) q (
                Closed-enter (has_pairing (token_hash code)) is_claimed
                  (has_pairing (token_hash code)) (use_pairing stamp) (λ x. refl)
                  (λ x. truthy-some stamp later) s.pairing_codes row e fits_key) in
            claim_pairing-claimed t code d' k' i' t' ((Reach-Keeps s' t r).pairings _ closed)
      ]
