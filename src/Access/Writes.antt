-- ===== src/Access/Writes.antt =====
-- What is used or revoked stays so under every operation of app/oauth.py and app/main.py that writes
-- the tables of access.
use personal_vault_rag.Prelude.{
  Bool, Bool-cases, List, Option-cases, Result-cases, String, [], arith, concat, inl, inr, none, ok,
  refl, same, seconds, some, subst, true, truthy, ℕ, ◌*◌, ◌++◌, ◌+◌, ◌∷◌, ◌≡◌, ◌≤◌,
}
use personal_vault_rag.Db.{Vault, AccessToken, PairingCode, OauthCode}
use personal_vault_rag.Table.{fetch_one, update}
use personal_vault_rag.Table.Closed.{Closed, Closed-append, Closed-update, Closed-kept}
use personal_vault_rag.Security.{Principal, has_hash, authenticate_token, require}
use personal_vault_rag.Access.{
  Store, Authorize, TokenRequest, Draw, Issued, has_code, has_pairing, register_client,
  validated_authorize, use_code, without_refresh, field, has_token_id, revoke, use_pairing,
}
use personal_vault_rag.Access.Requests.{
  revoke_refresh, authorize_submit, new_code, issue_oauth_tokens, exchange_code, exchange_refresh,
  lasting_row, token_endpoint, insert_vault, create_vault, setup_vault, pairing_code, claim_pairing,
}
use personal_vault_rag.Access.Exchange.{spend, exchange_code-ok, exchange_refresh-ok}

abbrev pub is_spent : OauthCode → Bool
is_spent c = truthy c.used_at

abbrev pub is_revoked : AccessToken → Bool
is_revoked t = truthy t.revoked_at

abbrev pub is_claimed : PairingCode → Bool
is_claimed c = truthy c.used_at

-- What is closed in one store is closed in the next, and a token's row stays the token's.
pub record Keeps (s s' : Store) : Type 0 where
  pub codes :
      (hash : String)
      → Closed (has_code hash) is_spent s.codes
      → Closed (has_code hash) is_spent s'.codes
  pub tokens :
      (hash : String)
      → Closed (has_hash hash) is_revoked s.tokens
      → Closed (has_hash hash) is_revoked s'.tokens
  -- The row of a token keeps its identifier.
  pub names :
      (hash id : String)
      → Closed (has_hash hash) (has_token_id id) s.tokens
      → Closed (has_hash hash) (has_token_id id) s'.tokens
  pub pairings :
      (hash : String)
      → Closed (has_pairing hash) is_claimed s.pairing_codes
      → Closed (has_pairing hash) is_claimed s'.pairing_codes

pub Keeps-refl : (s : Store) → Keeps s s
Keeps-refl s = record {
  codes = λ h c. c;
  tokens = λ h c. c;
  names = λ h i c. c;
  pairings = λ h c. c;
}

pub Keeps-trans : (s t u : Store) → Keeps s t → Keeps t u → Keeps s u
Keeps-trans s t u h k = record {
  codes = λ x c. k.codes x (h.codes x c);
  tokens = λ x c. k.tokens x (h.tokens x c);
  names = λ x i c. k.names x i (h.names x i c);
  pairings = λ x c. k.pairings x (h.pairings x c);
}

pub truthy-some : (t : ℕ) → 1 ≤ t → truthy (some t) ≡ true
truthy-some t h = ground arith

module _ (token_hash pkce_s256 : String → String) where
  pub register_client-Keeps :
      (s s' : Store) (method : String) (uris : List String) (id : String) (stamp : ℕ) (a : String)
      → register_client s method uris id stamp ≡ ok (s', a)
      → Keeps s s'
  unfolding register_client
  register_client-Keeps s s' method uris id stamp a h =
      let q : record s {
        clients =
            s.clients ++ record { client_id = id; redirect_uris = uris; created_at = stamp } ∷ [];
      }
          ≡ s' =
        ground arith in
      subst (Keeps s) q
        (record { codes = λ x c. c; tokens = λ x c. c; names = λ x i c. c; pairings = λ x c. c })

  pub authorize_submit-Keeps :
      (s s' : Store) (form : Authorize) (code : String) (checked stamp : ℕ) (a : String)
      → authorize_submit token_hash pkce_s256 s form code checked stamp ≡ ok (s', a)
      → Keeps s s'
  unfolding authorize_submit
  authorize_submit-Keeps s s' form code checked stamp a h =
      elim (Result-cases (
        validated_authorize s.clients form.client_id form.redirect_uri form.response_type
          form.code_challenge form.code_challenge_method)) [
            | inr (e, v) ↦ absurd (ground arith)
            | inl (t, v) ↦
                elim (Result-cases
                  (authenticate_token token_hash s.tokens checked form.vault_token)) [
                    | inr (e, w) ↦ absurd (ground arith)
                    | inl (p, w) ↦
                        let next : Store = record s {
                          codes = s.codes ++ new_code token_hash pkce_s256 form p code stamp ∷ [];
                        } in
                        let q : next ≡ s' = ground arith in
                        let k : Keeps s next = record {
                          codes = λ x c. Closed-append (has_code x) is_spent s.codes _ c;
                          tokens = λ x c. c;
                          names = λ x i c. c;
                          pairings = λ x c. c;
                        } in
                        subst (Keeps s) q k
                  ]
          ]

  pub issue_oauth_tokens-Keeps :
      (s : Store) (draw : Draw) (vault_id client_id : String) (scopes : List String)
      → Keeps s (issue_oauth_tokens token_hash pkce_s256 s draw vault_id client_id scopes).0
  unfolding issue_oauth_tokens
  issue_oauth_tokens-Keeps s draw vault_id client_id scopes = record {
    codes = λ x c. c;
    tokens = λ x c. Closed-append (has_hash x) is_revoked s.tokens _ c;
    names = λ x i c. Closed-append (has_hash x) (has_token_id i) s.tokens _ c;
    pairings = λ x c. c;
  }

  pub use_code-Keeps :
      (s : Store) (stamp : ℕ) (hash : String)
      → 1 ≤ stamp
      → Keeps s (record s { codes = update (has_code hash) (use_code stamp) s.codes })
  use_code-Keeps s stamp hash later = record {
    codes = λ x c.
        Closed-update (has_code x) is_spent (has_code hash) (use_code stamp) (λ r. refl)
          (λ r. truthy-some stamp later) s.codes c;
    tokens = λ x c. c;
    names = λ x i c. c;
    pairings = λ x c. c;
  }

  pub revoke_refresh-Keeps :
      (s : Store) (stamp : ℕ) (p : Principal) → 1 ≤ stamp → Keeps s (revoke_refresh s stamp p)
  unfolding revoke_refresh
  revoke_refresh-Keeps s stamp p later = record {
    codes = λ x c. c;
    tokens = λ x c.
        Closed-update (has_hash x) is_revoked (has_token_id p.token_id) (revoke stamp) (λ r. refl)
          (λ r. truthy-some stamp later) s.tokens c;
    names = λ x i c.
        Closed-kept (has_hash x) (has_token_id i) (has_token_id p.token_id) (revoke stamp)
          (λ r. refl) (λ r. refl) s.tokens c;
    pairings = λ x c. c;
  }

  exchange_code-Keeps :
      (s s' : Store) (draw : Draw) (client_id code verifier redirect_uri : String) (a : Issued)
      → 1 ≤ draw.used_at
      → exchange_code token_hash pkce_s256 s draw client_id code verifier redirect_uri ≡ ok (s', a)
      → Keeps s s'
  exchange_code-Keeps s s' draw client_id code verifier redirect_uri a later h =
      let (row, (e, (r, q))) =
        exchange_code-ok token_hash pkce_s256 s s' draw client_id code verifier redirect_uri a h in
      let mid = spend token_hash pkce_s256 s draw.used_at (token_hash code) in
      subst (λ x. Keeps s x.0) q
        (Keeps-trans s mid _ (use_code-Keeps s draw.used_at (token_hash code) later)
          (issue_oauth_tokens-Keeps mid draw row.vault_id client_id row.scope))

  exchange_refresh-Keeps :
      (s s' : Store) (draw : Draw) (client_id token : String) (a : Issued)
      → 1 ≤ draw.used_at
      → exchange_refresh token_hash pkce_s256 s draw client_id token ≡ ok (s', a)
      → Keeps s s'
  exchange_refresh-Keeps s s' draw client_id token a later h =
      let (p, q) = exchange_refresh-ok token_hash pkce_s256 s s' draw client_id token a h in
      let mid = revoke_refresh s draw.used_at p in
      subst (λ x. Keeps s x.0) q
        (Keeps-trans s mid _ (revoke_refresh-Keeps s draw.used_at p later)
          (issue_oauth_tokens-Keeps mid draw p.vault_id client_id (without_refresh p.scopes)))

  pub token_endpoint-Keeps :
      (s s' : Store) (draw : Draw) (q : TokenRequest) (a : Issued)
      → 1 ≤ draw.used_at
      → token_endpoint token_hash pkce_s256 s draw q ≡ ok (s', a)
      → Keeps s s'
  unfolding token_endpoint
  token_endpoint-Keeps s s' draw q a later h =
      elim (Bool-cases (same q.grant_type "authorization_code")) [
        | inl e ↦
            exchange_code-Keeps s s' draw q.client_id (field q.code) (field q.code_verifier)
              (field q.redirect_uri) a later (ground arith)
        | inr e ↦ elim (Bool-cases (same q.grant_type "refresh_token")) [
          | inl e' ↦
              exchange_refresh-Keeps s s' draw q.client_id (field q.refresh_token) a later
                (ground arith)
          | inr e' ↦ absurd (ground arith)
        ]
      ]

  insert_vault-Keeps :
      (s : Store) (vault : Vault) (access id : String) (stamp : ℕ)
      → Keeps s (insert_vault token_hash pkce_s256 s vault access id stamp)
  unfolding insert_vault
  insert_vault-Keeps s vault access id stamp = record {
    codes = λ x c. c;
    tokens = λ x c. Closed-append (has_hash x) is_revoked s.tokens _ c;
    names = λ x i c. Closed-append (has_hash x) (has_token_id i) s.tokens _ c;
    pairings = λ x c. c;
  }

  pub claim_pairing-Keeps :
      (s s' : Store) (code device token id : String) (stamp : ℕ) (a : String)
      → 1 ≤ stamp
      → claim_pairing token_hash pkce_s256 s code device token id stamp ≡ ok (s', a)
      → Keeps s s'
  unfolding claim_pairing
  claim_pairing-Keeps s s' code device token id stamp a later h =
      elim (Option-cases (fetch_one (has_pairing (token_hash code)) s.pairing_codes)) [
        | inl e ↦ absurd (ground arith)
        | inr (row, e) ↦
            let next : Store = record s {
              pairing_codes =
                  update (has_pairing (token_hash code)) (use_pairing stamp) s.pairing_codes;
              tokens =
                  s.tokens
                  ++ lasting_row token_hash pkce_s256 id row.vault_id token
                      (concat "Connector: " device) ("search" ∷ "write" ∷ "ingest" ∷ []) stamp
                    ∷ [];
            } in
            let q : next ≡ s' = ground arith in
            let k : Keeps s next = record {
              codes = λ x c. c;
              tokens = λ x c. Closed-append (has_hash x) is_revoked s.tokens _ c;
              names = λ x i c. Closed-append (has_hash x) (has_token_id i) s.tokens _ c;
              pairings = λ x c.
                  Closed-update (has_pairing x) is_claimed (has_pairing (token_hash code))
                    (use_pairing stamp) (λ r. refl) (λ r. truthy-some stamp later) s.pairing_codes
                    c;
            } in
            subst (Keeps s) q k
      ]

  pub create_vault-Keeps :
      (s s' : Store) (p : Principal) (vault : Vault) (access id : String) (stamp : ℕ) (a : String)
      → create_vault token_hash pkce_s256 s p vault access id stamp ≡ ok (s', a)
      → Keeps s s'
  unfolding create_vault require
  create_vault-Keeps s s' p vault access id stamp a h =
      let q : insert_vault token_hash pkce_s256 s vault access id stamp ≡ s' = ground arith in
      subst (Keeps s) q (insert_vault-Keeps s vault access id stamp)

  pub setup_vault-Keeps :
      (s s' : Store) (given : String) (vault : Vault) (access id : String) (stamp : ℕ) (a : String)
      → setup_vault token_hash pkce_s256 s given vault access id stamp ≡ ok (s', a)
      → Keeps s s'
  unfolding setup_vault
  setup_vault-Keeps s s' given vault access id stamp a h = elim (Option-cases s.bootstrap_code) [
    | inl e ↦ absurd (ground arith)
    | inr (stored, e) ↦
        let next : Store = record (insert_vault token_hash pkce_s256 s vault access id stamp) {
          bootstrap_code = none;
        } in
        let q : next ≡ s' = ground arith in
        let k = insert_vault-Keeps s vault access id stamp in
        let kept : Keeps s next = record {
          codes = k.codes;
          tokens = k.tokens;
          names = k.names;
          pairings = k.pairings;
        } in
        subst (Keeps s) q kept
  ]

  pub pairing_code-Keeps :
      (s s' : Store) (p : Principal) (code : String) (minutes stamp : ℕ) (a : String)
      → pairing_code token_hash pkce_s256 s p code minutes stamp ≡ ok (s', a)
      → Keeps s s'
  unfolding pairing_code require
  pairing_code-Keeps s s' p code minutes stamp a h =
      let next : Store = record s {
        pairing_codes =
            s.pairing_codes
            ++ record {
              code_hash = token_hash code;
              vault_id = p.vault_id;
              expires_at = stamp + seconds (minutes * 60);
              used_at = none;
            }
              ∷ [];
      } in
      let q : next ≡ s' = ground arith in
      let k : Keeps s next = record {
        codes = λ x c. c;
        tokens = λ x c. c;
        names = λ x i c. c;
        pairings = λ x c. Closed-append (has_pairing x) is_claimed s.pairing_codes _ c;
      } in
      subst (Keeps s) q k
