-- ===== src/Access/Requests.antt =====
-- The requests of app/oauth.py and app/main.py that grant access.
use personal_vault_rag.Prelude.{
  Bool, List, Option, String, [], concat, if◌then◌else◌, is_some, length, ltb, none, not, ok, raise,
  Result, raise_if, same, seconds, some, truthy, ℕ, ◌*◌, ◌++◌, ◌+◌, ◌==◌, ◌>>=◌, ◌>>◌, ◌||◌, ◌∷◌,
}
use personal_vault_rag.Db.{Vault, AccessToken, PairingCode, OauthCode}
use personal_vault_rag.Table.{fetch_one, update}
use personal_vault_rag.Security.{Principal, HttpException, has_scope, require, authenticate_token}
use personal_vault_rag.Access.{
  Store, Answer, error, has_client, has_code, has_pairing, validated_authorize, requested_scopes,
  some_refused, Authorize, TokenRequest, Draw, Issued, invalid_code, use_code, without_refresh,
  has_token_id, revoke, field, is_missing, invalid_pairing, use_pairing,
}

-- The second connection of the exchange of a refresh token, for the principal of the first.
unfoldable pub revoke_refresh : Store → (used_at : ℕ) → Principal → Store
revoke_refresh store used_at p = record store {
  tokens = update (has_token_id p.token_id) (revoke used_at) store.tokens;
}

module _ (token_hash pkce_s256 : String → String) where
  unfoldable pub new_code : Authorize → Principal → (code : String) (stamp : ℕ) → OauthCode
  new_code form p code stamp = record {
    code_hash = token_hash code;
    client_id = form.client_id;
    vault_id = p.vault_id;
    redirect_uri = form.redirect_uri;
    code_challenge = form.code_challenge;
    scope = requested_scopes form.scope;
    expires_at = stamp + seconds 300;
    used_at = none;
  }

  unfoldable pub authorize_submit :
      Store → Authorize → (code : String) (authenticated_at stamp : ℕ) → Answer String
  unfolding validated_authorize
  authorize_submit store form code authenticated_at stamp =
      validated_authorize store.clients form.client_id form.redirect_uri form.response_type
        form.code_challenge form.code_challenge_method
      >> authenticate_token token_hash store.tokens authenticated_at form.vault_token
      >>= λ p.
          raise_if (some_refused p.scopes (requested_scopes form.scope))
            (error 403 "Vault token does not grant requested scopes")
          >> ok (record store { codes = store.codes ++ new_code form p code stamp ∷ [] }, code)

  unfoldable pub oauth_row :
      (id vault_id token label : String) (scopes : List String) (stamp expires_at : ℕ) → AccessToken
  oauth_row id vault_id token label scopes stamp expires_at = record {
    id = id;
    vault_id = vault_id;
    token_hash = token_hash token;
    label = label;
    scopes = scopes;
    created_at = stamp;
    expires_at = some expires_at;
    revoked_at = none;
  }

  -- `_issue_oauth_tokens`
  unfoldable pub issue_oauth_tokens :
      Store → Draw → (vault_id client_id : String) (scopes : List String) → Store × Issued
  unfolding oauth_row
  issue_oauth_tokens store draw vault_id client_id scopes =
      let stamp = draw.issued_at in
      let access_row =
        oauth_row draw.access_id vault_id draw.access (concat "OAuth access " client_id) scopes
          stamp (stamp + seconds 3600) in
      let refresh_row =
        oauth_row draw.refresh_id vault_id draw.refresh (concat "OAuth refresh " client_id)
          ("refresh" ∷ scopes) stamp (stamp + seconds (30 * 86400)) in
      (
        record store { tokens = store.tokens ++ access_row ∷ refresh_row ∷ [] },
        record { access_token = draw.access; refresh_token = draw.refresh; scope = scopes },
      )

  -- The tests on the row of a code.
  unfoldable pub is_refused : OauthCode → (client_id redirect_uri verifier : String) → ℕ → Bool
  is_refused row client_id redirect_uri verifier stamp =
      truthy row.used_at
      || ltb row.expires_at stamp
      || not (same row.client_id client_id)
      || not (same row.redirect_uri redirect_uri)
      || not (same (pkce_s256 verifier) row.code_challenge)

  abbrev pub redeem :
      Store
      → Draw
      → (client_id code verifier redirect_uri : String) → Option OauthCode
      → Answer Issued
  redeem store draw client_id code verifier redirect_uri none = raise invalid_code
  redeem store draw client_id code verifier redirect_uri (some row) =
      raise_if (is_refused row client_id redirect_uri verifier draw.checked_at) invalid_code
      >> ok (
          issue_oauth_tokens
            (record store {
              codes = update (has_code (token_hash code)) (use_code draw.used_at) store.codes;
            })
            draw row.vault_id client_id row.scope)

  -- The branch of `token_endpoint` for an authorization code.
  unfoldable pub exchange_code :
      Store → Draw → (client_id code verifier redirect_uri : String) → Answer Issued
  exchange_code store draw client_id code verifier redirect_uri =
      redeem store draw client_id code verifier redirect_uri
        (fetch_one (has_code (token_hash code)) store.codes)

  -- The branch for a refresh token: its first connection, which reads.
  unfoldable pub check_refresh :
      Store → (checked_at : ℕ) (client_id refresh_token : String) → Result HttpException Principal
  check_refresh store checked_at client_id refresh_token =
      authenticate_token token_hash store.tokens checked_at refresh_token >>= λ p.
      raise_if
        (not (has_scope "refresh" p.scopes)
          || not (same p.label (concat "OAuth refresh " client_id)))
        (error 400 "Invalid refresh token")
      >> ok p

  -- The whole branch, if no other request comes between its connections.
  unfoldable pub exchange_refresh :
      Store → Draw → (client_id refresh_token : String) → Answer Issued
  unfolding check_refresh revoke_refresh
  exchange_refresh store draw client_id refresh_token =
      check_refresh store draw.checked_at client_id refresh_token >>= λ p. ok (
        issue_oauth_tokens (revoke_refresh store draw.used_at p) draw p.vault_id client_id
          (without_refresh p.scopes))

  unfoldable pub token_endpoint : Store → Draw → TokenRequest → Answer Issued
  token_endpoint store draw q =
      raise_if (not (is_some (fetch_one (has_client q.client_id) store.clients)))
        (error 401 "Unknown client")
      >> (if same q.grant_type "authorization_code"
          then raise_if
              (is_missing q.code || is_missing q.code_verifier || is_missing q.redirect_uri)
              (error 400 "code, code_verifier and redirect_uri are required")
            >> exchange_code store draw q.client_id (field q.code) (field q.code_verifier)
                (field q.redirect_uri)
          else if same q.grant_type "refresh_token"
          then raise_if (is_missing q.refresh_token) (error 400 "refresh_token is required")
            >> exchange_refresh store draw q.client_id (field q.refresh_token)
          else raise (error 400 "Unsupported grant_type"))

  -- A token of app/main.py, which does not expire.
  unfoldable pub lasting_row :
      (id vault_id token label : String) (scopes : List String) (stamp : ℕ) → AccessToken
  lasting_row id vault_id token label scopes stamp = record {
    id = id;
    vault_id = vault_id;
    token_hash = token_hash token;
    label = label;
    scopes = scopes;
    created_at = stamp;
    expires_at = none;
    revoked_at = none;
  }

  -- The two inserts of `create_vault` and `setup_vault`; `vault` has the settings' quotas.
  unfoldable pub insert_vault : Store → Vault → (access token_id : String) (stamp : ℕ) → Store
  unfolding lasting_row
  insert_vault store vault access token_id stamp = record store {
    vaults = store.vaults ++ vault ∷ [];
    tokens =
        store.tokens
        ++ lasting_row token_id vault.id access "Initial administrator"
            ("admin" ∷ "search" ∷ "write" ∷ "ingest" ∷ []) stamp
          ∷ [];
  }

  unfoldable pub create_vault :
      Store → Principal → Vault → (access token_id : String) (stamp : ℕ) → Answer String
  unfolding insert_vault
  create_vault store p vault access token_id stamp =
      require p "admin" >> ok (insert_vault store vault access token_id stamp, access)

  -- A vault is set up once; the file of the code is unlinked.
  abbrev pub set_up :
      Store
      → (given_code : String) → Vault
      → (access token_id : String) (stamp : ℕ) → Option String
      → Answer String
  set_up store given_code vault access token_id stamp none =
      raise (error 403 "Invalid bootstrap code")
  set_up store given_code vault access token_id stamp (some stored) =
      raise_if (not (same stored given_code)) (error 403 "Invalid bootstrap code")
      >> raise_if (not (length store.vaults == 0)) (error 409 "Initial setup is already complete")
      >> ok (
        record (insert_vault store vault access token_id stamp) { bootstrap_code = none },
        access,
      )

  unfoldable pub setup_vault :
      Store → (given_code : String) → Vault → (access token_id : String) (stamp : ℕ) → Answer String
  unfolding insert_vault
  setup_vault store given_code vault access token_id stamp =
      set_up store given_code vault access token_id stamp store.bootstrap_code

  unfoldable pub pairing_code :
      Store → Principal → (code : String) (expires_minutes stamp : ℕ) → Answer String
  pairing_code store p code expires_minutes stamp =
      require p "ingest"
      >> ok (
        record store {
          pairing_codes =
              store.pairing_codes
              ++ record {
                code_hash = token_hash code;
                vault_id = p.vault_id;
                expires_at = stamp + seconds (expires_minutes * 60);
                used_at = none;
              }
                ∷ [];
        },
        code,
      )

  abbrev pub pair :
      Store
      → (code device_name token token_id : String) (stamp : ℕ) → Option PairingCode
      → Answer String
  pair store code device_name token token_id stamp none = raise invalid_pairing
  pair store code device_name token token_id stamp (some row) =
      raise_if (truthy row.used_at || ltb row.expires_at stamp) invalid_pairing
      >> ok (
        record store {
          pairing_codes =
              update (has_pairing (token_hash code)) (use_pairing stamp) store.pairing_codes;
          tokens =
              store.tokens
              ++ lasting_row token_id row.vault_id token (concat "Connector: " device_name)
                  ("search" ∷ "write" ∷ "ingest" ∷ []) stamp
                ∷ [];
        },
        token,
      )

  -- `code` is the pairing code of the request in upper case.
  unfoldable pub claim_pairing :
      Store → (code device_name token token_id : String) (stamp : ℕ) → Answer String
  claim_pairing store code device_name token token_id stamp =
      pair store code device_name token token_id stamp
        (fetch_one (has_pairing (token_hash code)) store.pairing_codes)
