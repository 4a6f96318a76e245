-- ===== src/Access/Exchange.antt =====
-- The exchanges of app/oauth.py's `token_endpoint` that succeed.
use personal_vault_rag.Prelude.{
  Bool-cases, Option-cases, Result-cases, String, [], ap, arith, concat, false, inl, inr, ok, same,
  same_iff, ◌∙◌, not, ◌||◌, seconds, some, sym, true, truthy, ℕ, ◌*◌, ◌++◌, ◌+◌, ◌∷◌, ◌≡◌, ◌≤◌,
}
use personal_vault_rag.Db.{OauthCode}
use personal_vault_rag.Table.{fetch_one, update}
use personal_vault_rag.Table.Rows.{Place, fetch_one-Place}
use personal_vault_rag.Security.{Principal, has_scope, authenticate_token}
use personal_vault_rag.Access.{Store, Draw, Issued, has_code, use_code, without_refresh}
use personal_vault_rag.Access.Requests.{
  issue_oauth_tokens, revoke_refresh, check_refresh, exchange_code, exchange_refresh, is_refused,
  oauth_row,
}

module _ (token_hash pkce_s256 : String → String) where
  abbrev pub spend : Store → ℕ → String → Store
  spend s stamp hash = record s { codes = update (has_code hash) (use_code stamp) s.codes }

  -- What an exchange of a code that succeeds has checked and done.
  pub exchange_code-ok :
      (s s' : Store) (draw : Draw) (client_id code verifier redirect_uri : String) (a : Issued)
      → exchange_code token_hash pkce_s256 s draw client_id code verifier redirect_uri ≡ ok (s', a)
      → (row : OauthCode) × ((fetch_one (has_code (token_hash code)) s.codes ≡ some row)
          × ((is_refused token_hash pkce_s256 row client_id redirect_uri verifier draw.checked_at
                ≡ false)
              × (issue_oauth_tokens token_hash pkce_s256
                    (spend s draw.used_at (token_hash code))
                    draw
                    row.vault_id
                    client_id
                    row.scope
                  ≡ (s', a))))
  unfolding exchange_code
  exchange_code-ok s s' draw client_id code verifier redirect_uri a h =
      elim (Option-cases (fetch_one (has_code (token_hash code)) s.codes)) [
        | inl e ↦ absurd (ground arith)
        | inr (row, e) ↦
            elim (Bool-cases (
              is_refused token_hash pkce_s256 row client_id redirect_uri verifier
                draw.checked_at)) [
                  | inl r ↦ absurd (ground arith)
                  | inr r ↦ (row, (e, (r, ground arith)))
                ]
      ]

  -- The check of a refresh token that passes has found a live row of the token.
  pub check_refresh-ok :
      (s : Store) (checked_at : ℕ) (client_id token : String) (p : Principal)
      → check_refresh token_hash pkce_s256 s checked_at client_id token ≡ ok p
      → authenticate_token token_hash s.tokens checked_at token ≡ ok p
  unfolding check_refresh
  check_refresh-ok s checked_at client_id token p h =
      elim (Result-cases (authenticate_token token_hash s.tokens checked_at token)) [
        | inr (e, w) ↦ absurd (ground arith)
        | inl (q, w) ↦
            elim (Bool-cases (
              not (has_scope "refresh" q.scopes)
              || not (same q.label (concat "OAuth refresh " client_id)))) [
                | inl r ↦ absurd (ground arith)
                | inr r ↦ let here : q ≡ p = ground arith in w ∙ ap ok here
              ]
      ]

  pub exchange_refresh-ok :
      (s s' : Store) (draw : Draw) (client_id token : String) (a : Issued)
      → exchange_refresh token_hash pkce_s256 s draw client_id token ≡ ok (s', a)
      → (p : Principal) × (issue_oauth_tokens token_hash pkce_s256
            (revoke_refresh s draw.used_at p)
            draw
            p.vault_id
            client_id
            (without_refresh p.scopes)
          ≡ (s', a))
  unfolding exchange_refresh
  exchange_refresh-ok s s' draw client_id token a h =
      elim (Result-cases (check_refresh token_hash pkce_s256 s draw.checked_at client_id token)) [
        | inr (e, w) ↦ absurd (ground arith)
        | inl (p, w) ↦ (p, ground arith)
      ]

-- The conditions under which a code is exchanged, and what the store has afterwards: a row of the
-- code that was not used, had not expired and was issued to this client for this redirect URI and
-- the digest of this verifier; the row's vault and scopes are those of the tokens issued.
pub record Exchanged (token_hash pkce_s256 : String → String) (s s' : Store) (draw : Draw)
    (client_id code verifier redirect_uri : String) (a : Issued) : Type 0 where
  pub row : OauthCode
  pub place : Place row s.codes
  pub hash : row.code_hash ≡ token_hash code
  pub unused : truthy row.used_at ≡ false
  pub unexpired : draw.checked_at ≤ row.expires_at
  pub client : row.client_id ≡ client_id
  pub redirect : row.redirect_uri ≡ redirect_uri
  pub challenge : pkce_s256 verifier ≡ row.code_challenge
  pub tokens :
      s'.tokens
      ≡ s.tokens
        ++ oauth_row token_hash pkce_s256 draw.access_id row.vault_id draw.access
            (concat "OAuth access " client_id)
            row.scope
            draw.issued_at
            (draw.issued_at + seconds 3600)
          ∷ oauth_row token_hash pkce_s256 draw.refresh_id row.vault_id draw.refresh
              (concat "OAuth refresh " client_id)
              ("refresh" ∷ row.scope)
              draw.issued_at
              (draw.issued_at + seconds (30 * 86400))
          ∷ []
  pub answer :
      a ≡ record { access_token = draw.access; refresh_token = draw.refresh; scope = row.scope }

-- An exchange of a code succeeds only for a stored code that is unused and unexpired, was issued to
-- this client and redirect URI and has this verifier's digest as its challenge; it adds an access
-- token of an hour and a refresh token of thirty days for the code's vault and scopes, no more.
pub exchange_code-Exchanged :
    (token_hash pkce_s256 : String → String) (s s' : Store) (draw : Draw)
    (client_id code verifier redirect_uri : String) (a : Issued)
    → exchange_code token_hash pkce_s256 s draw client_id code verifier redirect_uri ≡ ok (s', a)
    → Exchanged token_hash pkce_s256 s s' draw client_id code verifier redirect_uri a
unfolding is_refused issue_oauth_tokens
exchange_code-Exchanged token_hash pkce_s256 s s' draw client_id code verifier redirect_uri a h =
    let (row, (e, (fits, q))) =
      exchange_code-ok token_hash pkce_s256 s s' draw client_id code verifier redirect_uri a h in
    let (place, key) = fetch_one-Place (has_code (token_hash code)) s.codes row e in
    let own : same row.client_id client_id ≡ true = ground arith in
    let to : same row.redirect_uri redirect_uri ≡ true = ground arith in
    let proof : same (pkce_s256 verifier) row.code_challenge ≡ true = ground arith in
    record {
      row = row;
      place = place;
      hash = (same_iff _ _).0 key;
      unused = ground arith;
      unexpired = ground arith;
      client = (same_iff _ _).0 own;
      redirect = (same_iff _ _).0 to;
      challenge = (same_iff _ _).0 proof;
      tokens = sym (ap (λ x. x.0.tokens) q);
      answer = sym (ap (λ x. x.1) q);
    }
