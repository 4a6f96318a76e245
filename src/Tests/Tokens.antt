-- ===== src/Tests/Tokens.antt =====
-- Runs of the exchanges of codes and tokens. The digests leave a text as it is.
use personal_vault_rag.Prelude.{String, [], arith, none, ok, raise, refl, ◌∷◌, ◌≡◌}
use personal_vault_rag.Db.{AccessToken, PairingCode, OauthCode}
use personal_vault_rag.Table.{fetch_one, update}
use personal_vault_rag.Security.{
  Principal, principal_of, authenticate_token, has_scope, invalid_token,
}
use personal_vault_rag.Access.{Store, Answer, Authorize, Draw, Issued, invalid_code}
use personal_vault_rag.Access.Requests.{
  authorize_submit, exchange_code, revoke_refresh, check_refresh, oauth_row, claim_pairing,
  is_refused, issue_oauth_tokens,
}
use personal_vault_rag.Access.Exchange.{Exchanged, exchange_code-Exchanged}
use personal_vault_rag.Access.Spent.{
  start, next, revokes, exchange_code_once, exchange_refresh_once,
}
use personal_vault_rag.Tests.{home}

abbrev digest : String → String
digest text = text

abbrev admin : AccessToken
admin = record {
  id = "tok_1";
  vault_id = "home";
  token_hash = "secret";
  label = "Initial administrator";
  scopes = "admin" ∷ "search" ∷ [];
  created_at = 1;
  expires_at = none;
  revoked_at = none;
}

abbrev refresher : AccessToken
refresher = record admin {
  id = "tok_2";
  token_hash = "again";
  label = "OAuth refresh app";
  scopes = "refresh" ∷ "search" ∷ [];
}

abbrev grant : OauthCode
grant = record {
  code_hash = "code";
  client_id = "app";
  vault_id = "home";
  redirect_uri = "https://app";
  code_challenge = "verifier";
  scope = "search" ∷ [];
  expires_at = 1_000;
  used_at = none;
}

abbrev offer : PairingCode
offer = record { code_hash = "PAIR"; vault_id = "home"; expires_at = 1_000; used_at = none }

abbrev store : Store
store = record {
  vaults = home ∷ [];
  tokens = admin ∷ refresher ∷ [];
  pairing_codes = offer ∷ [];
  clients = record { client_id = "app"; redirect_uris = "https://app" ∷ []; created_at = 1 } ∷ [];
  codes = grant ∷ [];
  bootstrap_code = none;
}

abbrev draw : Draw
draw = record {
  access = "a";
  refresh = "r";
  access_id = "tok_a";
  refresh_id = "tok_r";
  checked_at = 10;
  used_at = 11;
  issued_at = 12;
}

-- The store and the answer of a run that succeeds.
abbrev store_of : {A : Type 0} → Answer A → Store
store_of (ok r) = r.0
store_of (raise e) = store

abbrev issued : Issued
issued = record { access_token = "a"; refresh_token = "r"; scope = "search" ∷ [] }

abbrev exchanged : Store
exchanged = store_of (exchange_code digest digest store draw "app" "code" "verifier" "https://app")

exchange_runs :
    exchange_code digest digest store draw "app" "code" "verifier" "https://app"
    ≡ ok (exchanged, issued)
unfolding exchange_code fetch_one update is_refused issue_oauth_tokens
exchange_runs = refl

exchange_code_once_example :
    exchange_code digest digest exchanged draw "app" "code" "verifier" "https://app"
    ≡ raise invalid_code
exchange_code_once_example =
    exchange_code_once digest digest store exchanged exchanged draw "app" "code" "verifier"
      "https://app" issued (omega arith) exchange_runs start draw "app" "verifier" "https://app"

exchange_code-Exchanged_example :
    Exchanged digest digest store exchanged draw "app" "code" "verifier" "https://app" issued
exchange_code-Exchanged_example =
    exchange_code-Exchanged digest digest store exchanged draw "app" "code" "verifier" "https://app"
      issued exchange_runs

abbrev refreshing : Principal
refreshing = principal_of refresher

refresh_checks : check_refresh digest digest store 10 "app" "again" ≡ ok refreshing
unfolding check_refresh authenticate_token has_scope fetch_one
refresh_checks = refl

-- Another exchange has revoked the token in between.
abbrev raced : Store
raced = revoke_refresh store 10 refreshing

exchange_refresh_once_example :
    (check_refresh digest digest (revoke_refresh raced 11 refreshing) 20 "app" "again"
      ≡ raise invalid_token)
    × (authenticate_token digest (revoke_refresh raced 11 refreshing).tokens 20 "again"
        ≡ raise invalid_token)
exchange_refresh_once_example =
    exchange_refresh_once digest digest store raced (revoke_refresh raced 11 refreshing) 10 11 "app"
      "again" refreshing (omega arith) refresh_checks
      (next store start (revokes 10 refreshing (omega arith) refl)) start 20 "app"

-- Two exchanges check the same refresh token before either revokes it, and both go on to issue tokens.
abbrev twice : Store
twice =
    let once =
      (issue_oauth_tokens digest digest (revoke_refresh store 11 refreshing) draw "home" "app"
        ("search" ∷ [])).0 in
    (issue_oauth_tokens digest digest (revoke_refresh once 12 refreshing)
      (record draw { access = "b"; access_id = "tok_b" }) "home" "app" ("search" ∷ [])).0

abbrev client : (token_id : String) → Principal
client token_id = record {
  vault_id = "home";
  token_id = token_id;
  scopes = "search" ∷ [];
  label = "OAuth access app";
}

both_live :
    (authenticate_token digest twice.tokens 20 "a" ≡ ok (client "tok_a"))
    × (authenticate_token digest twice.tokens 20 "b" ≡ ok (client "tok_b"))
unfolding issue_oauth_tokens revoke_refresh oauth_row authenticate_token fetch_one update
both_live = (refl, refl)

abbrev paired : Store
paired = store_of (claim_pairing digest digest store "PAIR" "Desktop" "device" "tok_d" 10)

pairing_runs :
    claim_pairing digest digest store "PAIR" "Desktop" "device" "tok_d" 10 ≡ ok (paired, "device")
unfolding claim_pairing fetch_one update
pairing_runs = refl

abbrev form : Authorize
form = record {
  client_id = "app";
  redirect_uri = "https://app";
  response_type = "code";
  code_challenge = "0123456789012345678901234567890123456789012";
  code_challenge_method = "S256";
  scope = "write" ∷ "other" ∷ [];
  vault_token = "secret";
}

abbrev authorized : Store
authorized = store_of (authorize_submit digest digest store form "new" 10 11)
