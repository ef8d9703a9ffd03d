-- ===== src/Tests/Tokens.antt =====
-- The theorems on OAuth tokens, on one grant with one pair.
use daas_engine.Base.{
  [], arith, count_where, delete_where, find_where, none, refl, some, update_where, ◌∷◌, ◌≡◌,
}
use daas_engine.Control.Scopes.{org_read, runs_read}
use daas_engine.OAuth.{
  OAuthDb, TokenResponse, guard_grant, invalid_grant, issued, live_of, locked, refused,
}
use daas_engine.OAuth.Codes.{AuthorizationCode, Fresh, new_access, new_grant, new_refresh}
use daas_engine.OAuth.Live.{IsSafe, live_or_dead}
use daas_engine.OAuth.Reached.{Reach-IsSafe, later, refresh_exchanges, start, token_revokes}
use daas_engine.OAuth.Refresh.{
  TokenPointer, exchange_in_grant, exchange_refresh_token, revoke_token, rotate, usable_refresh,
}
use daas_engine.OAuth.Reuse.{exchange_in_grant-twice}
use daas_engine.Tests.{staff}

abbrev pair : Fresh
pair = record {
  grant_id = 60;
  refresh_id = 61;
  refresh_hash = 161;
  access_id = 62;
  access_hash = 162;
  refresh_ttl = 1000;
  access_ttl = 100;
}

abbrev next_pair : Fresh
next_pair = record {
  grant_id = 0;
  refresh_id = 71;
  refresh_hash = 171;
  access_id = 72;
  access_hash = 172;
  refresh_ttl = 1000;
  access_ttl = 100;
}

abbrev approved_code : AuthorizationCode
approved_code = record {
  request_id = 50;
  client_id = 3;
  org_id = 1;
  subject = 12;
  scopes = org_read ∷ (runs_read ∷ []);
  resource = none;
  expires_at = 100;
}

abbrev provider : OAuthDb
provider = record {
  clients = [];
  codes = [];
  grants = new_grant 5 3 approved_code pair ∷ [];
  tokens =
      new_refresh 5 60 3 1 (some 12) (org_read ∷ (runs_read ∷ [])) none 50 none pair
      ∷ (new_access 5 60 3 1 (some 12) (org_read ∷ (runs_read ∷ [])) none pair ∷ []);
  memberships = staff;
  audit_events = [];
}

abbrev answer : TokenResponse
answer = record { access_token = 172; refresh_token = 171; scope = org_read ∷ [] }

rotates : (exchange_in_grant 20 60 61 3 (org_read ∷ []) next_pair provider).0 ≡ issued answer
unfolding exchange_in_grant usable_refresh guard_grant rotate new_grant new_refresh new_access
    count_where find_where update_where locked delete_where
rotates = refl

exchange_in_grant-twice_example :
    ((exchange_in_grant 30 60 61 3 [] next_pair
        (exchange_in_grant 20 60 61 3 (org_read ∷ []) next_pair provider).1).0
      ≡ refused invalid_grant)
    × (count_where
          (live_of 60)
          (exchange_in_grant 30 60 61 3 [] next_pair
            (exchange_in_grant 20 60 61 3 (org_read ∷ []) next_pair provider).1).1.tokens
        ≡ 0)
exchange_in_grant-twice_example =
    exchange_in_grant-twice 20 30 60 61 3 (org_read ∷ []) [] next_pair next_pair provider answer
      rotates

provider-IsSafe : IsSafe provider.grants provider.tokens
unfolding count_where new_grant new_refresh new_access
provider-IsSafe = record {
  dead = live_or_dead provider.grants provider.tokens (λ id e. ground (arith, e));
  single = λ id. ground arith;
}

abbrev replay : TokenPointer
replay = record { token_id = 61; hash = 161; client_id = 3; scopes = [] }

Reach-IsSafe_example :
    IsSafe
      (revoke_token 40 replay (exchange_refresh_token 20 3 replay [] next_pair provider).1).grants
      (revoke_token 40 replay (exchange_refresh_token 20 3 replay [] next_pair provider).1).tokens
Reach-IsSafe_example =
    Reach-IsSafe provider
      (revoke_token 40 replay (exchange_refresh_token 20 3 replay [] next_pair provider).1)
      (later (later start (refresh_exchanges 20 3 replay [] next_pair)) (token_revokes 40 replay))
      provider-IsSafe
