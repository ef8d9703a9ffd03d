-- ===== src/Tests/Consent.antt =====
-- The theorems on consent, on one request of an application.
use daas_engine.Base.{
  List, [], arith, count_where, find_where, none, opt_eq, refl, some, true, select_where, ℕ, ◌==◌,
  ◌∷◌, ◌≡◌, ◌≤◌, false,
}
use daas_engine.Control.Members.Guarded.{at_key}
use daas_engine.Control.Problem.{err, ok, problem}
use daas_engine.Control.Records.{Membership, OAuthCode, OAuthToken, approved, pending}
use daas_engine.Control.Scopes.{
  Scope, grantable_scopes, has, only_in, org_delete, org_read, role_scopes, runs_read, scopes_of,
  subset,
}
use daas_engine.OAuth.{
  of_grant, OAuthDb, Presented, TokenResponse, grant_at, invalid_grant, issued, live_of, refused,
}
use daas_engine.OAuth.Approvals.{IsGranted, decide_request-approved}
use daas_engine.OAuth.Codes.{
  AuthorizationCode, Fresh, code_at, exchange_authorization_code, load_authorization_code,
  new_grant, new_refresh, response,
}
use daas_engine.OAuth.Consent.{
  Decision, OAuthDecisionIn, OAuthDecisionOut, as_approved, check_approval, check_decision,
  decide_request, granted_scopes, load_request, open_request, refresh_in, revoke_grant, to_approve,
  to_deny, with_code, write_decision,
}
use daas_engine.OAuth.Decisions.{write_decision-once}
use daas_engine.OAuth.Disconnect.{revoke_grant-ends}
use daas_engine.OAuth.Granted.{decide_request-gives_tokens}
use daas_engine.OAuth.Live.{IsSafe, live_or_dead}
use daas_engine.OAuth.Replay.{exchange_authorization_code-twice}
use daas_engine.Tests.{by_owner, staff}

abbrev request_row : OAuthCode
request_row = record {
  id = 50;
  client_id = 3;
  org_id = none;
  user_id = none;
  code_hash = none;
  scopes = org_read ∷ (runs_read ∷ (org_delete ∷ []));
  code_challenge = "challenge";
  redirect_uri = "https://app.example/back";
  redirect_uri_provided_explicitly = true;
  state = none;
  resource = none;
  status = pending;
  created_at = 5;
  expires_at = 600;
  exchanged_at = none;
}

abbrev asked : OAuthDb
asked = record {
  clients = [];
  codes = request_row ∷ [];
  grants = [];
  tokens = [];
  memberships = staff;
  audit_events = [];
}

abbrev yes_please : OAuthDecisionIn
yes_please = record { approve = true; org_id = some 1; scopes = none }

abbrev back : OAuthDecisionOut
back = record { redirect_uri = "https://app.example/back"; query = with_code 900; state = none }

approves : (decide_request 10 50 12 900 yes_please asked).0 ≡ ok back
unfolding decide_request load_request find_where check_decision check_approval at_key
    grantable_scopes granted_scopes only_in has scopes_of role_scopes write_decision count_where
approves = refl

abbrev the_decision : Decision
the_decision = to_approve 1 (org_read ∷ (runs_read ∷ []))

writes : (write_decision 10 12 900 request_row the_decision asked).0 ≡ ok back
unfolding write_decision count_where
writes = refl

write_decision-once_example :
    write_decision 11 10 901 request_row to_deny
      (write_decision 10 12 900 request_row the_decision asked).1
    ≡ (
      err (problem 409 "request_already_decided"),
      (write_decision 10 12 900 request_row the_decision asked).1,
    )
write_decision-once_example =
    write_decision-once 10 11 12 10 900 901 request_row request_row the_decision to_deny asked back
      (omega arith) refl writes

decide_request-approved_example :
    ((row : OAuthCode) × (org : ℕ) × (granted : List Scope) × (m : Membership) × (find_where
          (code_at 50)
          asked.codes
        ≡ some row)
      × (open_request 10 50 row ≡ true)
      × (find_where (at_key org 12) asked.memberships ≡ some m)
      × IsGranted granted row.scopes m.role
      × (find_where (code_at 50) (decide_request 10 50 12 900 yes_please asked).1.codes
          ≡ some (as_approved 10 900 org 12 granted row))
      × (back.query ≡ with_code 900))
decide_request-approved_example =
    decide_request-approved 10 50 12 900 yes_please asked back refl approves

abbrev shown : Presented
shown = record { hash = 900; is_shaped = true }

abbrev pair : Fresh
pair = record {
  grant_id = 60;
  refresh_id = 61;
  refresh_hash = 161;
  access_id = 62;
  access_hash = 162;
  refresh_ttl = 1000;
  access_ttl = 100;
}

one_request : count_where (code_at 50) asked.codes ≤ 1
unfolding count_where
one_request = omega arith

no_hash : find_where (λ (c : OAuthCode). opt_eq c.code_hash 900) asked.codes ≡ none
unfolding find_where
no_hash = refl

decide_request-gives_tokens_example :
    ((row : OAuthCode) × (code : AuthorizationCode) × (find_where (code_at 50) asked.codes
        ≡ some row)
      × (load_authorization_code 30 row.client_id shown
            (decide_request 10 50 12 900 yes_please asked).1
          ≡ (some code, (decide_request 10 50 12 900 yes_please asked).1))
      × ((exchange_authorization_code 30 row.client_id code pair
            (decide_request 10 50 12 900 yes_please asked).1).0
          ≡ issued (response code.scopes pair))
      × (subset code.scopes row.scopes ≡ true)
      × (code.subject ≡ 12))
decide_request-gives_tokens_example =
    decide_request-gives_tokens 10 30 50 12 900 yes_please asked back shown pair refl approves
      one_request no_hash refl refl (omega arith)

abbrev approved_row : OAuthCode
approved_row = record request_row {
  status = approved;
  code_hash = some 900;
  org_id = some 1;
  user_id = some 12;
  scopes = org_read ∷ (runs_read ∷ []);
  expires_at = 70;
}

abbrev agreed : OAuthDb
agreed = record asked { codes = approved_row ∷ [] }

abbrev the_code : AuthorizationCode
the_code = record {
  request_id = 50;
  client_id = 3;
  org_id = 1;
  subject = 12;
  scopes = org_read ∷ (runs_read ∷ []);
  resource = none;
  expires_at = 70;
}

abbrev tokens_given : TokenResponse
tokens_given = record {
  access_token = 162;
  refresh_token = 161;
  scope = org_read ∷ (runs_read ∷ []);
}

exchanges : (exchange_authorization_code 30 3 the_code pair agreed).0 ≡ issued tokens_given
unfolding exchange_authorization_code count_where response
exchanges = refl

one_code : count_where (code_at 50) agreed.codes ≤ 1
unfolding count_where
one_code = omega arith

no_grant : count_where (grant_at 60) agreed.grants ≡ 0
unfolding count_where
no_grant = refl

finds_code : find_where (code_at 50) agreed.codes ≡ some approved_row
unfolding find_where
finds_code = refl

exchange_authorization_code-twice_example :
    ((exchange_authorization_code 40 4 the_code pair
        (exchange_authorization_code 30 3 the_code pair agreed).1).0
      ≡ refused invalid_grant)
    × (count_where
          (live_of pair.grant_id)
          (exchange_authorization_code 40 4 the_code pair
            (exchange_authorization_code 30 3 the_code pair agreed).1).1.tokens
        ≡ 0)
exchange_authorization_code-twice_example =
    exchange_authorization_code-twice 30 40 3 4 the_code the_code pair pair agreed approved_row
      tokens_given (omega arith) refl one_code no_grant finds_code refl exchanges

abbrev connected_token : OAuthToken
connected_token = new_refresh 30 60 3 1 (some 12) (org_read ∷ []) none 50 none pair

abbrev connected : OAuthDb
connected = record asked {
  grants = new_grant 30 3 the_code pair ∷ [];
  tokens = connected_token ∷ [];
}

finds_token : find_where (refresh_in 61 1) connected.tokens ≡ some connected_token
unfolding find_where new_refresh
finds_token = refl

one_grant : count_where (grant_at 60) connected.grants ≡ 1
unfolding count_where new_grant
one_grant = refl

of_that_grant : connected_token.grant_id ≡ some 60
unfolding new_refresh
of_that_grant = refl

connected-IsSafe : IsSafe connected.grants connected.tokens
unfolding count_where new_grant new_refresh
connected-IsSafe = record {
  dead = live_or_dead connected.grants connected.tokens (λ id e. ground (arith, e));
  single = λ id. ground arith;
}

revoke_grant-ends_example :
    ((revoke_grant 40 61 by_owner connected).0 ≡ ok tt)
    × (count_where (live_of 60) (revoke_grant 40 61 by_owner connected).1.tokens ≡ 0)
    × IsSafe
        (revoke_grant 40 61 by_owner connected).1.grants
        (revoke_grant 40 61 by_owner connected).1.tokens
    × ((i : ℕ)
        → (60 == i) ≡ false
        → (find_where (grant_at i) (revoke_grant 40 61 by_owner connected).1.grants
            ≡ find_where (grant_at i) connected.grants)
          × (select_where (of_grant i) (revoke_grant 40 61 by_owner connected).1.tokens
              ≡ select_where (of_grant i) connected.tokens))
revoke_grant-ends_example =
    revoke_grant-ends 40 61 60 by_owner connected connected_token finds_token of_that_grant
      one_grant connected-IsSafe
