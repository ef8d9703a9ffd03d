-- ===== src/OAuth/Consent.antt =====
-- The consent of app/api/v1/oauth.py: a signed-in user reads an authorization request and decides it,
-- and an organization disconnects an application.
use daas_engine.Base.{
  Bool, List, Option, String, [], count_where, false, find_where, if◌then◌else◌, leb, ltb, none,
  not, some, true, update_where, ℕ, ◌&&◌, ◌+◌, ◌==◌, ◌∷◌,
}
use daas_engine.Control.Access.{OrgContext, actor_of}
use daas_engine.Control.Audit.{record_event}
use daas_engine.Control.Directory.{memberships_of}
use daas_engine.Control.Members.Guarded.{at_key}
use daas_engine.Control.Problem.{Result, err, ok, problem, raise_if, ◌>>=◌, ◌>>◌}
use daas_engine.Control.Records.{
  CodeStatus, Membership, OAuthClient, OAuthCode, OAuthToken, Org, approved, by_user, denied,
  disconnected, oauth_consent, pending,
}
use daas_engine.Control.Scopes.{Role, Scope, grantable_scopes, only_in}
use daas_engine.OAuth.{OAuthDb, is_refresh, revoke_oauth_grant}
use daas_engine.OAuth.Codes.{code_at}

-- `OAuthDecisionIn`; an empty `org_id` is none.
pub record OAuthDecisionIn : Type 0 where
  pub approve : Bool
  pub org_id : Option ℕ
  pub scopes : Option (List Scope)

-- What `construct_redirect_uri` is given: the address, the query parameters, and the state.
pub data RedirectQuery : Type 0 where
  with_code : ℕ → RedirectQuery
  with_error : String → RedirectQuery

pub record OAuthDecisionOut : Type 0 where
  pub redirect_uri : String
  pub query : RedirectQuery
  pub state : Option String

pub record OAuthOrgOption : Type 0 where
  pub org_id : ℕ
  pub name : String
  pub role : Role
  pub scopes_grantable : List Scope

pub record OAuthRequestOut : Type 0 where
  pub request_id : ℕ
  pub client_id : ℕ
  pub client_name : Option String
  pub scopes_requested : List Scope
  pub redirect_uri : String
  pub expires_at : ℕ
  pub organizations : List OAuthOrgOption

abbrev pub code_ttl : ℕ
code_ttl = 60

abbrev pub is_awaiting : CodeStatus → Bool
is_awaiting pending = true
is_awaiting _ = false

-- `_load_request`.
unfoldable pub load_request : ℕ → OAuthDb → Result OAuthCode
load_request id db = elim (find_where (code_at id) db.codes) [
  | none ↦ err (problem 404 "not_found")
  | some c ↦ ok c
]

unfoldable pub org_options : List Scope → List (Membership × Org) → List OAuthOrgOption
unfolding grantable_scopes
org_options requested [] = []
org_options requested ((m, o) ∷ rows) =
    record {
      org_id = o.id;
      name = o.name;
      role = m.role;
      scopes_grantable = grantable_scopes requested (some m.role);
    }
    ∷ org_options requested rows

-- `get_request`.
unfoldable pub get_request : ℕ → ℕ → ℕ → List Org → OAuthDb → Result OAuthRequestOut
unfolding load_request memberships_of org_options
get_request now request_id user_id orgs db = load_request request_id db >>= λ (row : OAuthCode).
    raise_if (not (is_awaiting row.status)) 404 "not_found"
    >> raise_if (leb row.expires_at now) 410 "expired"
    >> ok (record {
      request_id = row.id;
      client_id = row.client_id;
      client_name =
          elim (find_where (λ (k : OAuthClient). k.client_id == row.client_id) db.clients) [
            | none ↦ none
            | some k ↦ k.client_name
          ];
      scopes_requested = row.scopes;
      redirect_uri = row.redirect_uri;
      expires_at = row.expires_at;
      organizations = org_options row.scopes (memberships_of user_id orgs db.memberships);
    })

-- The condition of the UPDATE that decides a request.
abbrev pub open_request : ℕ → ℕ → OAuthCode → Bool
open_request now id c = code_at id c && is_awaiting c.status && ltb now c.expires_at

unfoldable pub as_denied : ℕ → OAuthCode → OAuthCode
as_denied user_id c = record c { status = denied; user_id = some user_id }

unfoldable pub as_approved : ℕ → ℕ → ℕ → ℕ → List Scope → OAuthCode → OAuthCode
as_approved now digest org_id user_id granted c = record c {
  status = approved;
  code_hash = some digest;
  org_id = some org_id;
  user_id = some user_id;
  scopes = granted;
  expires_at = now + code_ttl;
}

-- What a body decides on a request, before the write.
pub data Decision : Type 0 where
  to_deny : Decision
  to_approve : ℕ → List Scope → Decision

-- `[s for s in grantable if s in wanted]`.
unfoldable pub granted_scopes : Option (List Scope) → List Scope → List Scope
unfolding only_in
granted_scopes none grantable = grantable
granted_scopes (some wanted) grantable = only_in wanted grantable

-- The organization and the scopes of an approval.
unfoldable pub check_approval : ℕ → OAuthDecisionIn → OAuthCode → OAuthDb → Result Decision
unfolding grantable_scopes granted_scopes at_key
check_approval user_id body row db = elim body.org_id [
  | none ↦ err (problem 422 "validation_error")
  | some o ↦ elim (find_where (at_key o user_id) db.memberships) [
    | none ↦ err (problem 403 "forbidden")
    | some m ↦ elim (granted_scopes body.scopes (grantable_scopes row.scopes (some m.role))) [
      | [] ↦ err (problem 422 "no_grantable_scopes")
      | s ∷ ss ↦ ok (to_approve o (s ∷ ss))
    ]
  ]
]

-- The checks of `decide` on the tables that it reads.
unfoldable pub check_decision : ℕ → ℕ → OAuthDecisionIn → OAuthCode → OAuthDb → Result Decision
unfolding check_approval
check_decision now user_id body row db =
    raise_if (not (is_awaiting row.status)) 409 "request_already_decided"
    >> raise_if (leb row.expires_at now) 410 "expired"
    >> (if body.approve then check_approval user_id body row db else ok to_deny)

-- The write of `decide`, with the row as it was read; another write may have come between. `digest`
-- is the hash of the new code.
unfoldable pub write_decision :
    ℕ → ℕ → ℕ → OAuthCode → Decision → OAuthDb → Result OAuthDecisionOut × OAuthDb
unfolding as_denied as_approved record_event
write_decision now user_id digest row to_deny db =
    if count_where (open_request now row.id) db.codes == 1
    then (
      ok (record {
        redirect_uri = row.redirect_uri;
        query = with_error "access_denied";
        state = row.state;
      }),
      record db { codes = update_where (open_request now row.id) (as_denied user_id) db.codes },
    )
    else (err (problem 409 "request_already_decided"), db)
write_decision now user_id digest row (to_approve org granted) db =
    if count_where (open_request now row.id) db.codes == 1
    then (
      ok (record { redirect_uri = row.redirect_uri; query = with_code digest; state = row.state }),
      record db {
        codes =
            update_where (open_request now row.id) (as_approved now digest org user_id granted)
              db.codes;
        audit_events =
            record_event now (some org) (by_user (some user_id)) oauth_consent (some row.client_id)
              0 db.audit_events;
      },
    )
    else (err (problem 409 "request_already_decided"), db)

-- `decide`, where no other write comes between its reading and its write.
unfoldable pub decide_request :
    ℕ → ℕ → ℕ → ℕ → OAuthDecisionIn → OAuthDb → Result OAuthDecisionOut × OAuthDb
unfolding load_request check_decision write_decision
decide_request now request_id user_id digest body db = elim (load_request request_id db) [
  | err p ↦ (err p, db)
  | ok row ↦ elim (check_decision now user_id body row db) [
    | err p ↦ (err p, db)
    | ok d ↦ write_decision now user_id digest row d db
  ]
]

abbrev pub refresh_in : ℕ → ℕ → OAuthToken → Bool
refresh_in token_id org_id t = t.id == token_id && t.org_id == org_id && is_refresh t.kind

-- `revoke_grant`, of a caller with `org:manage` in the organization.
unfoldable pub revoke_grant : ℕ → ℕ → OrgContext → OAuthDb → Result (Unit {0}) × OAuthDb
unfolding revoke_oauth_grant actor_of
revoke_grant now token_id ctx db = elim (find_where (refresh_in token_id ctx.org.id) db.tokens) [
  | none ↦ (err (problem 404 "not_found"), db)
  | some t ↦ elim t.grant_id [
    | none ↦ (ok tt, db)
    | some g ↦ (ok tt, (revoke_oauth_grant now g disconnected (actor_of ctx.principal) db).1)
  ]
]
