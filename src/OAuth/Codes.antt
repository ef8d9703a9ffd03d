-- ===== src/OAuth/Codes.antt =====
-- Authorization codes of app/control/oauth.py: the exchange of a code for a pair of tokens, and what
-- a code that is used twice does to the tokens it gave.
use daas_engine.Base.{
  Bool, List, Option, String, [], count_where, delete_where, exists_where, false, find_where,
  if◌then◌else◌, is_none, length, ltb, none, not, opt_eq, some, suc, true, update_where, zero, ℕ,
  ◌&&◌, ◌++◌, ◌+◌, ◌==◌, ◌||◌, ◌∷◌,
}
use daas_engine.Control.Audit.{record_event}
use daas_engine.Control.Records.{
  CodeStatus, OAuthCode, OAuthGrant, OAuthToken, access, approved, by_system, by_user, code_replay,
  exchanged, oauth_token_issued, oauth_token_revoked, refresh,
}
use daas_engine.Control.Scopes.{Scope}
use daas_engine.OAuth.{
  OAuthDb, Presented, TokenResponse, TokenResult, invalid_grant, issued, refused,
  revoke_oauth_grant, with_revoked,
}

-- What the code takes from outside for a new pair: ids, hashes of the new secrets, and lifetimes.
pub record Fresh : Type 0 where
  pub grant_id : ℕ
  pub refresh_id : ℕ
  pub refresh_hash : ℕ
  pub access_id : ℕ
  pub access_hash : ℕ
  pub refresh_ttl : ℕ
  pub access_ttl : ℕ

-- `DaasAuthorizationCode`.
pub record AuthorizationCode : Type 0 where
  pub request_id : ℕ
  pub client_id : ℕ
  pub org_id : ℕ
  pub subject : ℕ
  pub scopes : List Scope
  pub resource : Option String
  pub expires_at : ℕ

abbrev pub is_approved : CodeStatus → Bool
is_approved approved = true
is_approved _ = false

abbrev pub is_exchanged : CodeStatus → Bool
is_exchanged exchanged = true
is_exchanged _ = false

abbrev pub code_at : ℕ → OAuthCode → Bool
code_at id c = c.id == id

-- The condition of the UPDATE that uses a code up.
abbrev pub usable_code : ℕ → ℕ → OAuthCode → Bool
usable_code now id c = code_at id c && is_approved c.status && ltb now c.expires_at

unfoldable pub as_exchanged : ℕ → OAuthCode → OAuthCode
as_exchanged now c = record c { status = exchanged; exchanged_at = some now }

-- A row of the CTE of `revoke_subtree` with one root. A step of the recursion goes to the parent;
-- `fuel` bounds the steps, and a chain of parents without a cycle is no longer than the table.
unfoldable pub in_subtree : ℕ → ℕ → ℕ → List OAuthToken → OAuthToken → Bool
in_subtree zero client root tokens t = false
in_subtree (suc fuel) client root tokens t =
    t.client_id == client
    && (t.id == root
        || opt_eq t.parent_id root
        || exists_where
            (λ (p : OAuthToken). opt_eq t.parent_id p.id && in_subtree fuel client root tokens p)
            tokens)

-- `revoke_subtree` with one root.
unfoldable pub revoke_subtree : ℕ → ℕ → ℕ → List OAuthToken → ℕ × List OAuthToken
unfolding in_subtree with_revoked
revoke_subtree now client root tokens = (
  count_where
      (λ (t : OAuthToken).
        in_subtree (suc (length tokens)) client root tokens t && is_none t.revoked_at)
      tokens,
  update_where
      (λ (t : OAuthToken).
        in_subtree (suc (length tokens)) client root tokens t && is_none t.revoked_at)
      (with_revoked now) tokens,
)

unfoldable pub token_of_code : ℕ → ℕ → OAuthToken → Bool
token_of_code client code t = t.client_id == client && opt_eq t.parent_id code

-- The distinct `grant_id` of the tokens of a code.
unfoldable pub grant_ids : ℕ → ℕ → List OAuthToken → List ℕ
unfolding token_of_code
grant_ids client code [] = []
grant_ids client code (t ∷ ts) =
    let rest = grant_ids client code ts in
    if token_of_code client code t
    then elim t.grant_id [ none ↦ rest | some g ↦ g ∷ delete_where (λ (i : ℕ). i == g) rest ]
    else rest

unfoldable pub revoke_all : ℕ → List ℕ → OAuthDb → OAuthDb
unfolding revoke_oauth_grant
revoke_all now [] db = db
revoke_all now (g ∷ gs) db = revoke_all now gs (revoke_oauth_grant now g code_replay by_system db).1

-- The branch of `_revoke_code_family` for tokens that have no grant.
unfoldable pub revoke_old_family : ℕ → OAuthCode → OAuthDb → OAuthDb
unfolding revoke_subtree record_event
revoke_old_family now c db = record db {
  tokens = (revoke_subtree now c.client_id c.id db.tokens).1;
  audit_events = elim c.org_id [
    | none ↦ db.audit_events
    | some o ↦
        if ltb 0 (revoke_subtree now c.client_id c.id db.tokens).0
        then record_event now (some o) by_system oauth_token_revoked (some c.client_id)
            (revoke_subtree now c.client_id c.id db.tokens).0 db.audit_events
        else db.audit_events
  ];
}

-- `_revoke_code_family`.
unfoldable pub revoke_code_family : ℕ → OAuthCode → OAuthDb → OAuthDb
unfolding grant_ids revoke_all revoke_old_family
revoke_code_family now c db = elim (grant_ids c.client_id c.id db.tokens) [
  | [] ↦ revoke_old_family now c db
  | g ∷ gs ↦ revoke_all now (g ∷ gs) db
]

-- `load_authorization_code`.
unfoldable pub load_authorization_code :
    ℕ → ℕ → Presented → OAuthDb → Option AuthorizationCode × OAuthDb
unfolding revoke_code_family
load_authorization_code now client presented db =
    if not presented.is_shaped
    then (none, db)
    else elim (find_where (λ (c : OAuthCode). opt_eq c.code_hash presented.hash) db.codes) [
      | none ↦ (none, db)
      | some c ↦
          if is_exchanged c.status
          then (none, revoke_code_family now c db)
          else if not (is_approved c.status) || not (c.client_id == client)
          then (none, db)
          else elim c.org_id [
            | none ↦ (none, db)
            | some o ↦ elim c.user_id [
              | none ↦ (none, db)
              | some u ↦ (
                some (record {
                  request_id = c.id;
                  client_id = c.client_id;
                  org_id = o;
                  subject = u;
                  scopes = c.scopes;
                  resource = c.resource;
                  expires_at = c.expires_at;
                }),
                db,
              )
            ]
          ]
    ]

unfoldable pub new_grant : ℕ → ℕ → AuthorizationCode → Fresh → OAuthGrant
new_grant now client code fresh = record {
  id = fresh.grant_id;
  client_id = client;
  org_id = code.org_id;
  user_id = some code.subject;
  scopes = code.scopes;
  resource = code.resource;
  created_at = now;
  revoked_at = none;
  revocation_reason = none;
  lock_seq = 0;
}

-- The two rows of `_issue_pair`.
unfoldable pub new_refresh :
    ℕ → ℕ → ℕ → ℕ → Option ℕ → List Scope → Option String → ℕ → Option ℕ → Fresh → OAuthToken
new_refresh now grant client org user scopes resource parent used fresh = record {
  id = fresh.refresh_id;
  kind = refresh;
  token_hash = fresh.refresh_hash;
  client_id = client;
  grant_id = some grant;
  org_id = org;
  user_id = user;
  scopes = scopes;
  resource = resource;
  parent_id = some parent;
  created_at = now;
  expires_at = some (now + fresh.refresh_ttl);
  revoked_at = none;
  rotated_at = none;
  last_used_at = used;
}

unfoldable pub new_access :
    ℕ → ℕ → ℕ → ℕ → Option ℕ → List Scope → Option String → Fresh → OAuthToken
new_access now grant client org user scopes resource fresh = record {
  id = fresh.access_id;
  kind = access;
  token_hash = fresh.access_hash;
  client_id = client;
  grant_id = some grant;
  org_id = org;
  user_id = user;
  scopes = scopes;
  resource = resource;
  parent_id = some fresh.refresh_id;
  created_at = now;
  expires_at = some (now + fresh.access_ttl);
  revoked_at = none;
  rotated_at = none;
  last_used_at = none;
}

unfoldable pub response : List Scope → Fresh → TokenResponse
response scopes fresh = record {
  access_token = fresh.access_hash;
  refresh_token = fresh.refresh_hash;
  scope = scopes;
}

-- The transaction of `exchange_authorization_code` after its code is used up.
unfoldable pub issue_for_code : ℕ → ℕ → AuthorizationCode → Fresh → OAuthDb → OAuthDb
unfolding as_exchanged new_grant new_refresh new_access record_event
issue_for_code now client code fresh db = record db {
  codes = update_where (usable_code now code.request_id) (as_exchanged now) db.codes;
  grants = db.grants ++ (new_grant now client code fresh ∷ []);
  tokens =
      db.tokens
      ++ (new_refresh now fresh.grant_id client code.org_id (some code.subject) code.scopes
            code.resource code.request_id none fresh
          ∷ (new_access now fresh.grant_id client code.org_id (some code.subject) code.scopes
                code.resource fresh
              ∷ []));
  audit_events =
      record_event now (some code.org_id) (by_user (some code.subject)) oauth_token_issued
        (some client) 0 db.audit_events;
}

-- `exchange_authorization_code`.
unfoldable pub exchange_authorization_code :
    ℕ → ℕ → AuthorizationCode → Fresh → OAuthDb → TokenResult × OAuthDb
unfolding issue_for_code revoke_code_family response
exchange_authorization_code now client code fresh db =
    if count_where (usable_code now code.request_id) db.codes == 1
    then (issued (response code.scopes fresh), issue_for_code now client code fresh db)
    else elim (find_where (code_at code.request_id) db.codes) [
      | none ↦ (refused invalid_grant, db)
      | some c ↦
          (refused invalid_grant, if is_exchanged c.status then revoke_code_family now c db else db)
    ]
