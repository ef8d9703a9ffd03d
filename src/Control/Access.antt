-- ===== src/Control/Access.antt =====
-- app/api/v1/deps.py: who calls, and whether the caller may act in an organization.
pub mod Laws
use daas_engine.Base.{
  ℕ, Bool, true, false, not, Option, none, some, List, [], ◌∷◌, ◌==◌, ◌&&◌, if◌then◌else◌,
  find_where,
}
use daas_engine.Control.Scopes.{Scope, Role, has, role_scopes}
use daas_engine.Control.Records.{Org, Membership, AuditEvent, Actor, by_user, by_key, auth_denied}
use daas_engine.Control.Problem.{Result, ok, err, problem}
use daas_engine.Control.Audit.{record_event}
use daas_engine.Control.Members.Guarded.{at_key}

-- `Principal.kind` with what each kind carries: a session's user; an API key and its id; the key of
-- the deployment; an OAuth token, which acts for the user who gave the consent.
pub data Principal : Type 0 where
  user : ℕ → Principal
  api_key : ℕ → ℕ → List Scope → Principal
  selfhost_key : ℕ → List Scope → Principal
  oauth : ℕ → ℕ → List Scope → Principal

-- `Principal.org_id`: the organization of a key or of a token.
unfoldable pub principal_org : Principal → Option ℕ
principal_org (user u) = none
principal_org (api_key k org scopes) = some org
principal_org (selfhost_key org scopes) = some org
principal_org (oauth u org scopes) = some org

unfoldable pub principal_scopes : Principal → List Scope
principal_scopes (user u) = []
principal_scopes (api_key k org scopes) = scopes
principal_scopes (selfhost_key org scopes) = scopes
principal_scopes (oauth u org scopes) = scopes

-- `actor_type` and `actor_id`; `none` is the id `selfhost`.
unfoldable pub actor_of : Principal → Actor
actor_of (user u) = by_user (some u)
actor_of (api_key k org scopes) = by_key (some k)
actor_of (selfhost_key org scopes) = by_key none
actor_of (oauth u org scopes) = by_user (some u)

pub record OrgContext : Type 0 where
  pub org : Org
  pub principal : Principal
  pub role : Option Role
  pub scopes : List Scope

-- The tables that `org_access` reads, and the audit trail that it writes.
pub record AccessDb : Type 0 where
  pub orgs : List Org
  pub memberships : List Membership
  pub audit_events : List AuditEvent

-- The answer for an organization that the caller may not know of.
unfoldable pub hidden : Bool → Result OrgContext
hidden true = err (problem 403 "forbidden")
hidden false = err (problem 404 "not_found")

-- The caller's role and scopes in the organization, or none for a stranger.
unfoldable pub standing : Principal → ℕ → List Membership → Option (Option Role × List Scope)
unfolding at_key role_scopes
standing (user u) org_id ms = elim (find_where (at_key org_id u) ms) [
  | none ↦ none
  | some m ↦ some (some m.role, role_scopes m.role)
]
standing (api_key k org scopes) org_id ms = if org == org_id then some (none, scopes) else none
standing (selfhost_key org scopes) org_id ms = if org == org_id then some (none, scopes) else none
standing (oauth u org scopes) org_id ms = if org == org_id then some (none, scopes) else none

unfoldable pub lacks : Option Scope → List Scope → Bool
lacks none scopes = false
lacks (some s) scopes = not (has s scopes)

-- `org_access(scope, members_route=...)`: the context, or the refusal, with the trail afterwards.
unfoldable pub org_access :
    ℕ → Option Scope → Bool → Principal → ℕ → AccessDb → Result OrgContext × AccessDb
unfolding hidden standing lacks actor_of record_event
org_access now scope members_route principal org_id db =
    elim (standing principal org_id db.memberships) [
      | none ↦ (hidden members_route, db)
      | some (role, scopes) ↦ elim (find_where (λ (o : Org). o.id == org_id) db.orgs) [
        | none ↦ (hidden members_route, db)
        | some org ↦
            if lacks scope scopes
            then (
              err (problem 403 "insufficient_scope"),
              record db {
                audit_events =
                    record_event now (some org.id) (actor_of principal) auth_denied none 0
                      db.audit_events;
              },
            )
            else (
              ok (record { org = org; principal = principal; role = role; scopes = scopes }),
              db,
            )
      ]
    ]
