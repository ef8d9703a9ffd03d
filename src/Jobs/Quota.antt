-- ===== src/Jobs/Quota.antt =====
-- app/api/v1/plan_guard.py: the monthly limits of a plan before `POST /jobs` and `POST /uploads`.
pub mod Laws
use daas_engine.Base.{
  Bool, List, Option, false, find_where, if◌then◌else◌, leb, none, some, true, ℕ, ◌&&◌, ◌+◌, ◌==◌,
}
use daas_engine.Control.Access.{Principal, actor_of, api_key, oauth, selfhost_key, user}
use daas_engine.Control.Audit.{record_event}
use daas_engine.Control.Members.Guarded.{at_key}
use daas_engine.Control.Problem.{Result, err, ok, problem}
use daas_engine.Control.Records.{Job, Membership, Org, UsageCounter, auth_denied}
use daas_engine.Control.Scopes.{Scope, has, role_scopes, runs_write, uploads_write}
use daas_engine.Control.Usage.{bytes_used, limits_for, runs_used}
use daas_engine.Jobs.Executor.{World}
use daas_engine.Jobs.Queue.{Settings}
use daas_engine.Jobs.Table.{pending_jobs}

-- The runs of the month and the jobs that wait or run: what the limit of runs is held against.
unfoldable pub charged : ℕ → ℕ → List UsageCounter → List Job → ℕ
charged org_id period counters jobs = runs_used org_id period counters + pending_jobs org_id jobs

-- `runs_limit_reached`: the limit and what is used, or none where there is room.
unfoldable pub runs_limit_reached : Org → ℕ → List UsageCounter → List Job → Option (ℕ × ℕ)
unfolding limits_for charged
runs_limit_reached org period counters jobs = elim (limits_for org.plan).runs_per_month [
  | none ↦ none
  | some limit ↦
      if leb limit (charged org.id period counters jobs)
      then some (limit, charged org.id period counters jobs)
      else none
]

pub data Resource : Type 0 where
  runs upload_bytes : Resource

unfoldable pub bytes_limit_reached : Org → ℕ → ℕ → List UsageCounter → Option (ℕ × ℕ)
unfolding limits_for
bytes_limit_reached org period declared counters =
    elim (limits_for org.plan).upload_bytes_per_month [
      | none ↦ none
      | some limit ↦
          if leb limit (bytes_used org.id period counters + declared)
          then some (limit, bytes_used org.id period counters)
          else none
    ]

unfoldable pub limit_reached :
    Resource → Org → ℕ → ℕ → List UsageCounter → List Job → Option (ℕ × ℕ)
unfolding runs_limit_reached bytes_limit_reached
limit_reached runs org period declared counters jobs = runs_limit_reached org period counters jobs
limit_reached upload_bytes org period declared counters jobs =
    bytes_limit_reached org period declared counters

abbrev pub is_runs : Resource → Bool
is_runs runs = true
is_runs upload_bytes = false

-- `check_plan_limit`: the refusal is in the audit trail before it is raised.
unfoldable pub check_plan_limit :
    Settings → ℕ → ℕ → Principal → Org → Resource → ℕ → World → Result (Unit {0}) × World
unfolding limit_reached record_event actor_of
check_plan_limit settings now period principal org resource declared w =
    if is_runs resource && settings.maintenance_mode
    then (err (problem 503 "maintenance"), w)
    else elim (limit_reached resource org period declared w.usage_counters w.db.jobs) [
      | none ↦ (ok tt, w)
      | some _ ↦ (
        err (problem 429 "plan_limit"),
        record w {
          db = record w.db {
            audit_events =
                record_event now (some org.id) (actor_of principal) auth_denied none 0
                  w.db.audit_events;
          };
        },
      )
    ]

-- `_scopes_in_org`: a person counts by their role, also behind an OAuth token.
unfoldable pub scopes_in_org : Principal → ℕ → List Membership → Option (List Scope)
unfolding at_key role_scopes
scopes_in_org (user u) org_id ms = elim (find_where (at_key org_id u) ms) [
  | none ↦ none
  | some m ↦ some (role_scopes m.role)
]
scopes_in_org (oauth u org scopes) org_id ms = elim (find_where (at_key org_id u) ms) [
  | none ↦ none
  | some m ↦ some (role_scopes m.role)
]
scopes_in_org (api_key k org scopes) org_id ms = if org == org_id then some scopes else none
scopes_in_org (selfhost_key org scopes) org_id ms = if org == org_id then some scopes else none

-- `GUARDED`: the scope that each guarded route needs.
abbrev pub guarded_scope : Resource → Scope
guarded_scope runs = runs_write
guarded_scope upload_bytes = uploads_write

-- `plan_guard` on one of its two routes: a caller without access or scope passes, and the route
-- itself refuses.
unfoldable pub plan_guard :
    Settings
    → ℕ
    → ℕ
    → Principal
    → ℕ
    → Resource
    → ℕ
    → List Membership
    → List Org
    → World
    → Result (Unit {0}) × World
unfolding scopes_in_org check_plan_limit
plan_guard settings now period principal org_id resource declared memberships orgs w =
    elim (scopes_in_org principal org_id memberships) [
      | none ↦ (ok tt, w)
      | some scopes ↦ elim (find_where (λ (o : Org). o.id == org_id) orgs) [
        | none ↦ (ok tt, w)
        | some org ↦
            if has (guarded_scope resource) scopes
            then check_plan_limit settings now period principal org resource declared w
            else (ok tt, w)
      ]
    ]
