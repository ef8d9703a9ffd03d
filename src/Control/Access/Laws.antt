-- ===== src/Control/Access/Laws.antt =====
-- What `org_access` guarantees to the handlers behind it.
use daas_engine.Base.{ℕ, ◌≡◌, ◌==◌, arith, Bool, true, some}
use daas_engine.Base.Tables.Laws.{find_where-meets}
use daas_engine.Control.Scopes.{Scope, has}
use daas_engine.Control.Records.{Org}
use daas_engine.Control.Problem.{ok}
use daas_engine.Control.Access.{Principal, OrgContext, AccessDb, standing, org_access}

-- A granted context is about the organization asked for, with the required scope among its scopes.
pub org_access-grants :
    (now : ℕ) (scope : Scope) (route : Bool) (p : Principal) (org_id : ℕ) (db : AccessDb)
    (ctx : OrgContext)
    → (org_access now (some scope) route p org_id db).0 ≡ ok ctx
    → (ctx.org.id ≡ org_id)
      × (has scope ctx.scopes ≡ true)
      × (standing p org_id db.memberships ≡ some (ctx.role, ctx.scopes))
      × ((org_access now (some scope) route p org_id db).1 ≡ db)
unfolding org_access
org_access-grants now scope route p org_id db ctx h =
    ground (arith, find_where-meets (λ (o : Org). o.id == org_id) db.orgs ctx.org)
