-- ===== src/Tests.antt =====
-- Concrete tables on which the theorems are applied.
mod Members
mod Work
mod Tokens
mod Consent
mod SignIn
mod Webhooks
mod Upkeep
mod Uploads
mod Limits
mod Tenants
use daas_engine.Base.{List, [], false, none, some, ◌∷◌}
use daas_engine.Control.Access.{OrgContext, api_key, user}
use daas_engine.Control.Records.{Membership, Org, free}
use daas_engine.Control.Scopes.{key_scopes, member, owner, owner_scopes}

abbrev pub shop : Org
shop = record {
  id = 1;
  slug = "shop";
  name = "Shop";
  plan = free;
  locale = "pl";
  retention_days = 30;
  llm_narrative = false;
  created_at = 0;
}

-- Two owners and a member of the organization 1.
abbrev pub staff : List Membership
staff =
    record { org_id = 1; user_id = 10; role = owner; created_at = 0 }
    ∷ (record { org_id = 1; user_id = 11; role = owner; created_at = 1 }
        ∷ (record { org_id = 1; user_id = 12; role = member; created_at = 2 } ∷ []))

abbrev pub by_owner : OrgContext
by_owner = record { org = shop; principal = user 10; role = some owner; scopes = owner_scopes }

abbrev pub by_key_context : OrgContext
by_key_context = record {
  org = shop;
  principal = api_key 5 1 key_scopes;
  role = none;
  scopes = key_scopes;
}
