-- ===== src/Control/Scopes.antt =====
-- app/control/scopes.py: the scopes of API keys and the permissions of roles, and
-- `grantable_scopes` of app/control/oauth.py.
pub mod Laws
use daas_engine.Base.{
  ℕ, ◌+◌, Bool, true, false, ◌&&◌, ◌||◌, Option, none, some, List, [], ◌∷◌, ◌++◌, ◌==◌,
  if◌then◌else◌,
}

-- A scope text: one of the twelve names of the program, or any other text.
pub data Scope : Type 0 where
  org_read org_manage org_delete members_manage keys_manage uploads_write : Scope
  runs_read runs_write reports_read usage_read audit_read webhooks_manage : Scope
  other : ℕ → Scope

pub data Role : Type 0 where
  owner admin member : Role

-- A number for each scope, by which two scopes are compared.
abbrev pub scope_id : Scope → ℕ
scope_id org_read = 0
scope_id org_manage = 1
scope_id org_delete = 2
scope_id members_manage = 3
scope_id keys_manage = 4
scope_id uploads_write = 5
scope_id runs_read = 6
scope_id runs_write = 7
scope_id reports_read = 8
scope_id usage_read = 9
scope_id audit_read = 10
scope_id webhooks_manage = 11
scope_id (other n) = 12 + n

abbrev pub is_owner : Role → Bool
is_owner owner = true
is_owner admin = false
is_owner member = false

-- `scope in scopes`.
unfoldable pub has : Scope → List Scope → Bool
has s [] = false
has s (x ∷ xs) = scope_id s == scope_id x || has s xs

-- `xs <= ys` on sets.
unfoldable pub subset : List Scope → List Scope → Bool
unfolding has
subset [] ys = true
subset (x ∷ xs) ys = has x ys && subset xs ys

abbrev pub key_scopes : List Scope
key_scopes =
    org_read ∷ org_manage ∷ members_manage ∷ keys_manage ∷ uploads_write ∷ runs_read ∷ runs_write
    ∷ reports_read ∷ usage_read ∷ audit_read ∷ webhooks_manage ∷ []

abbrev pub member_scopes : List Scope
member_scopes = org_read ∷ uploads_write ∷ runs_read ∷ runs_write ∷ reports_read ∷ usage_read ∷ []

abbrev pub admin_scopes : List Scope
admin_scopes =
    member_scopes ++ (org_manage ∷ members_manage ∷ keys_manage ∷ audit_read ∷ webhooks_manage ∷ [])

abbrev pub owner_scopes : List Scope
owner_scopes = admin_scopes ++ (org_delete ∷ [])

unfoldable pub role_scopes : Role → List Scope
role_scopes member = member_scopes
role_scopes admin = admin_scopes
role_scopes owner = owner_scopes

-- `ROLE_SCOPES.get(role or "", frozenset())`.
unfoldable pub scopes_of : Option Role → List Scope
unfolding role_scopes
scopes_of none = []
scopes_of (some r) = role_scopes r

unfoldable pub role_rank : Role → ℕ
role_rank member = 1
role_rank admin = 2
role_rank owner = 3

-- `[s for s in requested if s in allowed]`.
unfoldable pub only_in : List Scope → List Scope → List Scope
unfolding has
only_in allowed [] = []
only_in allowed (s ∷ xs) = if has s allowed then s ∷ only_in allowed xs else only_in allowed xs

unfoldable pub grantable_scopes : List Scope → Option Role → List Scope
unfolding only_in scopes_of
grantable_scopes requested role = only_in (scopes_of role) requested
