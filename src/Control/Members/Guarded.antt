-- ===== src/Control/Members/Guarded.antt =====
-- The guarded statements of app/control/service.py, by which an organization keeps an owner.
use daas_engine.Base.{
  ℕ, Bool, not, ◌&&◌, ◌||◌, List, ◌==◌, ltb, delete_where, update_where, count_where,
}
use daas_engine.Control.Scopes.{Role, is_owner}
use daas_engine.Control.Records.{Membership}

-- `Membership.org_id == org_id, Membership.user_id == user_id`.
unfoldable pub at_key : ℕ → ℕ → Membership → Bool
at_key org_id user_id m = m.org_id == org_id && m.user_id == user_id

-- `m.org_id == org_id, m.role == "owner"`.
unfoldable pub owns : ℕ → Membership → Bool
owns org_id m = m.org_id == org_id && is_owner m.role

-- The count of owners is above 1.
unfoldable pub other_owners_exist : ℕ → List Membership → Bool
unfolding owns
other_owners_exist org_id ms = ltb 1 (count_where (owns org_id) ms)

-- The `WHERE` clause of both statements: not an owner, or not the only one.
unfoldable pub may_change : ℕ → ℕ → List Membership → Membership → Bool
unfolding at_key other_owners_exist
may_change org_id user_id ms m =
    at_key org_id user_id m && (not (is_owner m.role) || other_owners_exist org_id ms)

-- The table afterwards, and whether one row was deleted.
unfoldable pub delete_member_guarded : ℕ → ℕ → List Membership → List Membership × Bool
unfolding may_change
delete_member_guarded org_id user_id ms = (
  delete_where (may_change org_id user_id ms) ms,
  count_where (may_change org_id user_id ms) ms == 1,
)

unfoldable pub with_role : Role → Membership → Membership
with_role role m = record m { role = role }

unfoldable pub set_member_role_guarded : ℕ → ℕ → Role → List Membership → List Membership × Bool
unfolding may_change with_role
set_member_role_guarded org_id user_id role ms = (
  update_where (may_change org_id user_id ms) (with_role role) ms,
  count_where (may_change org_id user_id ms) ms == 1,
)
