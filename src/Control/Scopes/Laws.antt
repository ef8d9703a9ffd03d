-- ===== src/Control/Scopes/Laws.antt =====
-- What the scope sets of app/control/scopes.py are worth to the routes that test them.
use daas_engine.Base.{
  ==_refl, ==→eq, Bool-cases, List, Option, [], arith, inl, inr, refl, true, ◌&&◌, ◌==◌, ◌∷◌, ◌≡◌,
  ◌≤◌,
}
use daas_engine.Control.Scopes.{
  Role, Scope, admin, grantable_scopes, has, member, only_in, owner, role_rank, role_scopes,
  scope_id, scopes_of, subset,
}
use daas_engine.RateLimit.Window.{allowed}

pub has-of_id : (s t : Scope) (xs : List Scope) → scope_id s ≡ scope_id t → has s xs ≡ has t xs
unfolding has
has-of_id s t [] e = refl
has-of_id s t (x ∷ xs) e = rw e (ground (arith, has-of_id s t xs e))

-- `subset` is inclusion of the sets.
pub has-subset :
    (xs ys : List Scope) (s : Scope) → subset xs ys ≡ true → has s xs ≡ true → has s ys ≡ true
unfolding subset
has-subset [] ys s h m = cc
has-subset (x ∷ xs) ys s h m = elim (Bool-cases (scope_id s == scope_id x)) [
  | inl e ↦ ground (arith, has-of_id s x ys (==→eq _ _ e))
  | inr e ↦ has-subset xs ys s (ground arith) (ground arith)
]

pub has-only_in :
    (allowed xs : List Scope) (s : Scope) → has s (only_in allowed xs) ≡ (has s xs && has s allowed)
unfolding only_in
has-only_in allowed [] s = refl
has-only_in allowed (x ∷ xs) s = elim (Bool-cases (scope_id s == scope_id x)) [
  | inl e ↦ ground (arith, has-of_id s x allowed (==→eq _ _ e), has-only_in allowed xs s)
  | inr e ↦ ground (arith, has-only_in allowed xs s)
]

-- A grant holds exactly the requested scopes that the role has.
pub has-grantable_scopes :
    (requested : List Scope) (role : Option Role) (s : Scope)
    → has s (grantable_scopes requested role) ≡ (has s requested && has s (scopes_of role))
unfolding grantable_scopes
has-grantable_scopes requested role s = has-only_in (scopes_of role) requested s

-- A role of a higher rank has every scope of a lower one.
pub subset-role_scopes :
    (r t : Role) → role_rank r ≤ role_rank t → subset (role_scopes r) (role_scopes t) ≡ true
unfolding subset role_rank role_scopes
subset-role_scopes owner owner h = refl
subset-role_scopes owner admin h = absurd (omega arith)
subset-role_scopes owner member h = absurd (omega arith)
subset-role_scopes admin owner h = refl
subset-role_scopes admin admin h = refl
subset-role_scopes admin member h = absurd (omega arith)
subset-role_scopes member owner h = refl
subset-role_scopes member admin h = refl
subset-role_scopes member member h = refl

has_self : (s : Scope) (xs : List Scope) → has s (s ∷ xs) ≡ true
unfolding has
has_self s xs = rw (==_refl (scope_id s)) refl

pub subset-of_has :
    (xs ys : List Scope) → ((s : Scope) → has s xs ≡ true → has s ys ≡ true) → subset xs ys ≡ true
unfolding subset has
subset-of_has [] ys h = refl
subset-of_has (x ∷ xs) ys h =
    rw (h x (has_self x xs), subset-of_has xs ys (λ s e. h s (ground (arith, e)))) refl

-- What is kept of a list of scopes is in the list and in what is allowed.
pub subset-only_in :
    (allowed xs : List Scope)
    → (subset (only_in allowed xs) xs ≡ true) × (subset (only_in allowed xs) allowed ≡ true)
subset-only_in allowed xs = (
  subset-of_has (only_in allowed xs) xs (λ s e. ground (arith, has-only_in allowed xs s, e)),
  subset-of_has (only_in allowed xs) allowed (λ s e. ground (arith, has-only_in allowed xs s, e)),
)

pub subset_trans :
    (xs ys zs : List Scope) → subset xs ys ≡ true → subset ys zs ≡ true → subset xs zs ≡ true
subset_trans xs ys zs h k =
    subset-of_has xs zs (λ s e. has-subset ys zs s k (has-subset xs ys s h e))
