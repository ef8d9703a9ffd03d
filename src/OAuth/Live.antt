-- ===== src/OAuth/Live.antt =====
-- Which tokens of a grant are live, after each write of app/control/oauth.py that revokes.
use daas_engine.Base.{
  ==→eq, Bool, Bool-cases, List, Option-cases, [], arith, count_where, false, find_where, inl, inr,
  is_none, ltb, ltb→lt, none, refl, some, sym, update_where, ℕ, ◌&&◌, ◌<◌, ◌==◌, ◌∙◌, ◌∷◌, ◌≡◌, ◌≤◌,
  ◌⊎◌,
}
use daas_engine.Base.Tables.Laws.{
  count_where-update_clear, count_where-update_keep, count_where-update_le,
}
use daas_engine.Control.Records.{
  Actor, OAuthCode, OAuthGrant, OAuthToken, Reason, by_system, code_replay,
}
use daas_engine.OAuth.{
  OAuthDb, ended, grant_at, guard_grant, is_refresh, live_grant_at, live_of, locked,
  revoke_guarded_grant, revoke_oauth_grant, with_lock, with_revoked,
}
use daas_engine.OAuth.Codes.{
  grant_ids, revoke_all, revoke_code_family, revoke_old_family, revoke_subtree,
}
use daas_engine.OAuth.Refresh.{as_rotated}

-- The refresh tokens of a grant that are not revoked.
abbrev pub live_refresh : ℕ → OAuthToken → Bool
live_refresh id t = live_of id t && is_refresh t.kind

-- What holds between the transactions: a revoked grant has no live token, and a grant never has two
-- live refresh tokens.
pub record IsSafe (gs : List OAuthGrant) (ts : List OAuthToken) : Type 0 where
  pub dead : (id : ℕ) → (0 < count_where (live_grant_at id) gs) ⊎ (count_where (live_of id) ts ≡ 0)
  pub single : (id : ℕ) → count_where (live_refresh id) ts ≤ 1

pub dead_of :
    {gs : List OAuthGrant} {ts : List OAuthToken}
    → IsSafe gs ts
    → (id : ℕ) → count_where (live_grant_at id) gs ≡ 0
    → count_where (live_of id) ts ≡ 0
dead_of s id e = elim (s.dead id) [ inl live ↦ absurd (omega (arith, live, e)) | inr d ↦ d ]

pub live_or_dead :
    (gs : List OAuthGrant) (ts : List OAuthToken)
    → ((id : ℕ) → count_where (live_grant_at id) gs ≡ 0 → count_where (live_of id) ts ≡ 0)
    → (id : ℕ) → (0 < count_where (live_grant_at id) gs) ⊎ (count_where (live_of id) ts ≡ 0)
live_or_dead gs ts h id = elim (Bool-cases (ltb 0 (count_where (live_grant_at id) gs))) [
  | inl l ↦ inl (ltb→lt 0 (count_where (live_grant_at id) gs) l)
  | inr l ↦ inr (h id (ground (arith, l)))
]

-- Fewer live tokens, with as many live grants, are as safe.
pub IsSafe-fewer :
    (gs : List OAuthGrant) (ts ts' : List OAuthToken)
    → ((id : ℕ) → count_where (live_of id) ts' ≤ count_where (live_of id) ts)
    → ((id : ℕ) → count_where (live_refresh id) ts' ≤ count_where (live_refresh id) ts)
    → IsSafe gs ts
    → IsSafe gs ts'
IsSafe-fewer gs ts ts' h k s = record {
  dead = live_or_dead gs ts' (λ id e. omega (arith, h id, dead_of s id e));
  single = λ id. omega (arith, k id, s.single id);
}

-- The lock changes no grant.
pub IsSafe-locked :
    (id : ℕ) (gs : List OAuthGrant) (ts : List OAuthToken)
    → IsSafe gs ts
    → IsSafe (update_where (grant_at id) locked gs) ts
unfolding locked
IsSafe-locked id gs ts s = record {
  dead = live_or_dead _ ts (λ i e.
      dead_of s i (
        sym (count_where-update_keep (live_grant_at i) (grant_at id) locked gs (λ x h. refl)) ∙ e));
  single = s.single;
}

-- An UPDATE that revokes leaves no token live that was not.
pub live_of-revoke :
    (now : ℕ) (p : OAuthToken → Bool) (f : OAuthToken → OAuthToken) (ts : List OAuthToken) (id : ℕ)
    → ((t : OAuthToken) → is_none (f t).revoked_at ≡ false)
    → count_where (live_of id) (update_where p f ts) ≤ count_where (live_of id) ts
live_of-revoke now p f ts id h =
    count_where-update_le (live_of id) p f ts (λ x e. ground (arith, h x))

pub live_refresh-revoke :
    (now : ℕ) (p : OAuthToken → Bool) (f : OAuthToken → OAuthToken) (ts : List OAuthToken) (id : ℕ)
    → ((t : OAuthToken) → is_none (f t).revoked_at ≡ false)
    → count_where (live_refresh id) (update_where p f ts) ≤ count_where (live_refresh id) ts
live_refresh-revoke now p f ts id h =
    count_where-update_le (live_refresh id) p f ts (λ x e. ground (arith, h x))

pub IsSafe-revoked :
    (now : ℕ) (p : OAuthToken → Bool) (gs : List OAuthGrant) (ts : List OAuthToken)
    → IsSafe gs ts
    → IsSafe gs (update_where p (with_revoked now) ts)
unfolding with_revoked
IsSafe-revoked now p gs ts s =
    IsSafe-fewer gs ts _ (λ id. live_of-revoke now p (with_revoked now) ts id (λ t. refl))
      (λ id. live_refresh-revoke now p (with_revoked now) ts id (λ t. refl)) s

pub IsSafe-rotated :
    (now : ℕ) (p : OAuthToken → Bool) (gs : List OAuthGrant) (ts : List OAuthToken)
    → IsSafe gs ts
    → IsSafe gs (update_where p (as_rotated now) ts)
unfolding as_rotated
IsSafe-rotated now p gs ts s =
    IsSafe-fewer gs ts _ (λ id. live_of-revoke now p (as_rotated now) ts id (λ t. refl))
      (λ id. live_refresh-revoke now p (as_rotated now) ts id (λ t. refl)) s

live_grant_at-ended :
    (now id i : ℕ) (reason : Reason) (gs : List OAuthGrant)
    → (i == id) ≡ false
    → count_where (live_grant_at i) (update_where (live_grant_at id) (ended now reason) gs)
      ≡ count_where (live_grant_at i) gs
unfolding ended
live_grant_at-ended now id i reason gs ne =
    count_where-update_keep (live_grant_at i) (live_grant_at id) (ended now reason) gs
      (λ x h. ground (arith, ne, h))

live_of-cleared :
    (now id : ℕ) (ts : List OAuthToken)
    → count_where (live_of id) (update_where (live_of id) (with_revoked now) ts) ≡ 0
unfolding with_revoked
live_of-cleared now id ts =
    count_where-update_clear (live_of id) (with_revoked now) ts (λ t. ground arith)

-- The end of a grant.
pub IsSafe-ended :
    (now id : ℕ) (reason : Reason) (gs : List OAuthGrant) (ts : List OAuthToken)
    → IsSafe gs ts
    → IsSafe
        (update_where (live_grant_at id) (ended now reason) gs)
        (update_where (live_of id) (with_revoked now) ts)
IsSafe-ended now id reason gs ts s = record {
  dead = live_or_dead _ _ (λ i e. elim (Bool-cases (i == id)) [
    | inl same ↦ rw (==→eq i id same) (live_of-cleared now id ts)
    | inr ne ↦
        dead_of (IsSafe-revoked now (live_of id) gs ts s) i
          (sym (live_grant_at-ended now id i reason gs ne) ∙ e)
  ]);
  single = (IsSafe-revoked now (live_of id) gs ts s).single;
}

-- `_revoke_guarded_grant` of a grant that is there.
pub revoke_guarded_grant-live_of :
    (now id : ℕ) (reason : Reason) (actor : Actor) (db : OAuthDb) (g : OAuthGrant)
    → find_where (grant_at id) db.grants ≡ some g
    → count_where (live_of id) (revoke_guarded_grant now id reason actor db).1.tokens ≡ 0
unfolding revoke_guarded_grant
revoke_guarded_grant-live_of now id reason actor db g e =
    rw (e, revoke_guarded_grant) (live_of-cleared now id db.tokens)

pub revoke_guarded_grant-IsSafe :
    (now id : ℕ) (reason : Reason) (actor : Actor) (db : OAuthDb)
    → IsSafe db.grants db.tokens
    → IsSafe
        (revoke_guarded_grant now id reason actor db).1.grants
        (revoke_guarded_grant now id reason actor db).1.tokens
unfolding revoke_guarded_grant
revoke_guarded_grant-IsSafe now id reason actor db s =
    elim (Option-cases (find_where (grant_at id) db.grants)) [
      | inl e ↦ rw (e, revoke_guarded_grant) s
      | inr (g, e) ↦ rw (e, revoke_guarded_grant) (IsSafe-ended now id reason db.grants db.tokens s)
    ]

pub guard_grant-cases :
    (id : ℕ) (db : OAuthDb)
    → (guard_grant id db ≡ none) ⊎ (guard_grant id db ≡ some (with_lock id db))
unfolding guard_grant
guard_grant-cases id db = ground arith

pub revoke_oauth_grant-IsSafe :
    (now id : ℕ) (reason : Reason) (actor : Actor) (db : OAuthDb)
    → IsSafe db.grants db.tokens
    → IsSafe
        (revoke_oauth_grant now id reason actor db).1.grants
        (revoke_oauth_grant now id reason actor db).1.tokens
unfolding revoke_oauth_grant
revoke_oauth_grant-IsSafe now id reason actor db s = elim (guard_grant-cases id db) [
  | inl e ↦ rw (e, revoke_oauth_grant) s
  | inr e ↦
      rw (e, revoke_oauth_grant)
        (revoke_guarded_grant-IsSafe now id reason actor _ (IsSafe-locked id db.grants db.tokens s))
]

pub revoke_all-IsSafe :
    (now : ℕ) (ids : List ℕ) (db : OAuthDb)
    → IsSafe db.grants db.tokens
    → IsSafe (revoke_all now ids db).grants (revoke_all now ids db).tokens
unfolding revoke_all
revoke_all-IsSafe now [] db s = s
revoke_all-IsSafe now (g ∷ gs) db s =
    revoke_all-IsSafe now gs (revoke_oauth_grant now g code_replay by_system db).1
      (revoke_oauth_grant-IsSafe now g code_replay by_system db s)

pub List-cases : (xs : List ℕ) → (xs ≡ []) ⊎ ((x : ℕ) × (ys : List ℕ) × (xs ≡ x ∷ ys))
List-cases [] = inl refl
List-cases (x ∷ xs) = inr (x, xs, refl)

pub revoke_code_family-IsSafe :
    (now : ℕ) (c : OAuthCode) (db : OAuthDb)
    → IsSafe db.grants db.tokens
    → IsSafe (revoke_code_family now c db).grants (revoke_code_family now c db).tokens
unfolding revoke_code_family revoke_old_family revoke_subtree
revoke_code_family-IsSafe now c db s = elim (List-cases (grant_ids c.client_id c.id db.tokens)) [
  | inl e ↦ rw (e, revoke_code_family) (IsSafe-revoked now _ db.grants db.tokens s)
  | inr (g, gs, e) ↦ rw (e, revoke_code_family) (revoke_all-IsSafe now (g ∷ gs) db s)
]
