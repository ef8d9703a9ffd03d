-- ===== src/OAuth/Rotation.antt =====
-- The rotation of refresh tokens of app/control/oauth.py: one token goes out and one comes in, and a
-- token that comes back after its rotation ends its grant.
use daas_engine.Base.{
  Bool, Bool-cases, List, Option, Option-cases, arith, count_where, false, find_where, inl, inr,
  is_none, is_some, none, refl, some, subst, sym, true, update_where, ℕ, ◌&&◌, ◌<◌, ◌∙◌, ◌≡◌, ◌≤◌,
  ◌⊎◌,
}
use daas_engine.Base.Tables.Laws.{
  count_where-found, count_where-update_out, count_where_mono, find_where-meets,
}
use daas_engine.Control.Records.{Membership, OAuthGrant, OAuthToken, Reason, by_system}
use daas_engine.Control.Scopes.{Scope}
use daas_engine.OAuth.{OAuthDb, grant_at, live_grant_at, revoke_guarded_grant, with_revoked}
use daas_engine.OAuth.Codes.{Fresh, new_access, new_refresh}
use daas_engine.OAuth.Exchange.{IsSafe-pair}
use daas_engine.OAuth.Live.{
  IsSafe, IsSafe-revoked, IsSafe-rotated, live_refresh, live_refresh-revoke,
}
use daas_engine.OAuth.Refresh.{
  Verdict, access_of, as_rotated, decide, ends, refresh_at, rotatable, rotated_tokens, unusable,
  usable, usable_refresh, verdict,
}

-- What a token must be for `_usable_refresh` to give it.
pub record IsUsable (now grant id client : ℕ) (t : OAuthToken) (db : OAuthDb) : Type 0 where
  pub found : find_where (refresh_at grant id client) db.tokens ≡ some t
  pub granted : 0 < count_where (live_grant_at grant) db.grants
  pub is_usable : verdict now db.memberships t ≡ usable

not_some : {A : Type 0} (o : Option A) → is_some o ≡ false → is_none o ≡ true
not_some none h = refl
not_some (some a) h = cc

decide-cases :
    (now grant : ℕ) (t : OAuthToken) (v : Verdict) (db : OAuthDb)
    → ((v ≡ usable) × (decide now grant t v db ≡ (some t, db)))
      ⊎ (((decide now grant t v db).0 ≡ none)
          × (((decide now grant t v db).1 ≡ db)
              ⊎ ((reason : Reason) × ((decide now grant t v db).1
                    ≡ (revoke_guarded_grant now grant reason by_system db).1))))
unfolding decide
decide-cases now grant t usable db = inl (refl, refl)
decide-cases now grant t unusable db = inr (refl, inl refl)
decide-cases now grant t (ends reason) db = inr (refl, inr (reason, refl))

pub usable_refresh-decide :
    (now grant id client : ℕ) (db : OAuthDb) (t : OAuthToken) (g : OAuthGrant)
    → find_where (refresh_at grant id client) db.tokens ≡ some t
    → find_where (grant_at grant) db.grants ≡ some g
    → is_some g.revoked_at ≡ false
    → usable_refresh now grant id client db ≡ decide now grant t (verdict now db.memberships t) db
unfolding usable_refresh
usable_refresh-decide now grant id client db t g e f r = rw (e, f, r, usable_refresh) refl

live_grant_at-found :
    (grant : ℕ) (gs : List OAuthGrant) (g : OAuthGrant)
    → find_where (grant_at grant) gs ≡ some g
    → is_some g.revoked_at ≡ false
    → 0 < count_where (live_grant_at grant) gs
live_grant_at-found grant gs g f r = omega (
  arith,
  count_where-found (λ (x : OAuthGrant). is_none x.revoked_at) (grant_at grant) gs g f
      (not_some g.revoked_at r),
  count_where_mono (λ (x : OAuthGrant). is_none x.revoked_at && grant_at grant x)
      (live_grant_at grant) gs (λ x e. ground arith),
)

-- `_usable_refresh` gives no token, and changes nothing or ends the grant.
unfoldable pub IsRefusal : ℕ → ℕ → OAuthDb → Option OAuthToken × OAuthDb → Type 0
IsRefusal now grant db r =
    (r.0 ≡ none)
    × ((r.1 ≡ db)
        ⊎ ((reason : Reason) × (r.1 ≡ (revoke_guarded_grant now grant reason by_system db).1)))

pub usable_refresh-cases :
    (now grant id client : ℕ) (db : OAuthDb)
    → ((t : OAuthToken) × IsUsable now grant id client t db
        × (usable_refresh now grant id client db ≡ (some t, db)))
      ⊎ IsRefusal now grant db (usable_refresh now grant id client db)
unfolding usable_refresh IsRefusal
usable_refresh-cases now grant id client db =
    elim (Option-cases (find_where (refresh_at grant id client) db.tokens)) [
      | inl e ↦ inr (rw (e, usable_refresh) refl, inl (rw (e, usable_refresh) refl))
      | inr (t, e) ↦ elim (Option-cases (find_where (grant_at grant) db.grants)) [
        | inl f ↦ inr (rw (e, f, usable_refresh) refl, inl (rw (e, f, usable_refresh) refl))
        | inr (g, f) ↦ elim (Bool-cases (is_some g.revoked_at)) [
          | inl r ↦ inr (rw (e, f, r, usable_refresh) refl, inl (rw (e, f, r, usable_refresh) refl))
          | inr r ↦ elim (decide-cases now grant t (verdict now db.memberships t) db) [
            | inl (v, d) ↦ inl (
              t,
              record {
                found = e;
                granted = live_grant_at-found grant db.grants g f r;
                is_usable = v;
              },
              usable_refresh-decide now grant id client db t g e f r ∙ d,
            )
            | inr d ↦ inr (
                subst (IsRefusal now grant db)
                  (sym (usable_refresh-decide now grant id client db t g e f r)) d)
          ]
        ]
      ]
    ]

unfoldable pub not_revoked : OAuthToken → Bool
not_revoked t = is_none t.revoked_at && is_none t.rotated_at

pub verdict-not_revoked :
    (now : ℕ) (ms : List Membership) (t : OAuthToken)
    → verdict now ms t ≡ usable
    → not_revoked t ≡ true
unfolding verdict not_revoked
verdict-not_revoked now ms t h = elim (Bool-cases (is_some t.rotated_at)) [
  | inl a ↦ absurd (ground (arith, a))
  | inr a ↦ elim (Bool-cases (is_some t.revoked_at)) [
    | inl b ↦ absurd (ground (arith, a, b))
    | inr b ↦ rw (not_some t.revoked_at b, not_some t.rotated_at a) refl
  ]
]

-- The rotation takes the one live refresh token of the grant away.
live_refresh-rotated :
    (now grant id client : ℕ) (ts : List OAuthToken) (t : OAuthToken)
    → find_where (refresh_at grant id client) ts ≡ some t
    → not_revoked t ≡ true
    → count_where (live_refresh grant) ts ≤ 1
    → count_where (live_refresh grant) (update_where (rotatable id) (as_rotated now) ts) ≡ 0
unfolding not_revoked refresh_at rotatable as_rotated
live_refresh-rotated now grant id client ts t e n le = omega (
  arith,
  le,
  count_where-update_out (live_refresh grant) (rotatable id) (as_rotated now) ts
      (λ x. ground arith),
  count_where-found not_revoked (refresh_at grant id client) ts t e n,
  count_where_mono (λ (x : OAuthToken). not_revoked x && refresh_at grant id client x)
      (λ (x : OAuthToken). live_refresh grant x && rotatable id x) ts (λ x h. ground (arith, h)),
)

refresh_at-id :
    (grant id client : ℕ) (t : OAuthToken) → refresh_at grant id client t ≡ true → t.id ≡ id
unfolding refresh_at
refresh_at-id grant id client t h = ground (arith, h)

pub rotated_tokens-IsSafe :
    (now grant id client : ℕ) (t : OAuthToken) (requested : List Scope) (fresh : Fresh)
    (db : OAuthDb)
    → IsUsable now grant id client t db
    → IsSafe db.grants db.tokens
    → IsSafe db.grants (rotated_tokens now grant client t requested fresh db.tokens)
unfolding rotated_tokens new_refresh new_access
rotated_tokens-IsSafe now grant id client t requested fresh db u s =
    IsSafe-pair grant db.grants _ _ _
      (IsSafe-revoked now (access_of client t.id) db.grants _
        (IsSafe-rotated now (rotatable t.id) db.grants db.tokens s))
      u.granted
      (rw
        (refresh_at-id grant id client t
          (find_where-meets (refresh_at grant id client) db.tokens t u.found))
        (omega (
          arith,
          live_refresh-revoke now (access_of client id) (with_revoked now)
              (update_where (rotatable id) (as_rotated now) db.tokens) grant
              (λ x. unfold with_revoked in refl),
          live_refresh-rotated now grant id client db.tokens t u.found
              (verdict-not_revoked now db.memberships t u.is_usable) (s.single grant),
        )))
      refl refl refl
