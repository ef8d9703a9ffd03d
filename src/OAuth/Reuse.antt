-- ===== src/OAuth/Reuse.antt =====
-- A refresh token of app/control/oauth.py is good for one exchange: its second use ends the grant.
use daas_engine.Base.{
  ==→eq, Bool, Bool-cases, List, Option, Option-cases, [], ap, arith, count_where, false,
  find_where, inl, inr, is_none, is_some, none, refl, some, sym, true, update_where, ℕ, ◌&&◌, ◌++◌,
  ◌<◌, ◌==◌, ◌∙◌, ◌∷◌, ◌≡◌,
}
use daas_engine.Base.Tables.Laws.{
  count_where-alone, count_where-update_keep, count_where_mono, find_where-meets, find_where-none,
  find_where-update,
}
use daas_engine.Control.Records.{Membership, OAuthGrant, OAuthToken, by_system, reuse_detected}
use daas_engine.Control.Scopes.{Scope, subset}
use daas_engine.OAuth.{
  OAuthDb, TokenResponse, TokenResult, grant_at, guard_grant, invalid_grant, invalid_scope, issued,
  live_grant_at, live_of, locked, refused, with_lock, with_revoked,
}
use daas_engine.OAuth.Codes.{Fresh}
use daas_engine.OAuth.Live.{revoke_guarded_grant-live_of}
use daas_engine.OAuth.Refresh.{
  access_of, as_rotated, decide, ends, exchange_in_grant, refresh_at, requested_of, rotatable,
  rotate, rotated_tokens, usable_refresh, verdict,
}
use daas_engine.OAuth.Rotation.{
  IsRefusal, IsUsable, not_revoked, usable_refresh-cases, usable_refresh-decide,
  verdict-not_revoked,
}

find_where-prefix :
    (p : OAuthToken → Bool) (ts us : List OAuthToken) (t : OAuthToken)
    → find_where p ts ≡ some t
    → find_where p (ts ++ us) ≡ some t
unfolding find_where
find_where-prefix p [] us t e = absurd (cc)
find_where-prefix p (x ∷ ts) us t e = ground (arith, e, find_where-prefix p ts us t)

find_where-rotated :
    (now grant id client : ℕ) (t : OAuthToken) (ts : List OAuthToken)
    → find_where (refresh_at grant id client) ts ≡ some t
    → not_revoked t ≡ true
    → find_where (refresh_at grant id client) (
        update_where
          (access_of client t.id)
          (with_revoked now)
          (update_where (rotatable t.id) (as_rotated now) ts))
      ≡ some (as_rotated now t)
unfolding as_rotated with_revoked refresh_at rotatable access_of not_revoked
find_where-rotated now grant id client t ts e n =
    rw
      (
        find_where-update (refresh_at grant id client) (access_of client t.id) (with_revoked now)
            (update_where (rotatable t.id) (as_rotated now) ts) (λ x h. refl),
        find_where-update (refresh_at grant id client) (rotatable t.id) (as_rotated now) ts
            (λ x h. refl),
        e,
      )
      (ground (arith, n, find_where-meets (refresh_at grant id client) ts t e))

-- The row of a rotated token is still there, with the time of its rotation.
rotated-found :
    (now grant id client : ℕ) (t : OAuthToken) (requested : List Scope) (fresh : Fresh)
    (ts : List OAuthToken)
    → find_where (refresh_at grant id client) ts ≡ some t
    → not_revoked t ≡ true
    → find_where (refresh_at grant id client) (rotated_tokens now grant client t requested fresh ts)
      ≡ some (as_rotated now t)
unfolding rotated_tokens
rotated-found now grant id client t requested fresh ts e n =
    find_where-prefix (refresh_at grant id client) _ _ (as_rotated now t)
      (find_where-rotated now grant id client t ts e n)

is_some-none : {A : Type 0} (o : Option A) → is_some o ≡ true → is_none o ≡ false
is_some-none none h = cc
is_some-none (some a) h = refl

verdict-rotated :
    (now : ℕ) (ms : List Membership) (t : OAuthToken) (used : ℕ)
    → t.rotated_at ≡ some used
    → verdict now ms t ≡ ends reuse_detected
unfolding verdict
verdict-rotated now ms t used e = rw (e, verdict) refl

live_grant_at-find :
    (grant : ℕ) (gs : List OAuthGrant) (g : OAuthGrant)
    → find_where (grant_at grant) gs ≡ some g
    → count_where (grant_at grant) gs ≡ 1
    → 0 < count_where (live_grant_at grant) gs
    → is_some g.revoked_at ≡ false
live_grant_at-find grant gs g e one live = elim (Bool-cases (is_some g.revoked_at)) [
  | inr r ↦ r
  | inl r ↦ absurd (
      omega (
        arith,
        live,
        count_where-alone (λ (x : OAuthGrant). is_none x.revoked_at) (grant_at grant) gs g e
            (omega (arith, one)) (is_some-none g.revoked_at r),
        count_where_mono (live_grant_at grant)
            (λ (x : OAuthGrant). is_none x.revoked_at && grant_at grant x) gs
            (λ x h. ground (arith, h)),
      ))
]

-- A token that comes back after its rotation: refused, and the whole grant is dead.
usable_refresh-reuse :
    (now grant id client : ℕ) (db : OAuthDb) (t : OAuthToken) (used : ℕ)
    → find_where (refresh_at grant id client) db.tokens ≡ some t
    → t.rotated_at ≡ some used
    → count_where (grant_at grant) db.grants ≡ 1
    → 0 < count_where (live_grant_at grant) db.grants
    → ((usable_refresh now grant id client db).0 ≡ none)
      × (count_where (live_of grant) (usable_refresh now grant id client db).1.tokens ≡ 0)
unfolding decide
usable_refresh-reuse now grant id client db t used e r one live =
    elim (Option-cases (find_where (grant_at grant) db.grants)) [
      | inl f ↦ absurd (omega (arith, one, find_where-none (grant_at grant) db.grants f))
      | inr (g, f) ↦
          rw
            (
              usable_refresh-decide now grant id client db t g e f
                  (live_grant_at-find grant db.grants g f one live),
              verdict-rotated now db.memberships t used r,
            )
            (refl, revoke_guarded_grant-live_of now grant reuse_detected by_system db g f)
    ]

-- What an exchange that issued a pair did.
record IsRotation (now grant id client : ℕ) (scopes : List Scope) (fresh : Fresh) (db d : OAuthDb)
    : Type 0 where
  token : OAuthToken
  is_usable : IsUsable now grant id client token (with_lock grant db)
  guarded : count_where (grant_at grant) db.grants ≡ 1
  grants_kept : d.grants ≡ (with_lock grant db).grants
  tokens_rotated :
      d.tokens
      ≡ rotated_tokens now grant client token (requested_of scopes token.scopes) fresh db.tokens

guard_grant-one :
    (grant : ℕ) (db : OAuthDb)
    → count_where (grant_at grant) db.grants ≡ 1
    → guard_grant grant db ≡ some (with_lock grant db)
unfolding guard_grant
guard_grant-one grant db one = ground (arith, one)

rotate-scopes :
    (now grant client : ℕ) (scopes : List Scope) (fresh : Fresh) (db : OAuthDb) (t : OAuthToken)
    → subset (requested_of scopes t.scopes) t.scopes ≡ false
    → (rotate now grant client scopes fresh db t (with_lock grant db)).0 ≡ refused invalid_scope
unfolding rotate
rotate-scopes now grant client scopes fresh db t f = rw (f, rotate) refl

rotate-gone :
    (now grant client : ℕ) (scopes : List Scope) (fresh : Fresh) (db : OAuthDb) (t : OAuthToken)
    → subset (requested_of scopes t.scopes) t.scopes ≡ true
    → (count_where (rotatable t.id) db.tokens == 1) ≡ false
    → (rotate now grant client scopes fresh db t (with_lock grant db)).0 ≡ refused invalid_grant
unfolding rotate
rotate-gone now grant client scopes fresh db t f g = rw (f, g, rotate) refl

exchange_in_grant-unlocked :
    (now grant id client : ℕ) (scopes : List Scope) (fresh : Fresh) (db : OAuthDb)
    → (count_where (grant_at grant) db.grants == 1) ≡ false
    → (exchange_in_grant now grant id client scopes fresh db).0 ≡ refused invalid_grant
unfolding exchange_in_grant guard_grant
exchange_in_grant-unlocked now grant id client scopes fresh db f =
    rw (exchange_in_grant, guard_grant, f) refl

exchange_in_grant-unusable :
    (now grant id client : ℕ) (scopes : List Scope) (fresh : Fresh) (db : OAuthDb)
    → count_where (grant_at grant) db.grants ≡ 1
    → (usable_refresh now grant id client (with_lock grant db)).0 ≡ none
    → exchange_in_grant now grant id client scopes fresh db
      ≡ (refused invalid_grant, (usable_refresh now grant id client (with_lock grant db)).1)
unfolding exchange_in_grant
exchange_in_grant-unusable now grant id client scopes fresh db one n =
    rw (exchange_in_grant, guard_grant-one grant db one, n) refl

exchange_in_grant-usable :
    (now grant id client : ℕ) (scopes : List Scope) (fresh : Fresh) (db : OAuthDb) (t : OAuthToken)
    → count_where (grant_at grant) db.grants ≡ 1
    → usable_refresh now grant id client (with_lock grant db) ≡ (some t, with_lock grant db)
    → exchange_in_grant now grant id client scopes fresh db
      ≡ rotate now grant client scopes fresh db t (with_lock grant db)
unfolding exchange_in_grant
exchange_in_grant-usable now grant id client scopes fresh db t one g =
    rw (exchange_in_grant, guard_grant-one grant db one, g, g) refl

rotate-IsRotation :
    (now grant id client : ℕ) (scopes : List Scope) (fresh : Fresh) (db : OAuthDb) (t : OAuthToken)
    (r : TokenResponse)
    → IsUsable now grant id client t (with_lock grant db)
    → count_where (grant_at grant) db.grants ≡ 1
    → (rotate now grant client scopes fresh db t (with_lock grant db)).0 ≡ issued r
    → IsRotation now grant id client scopes fresh db
        (rotate now grant client scopes fresh db t (with_lock grant db)).1
unfolding rotate
rotate-IsRotation now grant id client scopes fresh db t r u one e =
    elim (Bool-cases (subset (requested_of scopes t.scopes) t.scopes)) [
      | inr f ↦ absurd (ground (arith, rotate-scopes now grant client scopes fresh db t f, e))
      | inl f ↦ elim (Bool-cases (count_where (rotatable t.id) db.tokens == 1)) [
        | inr g ↦ absurd (ground (arith, rotate-gone now grant client scopes fresh db t f g, e))
        | inl g ↦
            rw (f, g, rotate)
              (record {
                token = t;
                is_usable = u;
                guarded = one;
                grants_kept = refl;
                tokens_rotated = refl;
              })
      ]
    ]

locked_count :
    (grant : ℕ) (gs : List OAuthGrant)
    → count_where (grant_at grant) (update_where (grant_at grant) locked gs)
      ≡ count_where (grant_at grant) gs
unfolding locked
locked_count grant gs =
    count_where-update_keep (grant_at grant) (grant_at grant) locked gs (λ x h. refl)

locked_live :
    (grant : ℕ) (gs : List OAuthGrant)
    → count_where (live_grant_at grant) (update_where (grant_at grant) locked gs)
      ≡ count_where (live_grant_at grant) gs
unfolding locked
locked_live grant gs =
    count_where-update_keep (live_grant_at grant) (grant_at grant) locked gs (λ x h. refl)

exchange_in_grant-IsRotation :
    (now grant id client : ℕ) (scopes : List Scope) (fresh : Fresh) (db : OAuthDb)
    (r : TokenResponse)
    → (exchange_in_grant now grant id client scopes fresh db).0 ≡ issued r
    → IsRotation now grant id client scopes fresh db
        (exchange_in_grant now grant id client scopes fresh db).1
unfolding exchange_in_grant guard_grant
exchange_in_grant-IsRotation now grant id client scopes fresh db r e =
    elim (Bool-cases (count_where (grant_at grant) db.grants == 1)) [
      | inr f ↦
          absurd
            (ground (arith, exchange_in_grant-unlocked now grant id client scopes fresh db f, e))
      | inl f ↦ elim (usable_refresh-cases now grant id client (with_lock grant db)) [
        | inr n ↦ absurd (
            ground (
              arith,
              exchange_in_grant-unusable now grant id client scopes fresh db (==→eq _ 1 f)
                  (unfold IsRefusal in n.0),
              e,
            ))
        | inl (t, u, g) ↦
            rw (exchange_in_grant-usable now grant id client scopes fresh db t (==→eq _ 1 f) g) (
              rotate-IsRotation now grant id client scopes fresh db t r u (==→eq _ 1 f) (
                ap (λ (x : TokenResult × OAuthDb). x.0)
                  (sym (
                    exchange_in_grant-usable now grant id client scopes fresh db t (==→eq _ 1 f) g))
                ∙ e))
      ]
    ]

rotation-one :
    (now grant id client : ℕ) (scopes : List Scope) (fresh : Fresh) (db d : OAuthDb)
    → IsRotation now grant id client scopes fresh db d
    → count_where (grant_at grant) d.grants ≡ 1
rotation-one now grant id client scopes fresh db d ro =
    rw ro.grants_kept (locked_count grant db.grants ∙ ro.guarded)

-- After a rotation, the token that was exchanged is recognised as used.
rotation-reuse :
    (now later grant id client : ℕ) (scopes : List Scope) (fresh : Fresh) (db d : OAuthDb)
    → IsRotation now grant id client scopes fresh db d
    → ((usable_refresh later grant id client (with_lock grant d)).0 ≡ none)
      × (count_where
            (live_of grant)
            (usable_refresh later grant id client (with_lock grant d)).1.tokens
          ≡ 0)
unfolding as_rotated
rotation-reuse now later grant id client scopes fresh db d ro =
    usable_refresh-reuse later grant id client (with_lock grant d) (as_rotated now ro.token) now
      (rw ro.tokens_rotated (
        rotated-found now grant id client ro.token _ fresh db.tokens ro.is_usable.found
          (verdict-not_revoked now db.memberships ro.token ro.is_usable.is_usable)))
      refl (locked_count grant d.grants ∙ rotation-one now grant id client scopes fresh db d ro)
      (omega (
        arith,
        locked_live grant d.grants,
        ap (λ (gs : List OAuthGrant). count_where (live_grant_at grant) gs) ro.grants_kept,
        ro.is_usable.granted,
      ))

-- A refresh token that gave a pair gives none again: its second use, at any time and with any
-- scopes, is refused, and after it no token of the grant is live, those of the new pair included.
pub exchange_in_grant-twice :
    (now later grant id client : ℕ) (scopes again : List Scope) (fresh other : Fresh) (db : OAuthDb)
    (r : TokenResponse)
    → (exchange_in_grant now grant id client scopes fresh db).0 ≡ issued r
    → ((exchange_in_grant later grant id client again other
          (exchange_in_grant now grant id client scopes fresh db).1).0
        ≡ refused invalid_grant)
      × (count_where
            (live_of grant)
            (exchange_in_grant later grant id client again other
              (exchange_in_grant now grant id client scopes fresh db).1).1.tokens
          ≡ 0)
exchange_in_grant-twice now later grant id client scopes again fresh other db r e =
    let d = (exchange_in_grant now grant id client scopes fresh db).1 in
    let ro = exchange_in_grant-IsRotation now grant id client scopes fresh db r e in
    let reuse = rotation-reuse now later grant id client scopes fresh db d ro in
    let one = rotation-one now grant id client scopes fresh db d ro in
    rw (exchange_in_grant-unusable later grant id client again other d one reuse.0) (refl, reuse.1)
