-- ===== src/OAuth/Requests.antt =====
-- Every request of app/control/oauth.py that writes tokens keeps them safe, in any order.
use daas_engine.Base.{
  Bool-cases, List, Option-cases, count_where, find_where, inl, inr, refl, ℕ, ◌&&◌, ◌==◌, ◌≡◌, ◌⊎◌,
}
use daas_engine.Control.Records.{
  OAuthToken, TokenKind, access, by_system, by_user, client_revoked, refresh,
}
use daas_engine.Control.Scopes.{Scope, subset}
use daas_engine.OAuth.{OAuthDb, is_refresh, of_grant, with_lock}
use daas_engine.OAuth.Codes.{Fresh}
use daas_engine.OAuth.Live.{
  IsSafe, IsSafe-locked, IsSafe-revoked, guard_grant-cases, revoke_guarded_grant-IsSafe,
}
use daas_engine.OAuth.Refresh.{
  TokenPointer, exchange_in_grant, exchange_refresh_token, live_token_at, pointed, requested_of,
  revoke_access, revoke_in_grant, revoke_token, rotatable, rotate, token_at, usable_refresh,
}
use daas_engine.OAuth.Rotation.{IsRefusal, IsUsable, rotated_tokens-IsSafe, usable_refresh-cases}

pub usable_refresh-IsSafe :
    (now grant id client : ℕ) (db : OAuthDb)
    → IsSafe db.grants db.tokens
    → IsSafe
        (usable_refresh now grant id client db).1.grants
        (usable_refresh now grant id client db).1.tokens
unfolding IsRefusal
usable_refresh-IsSafe now grant id client db s =
    elim (usable_refresh-cases now grant id client db) [
      | inl (t, u, e) ↦ rw e s
      | inr (n, inl e) ↦ rw e s
      | inr (n, inr (reason, e)) ↦
          rw e (revoke_guarded_grant-IsSafe now grant reason by_system db s)
    ]

rotate-IsSafe :
    (now grant client : ℕ) (scopes : List Scope) (fresh : Fresh) (old : OAuthDb) (t : OAuthToken)
    (id : ℕ) (db : OAuthDb)
    → IsUsable now grant id client t db
    → IsSafe old.grants old.tokens
    → IsSafe db.grants db.tokens
    → IsSafe
        (rotate now grant client scopes fresh old t db).1.grants
        (rotate now grant client scopes fresh old t db).1.tokens
unfolding rotate
rotate-IsSafe now grant client scopes fresh old t id db u so s =
    elim (Bool-cases (subset (requested_of scopes t.scopes) t.scopes)) [
      | inr e ↦ rw (e, rotate) so
      | inl e ↦ elim (Bool-cases (count_where (rotatable t.id) db.tokens == 1)) [
        | inr f ↦ rw (e, f, rotate) (usable_refresh-IsSafe now grant t.id client db s)
        | inl f ↦ rw (e, f, rotate) (rotated_tokens-IsSafe now grant id client t _ fresh db u s)
      ]
    ]

exchange_in_grant-IsSafe :
    (now grant id client : ℕ) (scopes : List Scope) (fresh : Fresh) (db : OAuthDb)
    → IsSafe db.grants db.tokens
    → IsSafe
        (exchange_in_grant now grant id client scopes fresh db).1.grants
        (exchange_in_grant now grant id client scopes fresh db).1.tokens
unfolding exchange_in_grant IsRefusal
exchange_in_grant-IsSafe now grant id client scopes fresh db s = elim (guard_grant-cases grant db) [
  | inl e ↦ rw (e, exchange_in_grant) s
  | inr e ↦ elim (usable_refresh-cases now grant id client (with_lock grant db)) [
    | inl (t, u, f) ↦
        rw (e, exchange_in_grant, f, f)
          (rotate-IsSafe now grant client scopes fresh db t id _ u s
            (IsSafe-locked grant db.grants db.tokens s))
    | inr (n, _) ↦
        rw (e, exchange_in_grant, n)
          (usable_refresh-IsSafe now grant id client (with_lock grant db)
            (IsSafe-locked grant db.grants db.tokens s))
  ]
]

exchange_refresh_token-cases :
    (now client : ℕ) (p : TokenPointer) (scopes : List Scope) (fresh : Fresh) (db : OAuthDb)
    → ((exchange_refresh_token now client p scopes fresh db).1 ≡ db)
      ⊎ ((grant : ℕ) × ((exchange_refresh_token now client p scopes fresh db).1
            ≡ (exchange_in_grant now grant p.token_id client scopes fresh db).1))
unfolding exchange_refresh_token
exchange_refresh_token-cases now client p scopes fresh db =
    elim (Option-cases
      (find_where (λ (t : OAuthToken). pointed client p t && is_refresh t.kind) db.tokens)) [
        | inl e ↦ inl (rw (e, exchange_refresh_token) refl)
        | inr (t, e) ↦ elim (Option-cases t.grant_id) [
          | inl f ↦ inl (rw (e, f, exchange_refresh_token) refl)
          | inr (g, f) ↦ inr (g, rw (e, f, exchange_refresh_token) refl)
        ]
      ]

pub exchange_refresh_token-IsSafe :
    (now client : ℕ) (p : TokenPointer) (scopes : List Scope) (fresh : Fresh) (db : OAuthDb)
    → IsSafe db.grants db.tokens
    → IsSafe
        (exchange_refresh_token now client p scopes fresh db).1.grants
        (exchange_refresh_token now client p scopes fresh db).1.tokens
exchange_refresh_token-IsSafe now client p scopes fresh db s =
    elim (exchange_refresh_token-cases now client p scopes fresh db) [
      | inl e ↦ rw e s
      | inr (g, e) ↦ rw e (exchange_in_grant-IsSafe now g p.token_id client scopes fresh db s)
    ]

revoke_access-IsSafe :
    (now : ℕ) (t : OAuthToken) (db : OAuthDb)
    → IsSafe db.grants db.tokens
    → IsSafe (revoke_access now t db).grants (revoke_access now t db).tokens
unfolding revoke_access
revoke_access-IsSafe now t db s = IsSafe-revoked now (live_token_at t.id) db.grants db.tokens s

Kind-cases : (k : TokenKind) → (k ≡ refresh) ⊎ (k ≡ access)
Kind-cases refresh = inl refl
Kind-cases access = inr refl

revoke_in_grant-IsSafe :
    (now grant id client : ℕ) (db : OAuthDb)
    → IsSafe db.grants db.tokens
    → IsSafe
        (revoke_in_grant now grant id client db).grants
        (revoke_in_grant now grant id client db).tokens
unfolding revoke_in_grant
revoke_in_grant-IsSafe now grant id client db s = elim (guard_grant-cases grant db) [
  | inl e ↦ rw (e, revoke_in_grant) s
  | inr e ↦
      elim (Option-cases (
        find_where (λ (t : OAuthToken). token_at id t && of_grant grant t && t.client_id == client)
          db.tokens)) [
            | inl f ↦ rw (e, revoke_in_grant, f) s
            | inr (t, f) ↦ elim (Kind-cases t.kind) [
              | inl k ↦
                  rw (e, revoke_in_grant, f, k)
                    (revoke_guarded_grant-IsSafe now grant client_revoked (by_user t.user_id)
                      (with_lock grant db) (IsSafe-locked grant db.grants db.tokens s))
              | inr k ↦
                  rw (e, revoke_in_grant, f, k)
                    (revoke_access-IsSafe now t (with_lock grant db)
                      (IsSafe-locked grant db.grants db.tokens s))
            ]
          ]
]

pub revoke_token-IsSafe :
    (now : ℕ) (p : TokenPointer) (db : OAuthDb)
    → IsSafe db.grants db.tokens
    → IsSafe (revoke_token now p db).grants (revoke_token now p db).tokens
unfolding revoke_token
revoke_token-IsSafe now p db s =
    elim (Option-cases (find_where (pointed p.client_id p) db.tokens)) [
      | inl e ↦ rw (e, revoke_token) s
      | inr (t, e) ↦ elim (Option-cases t.grant_id) [
        | inl f ↦ rw (e, f, revoke_token) s
        | inr (g, f) ↦ rw (e, f, revoke_token) (revoke_in_grant-IsSafe now g t.id p.client_id db s)
      ]
    ]
