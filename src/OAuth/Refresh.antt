-- ===== src/OAuth/Refresh.antt =====
-- Refresh tokens of app/control/oauth.py: when one may be used, its rotation, and revocation by the
-- client.
use daas_engine.Base.{
  Bool, List, Option, [], count_where, delete_where, false, find_where, if◌then◌else◌, is_none,
  is_some, leb, ltb, none, not, opt_eq, some, update_where, ℕ, ◌&&◌, ◌++◌, ◌==◌, ◌∷◌,
}
use daas_engine.Control.Audit.{record_event}
use daas_engine.Control.Members.Guarded.{at_key}
use daas_engine.Control.Records.{
  Membership, OAuthToken, Reason, access, by_system, by_user, client_revoked, membership_ended,
  oauth_token_issued, oauth_token_revoked, refresh, reuse_detected,
}
use daas_engine.Control.Scopes.{Scope, scope_id, subset}
use daas_engine.OAuth.{
  OAuthDb, Presented, TokenResult, grant_at, guard_grant, invalid_grant, invalid_scope, is_access,
  is_refresh, issued, of_grant, refused, revoke_guarded_grant, with_revoked,
}
use daas_engine.OAuth.Codes.{Fresh, new_access, new_refresh, response}

-- `DaasRefreshToken` or `DaasAccessToken`, as far as the provider reads them back.
pub record TokenPointer : Type 0 where
  pub token_id : ℕ
  pub hash : ℕ
  pub client_id : ℕ
  pub scopes : List Scope

abbrev pub token_at : ℕ → OAuthToken → Bool
token_at id t = t.id == id

-- The row of `_usable_refresh`, less the join with the grant.
unfoldable pub refresh_at : ℕ → ℕ → ℕ → OAuthToken → Bool
refresh_at grant id client t =
    token_at id t && of_grant grant t && t.client_id == client && is_refresh t.kind

-- The user of the token is a member of its organization.
unfoldable pub has_member : OAuthToken → List Membership → Bool
unfolding at_key
has_member t ms = elim t.user_id [
  | none ↦ false
  | some u ↦ is_some (find_where (at_key t.org_id u) ms)
]

unfoldable pub is_expired : ℕ → OAuthToken → Bool
is_expired now t = elim t.expires_at [ none ↦ false | some e ↦ leb e now ]

-- What becomes of a token: it may be used, it is refused, or its whole grant ends.
pub data Verdict : Type 0 where
  usable unusable : Verdict
  ends : Reason → Verdict

unfoldable pub verdict : ℕ → List Membership → OAuthToken → Verdict
unfolding has_member is_expired
verdict now ms t =
    if is_some t.rotated_at
    then ends reuse_detected
    else if is_some t.revoked_at
    then ends client_revoked
    else if is_expired now t
    then unusable
    else if not (has_member t ms)
    then ends membership_ended
    else usable

unfoldable pub decide : ℕ → ℕ → OAuthToken → Verdict → OAuthDb → Option OAuthToken × OAuthDb
unfolding revoke_guarded_grant
decide now grant t usable db = (some t, db)
decide now grant t unusable db = (none, db)
decide now grant t (ends reason) db = (none, (revoke_guarded_grant now grant reason by_system db).1)

-- `_usable_refresh`, under the guard of the grant.
unfoldable pub usable_refresh : ℕ → ℕ → ℕ → ℕ → OAuthDb → Option OAuthToken × OAuthDb
unfolding refresh_at verdict decide
usable_refresh now grant id client db = elim (find_where (refresh_at grant id client) db.tokens) [
  | none ↦ (none, db)
  | some t ↦ elim (find_where (grant_at grant) db.grants) [
    | none ↦ (none, db)
    | some g ↦
        if is_some g.revoked_at
        then (none, db)
        else decide now grant t (verdict now db.memberships t) db
  ]
]

unfoldable pub pointer : ℕ → OAuthToken → TokenPointer
pointer hash t = record { token_id = t.id; hash = hash; client_id = t.client_id; scopes = t.scopes }

-- `load_refresh_token`; `for_revocation` says that the route is the one of RFC 7009.
unfoldable pub load_refresh_token :
    ℕ → Bool → ℕ → Presented → OAuthDb → Option TokenPointer × OAuthDb
unfolding guard_grant usable_refresh pointer
load_refresh_token now for_revocation client presented db =
    if not presented.is_shaped
    then (none, db)
    else elim (find_where
        (λ (t : OAuthToken).
          t.token_hash == presented.hash && is_refresh t.kind && t.client_id == client)
        db.tokens) [
          | none ↦ (none, db)
          | some t ↦
              if for_revocation then (some (pointer presented.hash t), db) else elim t.grant_id [
                | none ↦ (none, db)
                | some g ↦ elim (guard_grant g db) [
                  | none ↦ (none, db)
                  | some d ↦ (
                    elim (usable_refresh now g t.id client d).0 [
                      | none ↦ none
                      | some r ↦ some (pointer presented.hash r)
                    ],
                    (usable_refresh now g t.id client d).1,
                  )
                ]
              ]
        ]

-- The condition of the UPDATE that rotates a token.
unfoldable pub rotatable : ℕ → OAuthToken → Bool
rotatable id t = token_at id t && is_none t.revoked_at && is_none t.rotated_at

unfoldable pub as_rotated : ℕ → OAuthToken → OAuthToken
as_rotated now t = record t { revoked_at = some now; rotated_at = some now }

-- The live access tokens that came from the rotated one.
unfoldable pub access_of : ℕ → ℕ → OAuthToken → Bool
access_of client parent t =
    t.client_id == client && opt_eq t.parent_id parent && is_access t.kind && is_none t.revoked_at

-- `_dedupe`: the first of each.
unfoldable pub dedupe : List Scope → List Scope
dedupe [] = []
dedupe (s ∷ ss) = s ∷ delete_where (λ (t : Scope). scope_id t == scope_id s) (dedupe ss)

-- `_dedupe(scopes) or granted`.
unfoldable pub requested_of : List Scope → List Scope → List Scope
unfolding dedupe
requested_of [] granted = granted
requested_of (s ∷ ss) granted = dedupe (s ∷ ss)

-- The tokens after the rotation: the old token and its access tokens are revoked, a pair is new.
unfoldable pub rotated_tokens :
    ℕ → ℕ → ℕ → OAuthToken → List Scope → Fresh → List OAuthToken → List OAuthToken
unfolding rotatable as_rotated access_of with_revoked new_refresh new_access
rotated_tokens now grant client t requested fresh tokens =
    update_where (access_of client t.id) (with_revoked now)
      (update_where (rotatable t.id) (as_rotated now) tokens)
    ++ (new_refresh now grant client t.org_id t.user_id t.scopes t.resource t.id (some now) fresh
        ∷ (new_access now grant client t.org_id t.user_id requested t.resource fresh ∷ []))

-- What `exchange_refresh_token` does with a usable token. A refusal of the scopes rolls back, so the
-- tables are then those of before the guard, `old`.
unfoldable pub rotate :
    ℕ → ℕ → ℕ → List Scope → Fresh → OAuthDb → OAuthToken → OAuthDb → TokenResult × OAuthDb
unfolding rotatable rotated_tokens usable_refresh response record_event requested_of subset
rotate now grant client scopes fresh old t db =
    if not (subset (requested_of scopes t.scopes) t.scopes)
    then (refused invalid_scope, old)
    else if not (count_where (rotatable t.id) db.tokens == 1)
    then (refused invalid_grant, (usable_refresh now grant t.id client db).1)
    else (
      issued (response (requested_of scopes t.scopes) fresh),
      record db {
        tokens = rotated_tokens now grant client t (requested_of scopes t.scopes) fresh db.tokens;
        audit_events =
            record_event now (some t.org_id) (by_user t.user_id) oauth_token_issued (some client) 0
              db.audit_events;
      },
    )

-- The transaction of `exchange_refresh_token`, after its lookup of the grant.
unfoldable pub exchange_in_grant :
    ℕ → ℕ → ℕ → ℕ → List Scope → Fresh → OAuthDb → TokenResult × OAuthDb
unfolding guard_grant usable_refresh rotate
exchange_in_grant now grant id client scopes fresh db = elim (guard_grant grant db) [
  | none ↦ (refused invalid_grant, db)
  | some d ↦ elim (usable_refresh now grant id client d).0 [
    | none ↦ (refused invalid_grant, (usable_refresh now grant id client d).1)
    | some t ↦ rotate now grant client scopes fresh db t (usable_refresh now grant id client d).1
  ]
]

-- The row that a presented token points at.
unfoldable pub pointed : ℕ → TokenPointer → OAuthToken → Bool
pointed client p t = token_at p.token_id t && t.token_hash == p.hash && t.client_id == client

-- `exchange_refresh_token`.
unfoldable pub exchange_refresh_token :
    ℕ → ℕ → TokenPointer → List Scope → Fresh → OAuthDb → TokenResult × OAuthDb
unfolding pointed exchange_in_grant
exchange_refresh_token now client p scopes fresh db =
    elim (find_where (λ (t : OAuthToken). pointed client p t && is_refresh t.kind) db.tokens) [
      | none ↦ (refused invalid_grant, db)
      | some t ↦ elim t.grant_id [
        | none ↦ (refused invalid_grant, db)
        | some g ↦ exchange_in_grant now g p.token_id client scopes fresh db
      ]
    ]

unfoldable pub live_token_at : ℕ → OAuthToken → Bool
live_token_at id t = token_at id t && is_none t.revoked_at

-- `revoke_token` on an access token: this token and no other.
unfoldable pub revoke_access : ℕ → OAuthToken → OAuthDb → OAuthDb
unfolding live_token_at with_revoked record_event
revoke_access now t db = record db {
  tokens = update_where (live_token_at t.id) (with_revoked now) db.tokens;
  audit_events =
      if ltb 0 (count_where (live_token_at t.id) db.tokens)
      then record_event now (some t.org_id) (by_user t.user_id) oauth_token_revoked
          (some t.client_id) (count_where (live_token_at t.id) db.tokens) db.audit_events
      else db.audit_events;
}

unfoldable pub revoke_in_grant : ℕ → ℕ → ℕ → ℕ → OAuthDb → OAuthDb
unfolding guard_grant revoke_guarded_grant revoke_access
revoke_in_grant now grant id client db = elim (guard_grant grant db) [
  | none ↦ db
  | some d ↦
      elim (find_where
        (λ (t : OAuthToken). token_at id t && of_grant grant t && t.client_id == client) d.tokens) [
          | none ↦ db
          | some t ↦ elim t.kind [
            | refresh ↦ (revoke_guarded_grant now grant client_revoked (by_user t.user_id) d).1
            | access ↦ revoke_access now t d
          ]
        ]
]

-- `revoke_token`.
unfoldable pub revoke_token : ℕ → TokenPointer → OAuthDb → OAuthDb
unfolding pointed revoke_in_grant
revoke_token now p db = elim (find_where (pointed p.client_id p) db.tokens) [
  | none ↦ db
  | some t ↦ elim t.grant_id [ none ↦ db | some g ↦ revoke_in_grant now g t.id p.client_id db ]
]
