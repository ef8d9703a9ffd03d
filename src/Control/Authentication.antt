-- ===== src/Control/Authentication.antt =====
-- Authentication of app/api/v1/deps.py: API keys, sessions with their CSRF token, and the limits per
-- subject of app/core/ratelimit_v1.py.
use daas_engine.Base.{
  Bool, List, Option, false, find_where, if◌then◌else◌, is_some, leb, ltb, none, not, opt_eq, some,
  true, update_where, ℕ, ◌&&◌, ◌+◌, ◌==◌, ◌||◌,
}
use daas_engine.Control.Access.{Principal, api_key, oauth, selfhost_key, user}
use daas_engine.Control.Audit.{record_event}
use daas_engine.Control.Problem.{Result, err, ok, problem}
use daas_engine.Control.Records.{ApiKey, AuditEvent, Session, User, auth_denied, by_key}
use daas_engine.Control.Scopes.{key_scopes}

-- What a request presents: the digest of its key, the prefix if it has the form of one, and whether
-- it is the key of the deployment; the session id whose signature holds; the CSRF values.
pub record PresentedKey : Type 0 where
  pub digest : ℕ
  pub key_prefix : Option ℕ
  pub is_deployment : Bool

pub record Request : Type 0 where
  pub is_safe_method : Bool
  pub presented : Option PresentedKey
  pub cookie : Option (Option ℕ)
  pub csrf_header : Option ℕ
  pub csrf_cookie : Option ℕ
  pub client_ip : ℕ

pub record AuthDb : Type 0 where
  pub api_keys : List ApiKey
  pub sessions : List Session
  pub users : List User
  pub audit_events : List AuditEvent

-- `_unauthorized`: `wait` is the answer of the limiter of failures.
unfoldable pub unauthorized : ℕ → Result Principal
unauthorized wait =
    if ltb 0 wait then err (problem 429 "rate_limited") else err (problem 401 "unauthorized")

-- `_audit_denied`.
unfoldable pub audit_denied : ℕ → ApiKey → AuthDb → AuthDb
unfolding record_event
audit_denied now k db = record db {
  audit_events =
      record_event now (some k.org_id) (by_key (some k.id)) auth_denied (some k.prefix) 0
        db.audit_events;
}

abbrev pub key_throttle : ℕ
key_throttle = 300

unfoldable pub key_used : ℕ → ApiKey → AuthDb → AuthDb
key_used now k db =
    if elim k.last_used_at [ none ↦ true | some l ↦ ltb (l + key_throttle) now ]
    then record db {
      api_keys =
          update_where (λ (r : ApiKey). r.id == k.id)
            (λ (r : ApiKey). record r { last_used_at = some now }) db.api_keys;
    }
    else db

-- The checks on a key whose digest matches.
unfoldable pub admit_key : ℕ → ℕ → ApiKey → AuthDb → Result Principal × AuthDb
unfolding unauthorized audit_denied key_used
admit_key now wait k db =
    if is_some k.revoked_at || elim k.expires_at [ none ↦ false | some e ↦ leb e now ]
    then (unauthorized wait, audit_denied now k db)
    else (ok (api_key k.id k.org_id k.scopes), key_used now k db)

-- `_authenticate_key`; `default_org` is `DEFAULT_ORG_ID`, and `hosted` is the cloud mode.
unfoldable pub authenticate_key :
    Bool → ℕ → ℕ → ℕ → PresentedKey → AuthDb → Result Principal × AuthDb
unfolding unauthorized admit_key
authenticate_key hosted default_org now wait p db =
    if p.is_deployment && not hosted
    then (ok (selfhost_key default_org key_scopes), db)
    else elim p.key_prefix [
      | none ↦ (unauthorized wait, db)
      | some x ↦ elim (find_where (λ (k : ApiKey). k.prefix == x) db.api_keys) [
        | none ↦ (unauthorized wait, db)
        | some k ↦
            if p.digest == k.key_hash then admit_key now wait k db else (unauthorized wait, db)
      ]
    ]

-- Double submit: the header is the cookie and the token of the session.
unfoldable pub csrf_ok : Request → Session → Bool
csrf_ok r s = elim r.csrf_header [
  | none ↦ false
  | some h ↦ opt_eq r.csrf_cookie h && h == s.csrf_token
]

-- `_authenticate_session`.
unfoldable pub authenticate_session : ℕ → ℕ → Request → Option ℕ → AuthDb → Result Principal
unfolding unauthorized csrf_ok
authenticate_session now wait r id db = elim id [
  | none ↦ unauthorized wait
  | some i ↦ elim (find_where (λ (s : Session). s.id == i) db.sessions) [
    | none ↦ unauthorized wait
    | some s ↦
        if leb s.expires_at now
        then unauthorized wait
        else elim (find_where (λ (u : User). u.id == s.user_id) db.users) [
          | none ↦ unauthorized wait
          | some u ↦
              if not r.is_safe_method && not (csrf_ok r s)
              then err (problem 403 "csrf_failed")
              else ok (user u.id)
        ]
  ]
]

-- `get_principal`: a key goes before a session.
unfoldable pub get_principal : Bool → ℕ → ℕ → ℕ → Request → AuthDb → Result Principal × AuthDb
unfolding authenticate_key authenticate_session unauthorized
get_principal hosted default_org now wait r db = elim r.presented [
  | some p ↦ authenticate_key hosted default_org now wait p db
  | none ↦ elim r.cookie [
    | none ↦ (unauthorized wait, db)
    | some id ↦ (authenticate_session now wait r id db, db)
  ]
]

-- The subject of a limit, `principal_key`: a key, a user, an address, or the key of the
-- deployment.
pub data Subject : Type 0 where
  of_key of_user of_ip : ℕ → Subject
  of_deployment : Subject

unfoldable pub principal_key : Option Principal → ℕ → Subject
principal_key none ip = of_ip ip
principal_key (some (user u)) ip = of_user u
principal_key (some (api_key k org scopes)) ip = of_key k
principal_key (some (selfhost_key org scopes)) ip = of_deployment
principal_key (some (oauth u org scopes)) ip = of_user u
