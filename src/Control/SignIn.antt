-- ===== src/Control/SignIn.antt =====
-- Signing in without a password, app/api/v1/auth.py: a link by e-mail, the session that it starts, and
-- the end of the session. Tokens and nonces are given by their SHA-256.
pub mod Links
pub mod Sessions
use daas_engine.Base.{
  Bool, List, Option, [], count_where, delete_where, false, find_where, if◌then◌else◌, is_none, ltb,
  none, not, opt_eq, some, update_where, ℕ, ◌&&◌, ◌++◌, ◌+◌, ◌==◌, ◌∷◌,
}
use daas_engine.Control.Audit.{record_event}
use daas_engine.Control.Directory.{get_or_create_user, memberships_of}
use daas_engine.Control.Members.Invitations.{accept_pending_invitations}
use daas_engine.Control.Members.Routes.{MembersDb}
use daas_engine.Control.Problem.{Problem, Result, err, ok, problem, raise_if, ◌>>◌}
use daas_engine.Control.Records.{
  AuditEvent, MagicLink, Membership, Org, Session, User, auth_login, auth_logout, by_user,
  member_added,
}
use daas_engine.Control.Scopes.{Role}

-- `settings`, as far as they are read here; times are in seconds.
pub record SignInSettings : Type 0 where
  pub maintenance_mode : Bool
  pub has_secret_key : Bool
  pub magic_link_ttl : ℕ
  pub session_ttl : ℕ

pub record SignInDb : Type 0 where
  pub magic_links : List MagicLink
  pub orgs : List Org
  pub members : MembersDb

-- `request_magic_link`. `waits` are the answers of the limiter for the address of the client and for
-- the e-mail, `presented` the hash of the nonce of the browser where it has the form of one, and
-- `nonce` and `digest` the hashes of the fresh nonce and token. The answer is the nonce of the cookie.
-- A mail that cannot be sent does not change the answer.
unfoldable pub request_magic_link :
    SignInSettings → ℕ × ℕ → ℕ → ℕ → ℕ → ℕ → Option ℕ → SignInDb → Result ℕ × SignInDb
request_magic_link settings waits now email digest nonce presented db =
    if settings.maintenance_mode
    then (err (problem 503 "maintenance"), db)
    else if not settings.has_secret_key
    then (err (problem 503 "sessions_unavailable"), db)
    else if ltb 0 waits.0
    then (err (problem 429 "rate_limited"), db)
    else if ltb 0 waits.1
    then (err (problem 429 "rate_limited"), db)
    else (let kept : ℕ = elim presented [ none ↦ nonce | some n ↦ n ] in
        (
          ok kept,
          record db {
            magic_links =
                delete_where (λ (l : MagicLink). ltb (l.expires_at + 86400) now) db.magic_links
                ++ (record {
                  token_hash = digest;
                  email = email;
                  created_at = now;
                  expires_at = now + settings.magic_link_ttl;
                  used_at = none;
                  nonce_hash = some kept;
                }
                    ∷ []);
          },
        ))

-- The condition by which a link is read, and used up.
abbrev pub open_link : ℕ → ℕ → MagicLink → Bool
open_link now digest l = l.token_hash == digest && is_none l.used_at && ltb now l.expires_at

abbrev pub link_at : ℕ → MagicLink → Bool
link_at digest l = l.token_hash == digest

unfoldable pub as_used : ℕ → MagicLink → MagicLink
as_used now l = record l { used_at = some now }

-- The answer to a link that is not good; `wait` is the answer of the limiter of failures.
unfoldable pub invalid_token : ℕ → Problem
invalid_token wait = if ltb 0 wait then problem 429 "rate_limited" else problem 401 "invalid_token"

-- What the body and the cookie say: the digest of the token, the hash of the nonce of the browser, and
-- the consent to sign in here.
pub record MagicLinkConfirm : Type 0 where
  pub digest : ℕ
  pub presented : Option ℕ
  pub confirm : Bool

unfoldable pub same_browser : Option ℕ → MagicLink → Bool
same_browser none l = false
same_browser (some n) l = opt_eq l.nonce_hash n

-- The checks of `verify_magic_link` before it uses the link up.
unfoldable pub check_link : SignInSettings → ℕ → ℕ → MagicLinkConfirm → SignInDb → Result MagicLink
unfolding invalid_token same_browser
check_link settings wait now body db =
    raise_if (not settings.has_secret_key) 503 "sessions_unavailable"
    >> elim (find_where (open_link now body.digest) db.magic_links) [
      | none ↦ err (invalid_token wait)
      | some l ↦
          raise_if (not (same_browser body.presented l) && not body.confirm) 409 "confirm_required"
          >> ok l
    ]

-- The fresh values of a sign-in: the ids of a new user and of the session, and the CSRF token.
pub record FreshSession : Type 0 where
  pub user_id : ℕ
  pub session_id : ℕ
  pub csrf_token : ℕ

pub record SessionOut : Type 0 where
  pub user : User
  pub orgs : List (Membership × Org)
  pub csrf_token : ℕ
  pub expires_at : ℕ

-- `member.added`, for each membership that an invitation gave.
unfoldable pub record_added : ℕ → ℕ → List (ℕ × Role) → List AuditEvent → List AuditEvent
unfolding record_event
record_added now user_id [] trail = trail
record_added now user_id ((org, role) ∷ added) trail =
    record_added now user_id added
      (record_event now (some org) (by_user (some user_id)) member_added (some user_id) 0 trail)

-- The organization of a new session: that of the oldest membership.
unfoldable pub first_org : List (Membership × Org) → Option ℕ
first_org [] = none
first_org ((m, o) ∷ rows) = some o.id

unfoldable pub new_session :
    SignInSettings → ℕ → FreshSession → ℕ → List (Membership × Org) → Session
unfolding first_org
new_session settings now fresh user_id rows = record {
  id = fresh.session_id;
  user_id = user_id;
  org_id = first_org rows;
  csrf_token = fresh.csrf_token;
  expires_at = now + settings.session_ttl;
}

-- The rest of the transaction, for the e-mail of the link that was used up.
unfoldable pub start_session :
    SignInSettings → ℕ → FreshSession → ℕ → SignInDb → SessionOut × SignInDb
unfolding get_or_create_user accept_pending_invitations memberships_of new_session record_added
    record_event
start_session settings now fresh email db =
    let ((user, _), users) = get_or_create_user fresh.user_id email db.members.users in
    let (joined, added) =
      accept_pending_invitations now user (record (db.members) { users = users }) in
    let rows = memberships_of user.id db.orgs joined.memberships in
    let session = new_session settings now fresh user.id rows in
    (
      record {
        user = user;
        orgs = rows;
        csrf_token = session.csrf_token;
        expires_at = session.expires_at;
      },
      record db {
        members = record joined {
          sessions = joined.sessions ++ (session ∷ []);
          audit_events =
              record_event now session.org_id (by_user (some user.id)) auth_login none 0
                (record_added now user.id added joined.audit_events);
        };
      },
    )

-- The write of `verify_magic_link`: the link is used up by one UPDATE, or the request is refused.
unfoldable pub use_link :
    SignInSettings → ℕ → ℕ → FreshSession → ℕ → SignInDb → Result SessionOut × SignInDb
unfolding as_used start_session invalid_token
use_link settings wait now fresh digest db =
    if count_where (open_link now digest) db.magic_links == 1
    then elim (find_where (link_at digest) db.magic_links) [
      | none ↦ (err (invalid_token wait), db)
      | some l ↦
          let (out, after) = start_session settings now fresh l.email (record db {
            magic_links = update_where (open_link now digest) (as_used now) db.magic_links;
          }) in
          (ok out, after)
    ]
    else (err (invalid_token wait), db)

-- `verify_magic_link`, where no other write comes between its reading and its write.
unfoldable pub verify_magic_link :
    SignInSettings
    → ℕ
    → ℕ
    → FreshSession
    → MagicLinkConfirm
    → SignInDb
    → Result SessionOut × SignInDb
unfolding check_link use_link
verify_magic_link settings wait now fresh body db = elim (check_link settings wait now body db) [
  | err p ↦ (err p, db)
  | ok l ↦ use_link settings wait now fresh body.digest db
]

-- `logout`, of a request that was authenticated by a session.
unfoldable pub logout : ℕ → Session → SignInDb → SignInDb
unfolding record_event
logout now session db = record db {
  members = record (db.members) {
    sessions = delete_where (λ (s : Session). s.id == session.id) db.members.sessions;
    audit_events =
        record_event now session.org_id (by_user (some session.user_id)) auth_logout none 0
          db.members.audit_events;
  };
}

-- `me` of a signed-in user: invitations that came since are accepted. Where none gave a membership
-- there is no commit.
unfoldable pub me : ℕ → User → SignInDb → List (Membership × Org) × SignInDb
unfolding accept_pending_invitations memberships_of record_added
me now user db =
    let (joined, added) = accept_pending_invitations now user db.members in
    (
      memberships_of user.id db.orgs joined.memberships,
      elim added [
        | [] ↦ db
        | x ∷ xs ↦ record db {
          members = record joined {
            audit_events = record_added now user.id (x ∷ xs) joined.audit_events;
          };
        }
      ],
    )
