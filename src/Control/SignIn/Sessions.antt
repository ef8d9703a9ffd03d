-- ===== src/Control/SignIn/Sessions.antt =====
-- From a sign-in of app/api/v1/auth.py to the requests of its session, authenticated by
-- app/api/v1/deps.py, and to its end.
use daas_engine.Base.{
  ==_refl, ==→eq, Bool, Bool-cases, List, Option-cases, [], ap, arith, count_where, false,
  find_where, inl, inr, leb, none, refl, some, sym, update_where, ℕ, ◌&&◌, ◌+◌, ◌<◌, ◌==◌, ◌∙◌, ◌∷◌,
  ◌≡◌,
}
use daas_engine.Base.Tables.Laws.{
  count_where-append, count_where-delete_self, count_where-found, count_where_mono,
  find_where-append, find_where-count, find_where-meets, find_where-none,
}
use daas_engine.Control.Access.{user}
use daas_engine.Control.Authentication.{
  AuthDb, Request, authenticate_session, csrf_ok, unauthorized,
}
use daas_engine.Control.Directory.{get_or_create_user, new_user}
use daas_engine.Control.Members.Guarded.{owns}
use daas_engine.Control.Members.Invitations.{accept_pending_invitations}
use daas_engine.Control.Problem.{ok}
use daas_engine.Control.Records.{MagicLink, Session, User}
use daas_engine.Control.SignIn.{
  FreshSession, SessionOut, SignInDb, SignInSettings, as_used, link_at, logout, new_session,
  open_link, start_session, use_link,
}

-- The tables that authentication reads.
abbrev pub auth_tables : SignInDb → AuthDb
auth_tables db = record {
  api_keys = db.members.api_keys;
  sessions = db.members.sessions;
  users = db.members.users;
  audit_events = db.members.audit_events;
}

abbrev pub session_at : ℕ → Session → Bool
session_at id s = s.id == id

abbrev user_at : ℕ → User → Bool
user_at id u = u.id == id

find_where-some :
    {A : Type 0} (k : A → Bool) (xs : List A)
    → 0 < count_where k xs
    → ((a : A) × (find_where k xs ≡ some a))
find_where-some k xs h = elim (Option-cases (find_where k xs)) [
  | inl e ↦ absurd (omega (arith, h, find_where-none k xs e))
  | inr r ↦ r
]

get_or_create_user-found :
    (new_id email : ℕ) (users : List User)
    → ((get_or_create_user new_id email users).0.0.email ≡ email)
      × (0
          < count_where
              (user_at (get_or_create_user new_id email users).0.0.id)
              (get_or_create_user new_id email users).1)
unfolding get_or_create_user new_user count_where
get_or_create_user-found new_id email users =
    elim (Option-cases (find_where (λ (u : User). u.email == email) users)) [
      | inl e ↦
          rw (e, get_or_create_user)
            (
              refl,
              ground (
                arith,
                ==_refl new_id,
                count_where-append (user_at new_id) users (new_user new_id email ∷ []),
              ),
            )
      | inr (u, e) ↦
          rw (e, get_or_create_user)
            (
              ==→eq u.email email (find_where-meets (λ (v : User). v.email == email) users u e),
              omega (
                arith,
                count_where-found (user_at u.id) (λ (v : User). v.email == email) users u e
                    (==_refl u.id),
                count_where_mono (λ (v : User). user_at u.id v && v.email == email) (user_at u.id)
                    users (λ v. ground arith),
              ),
            )
    ]

-- The session that a sign-in starts, its user, and the e-mail of the user.
start_session-found :
    (settings : SignInSettings) (now : ℕ) (fresh : FreshSession) (email : ℕ) (db : SignInDb)
    → find_where (session_at fresh.session_id) db.members.sessions ≡ none
    → ((row : Session) × (find_where
            (session_at fresh.session_id)
            (start_session settings now fresh email db).1.members.sessions
          ≡ some row)
        × (row.user_id ≡ (start_session settings now fresh email db).0.user.id)
        × (row.csrf_token ≡ (start_session settings now fresh email db).0.csrf_token)
        × (row.expires_at ≡ now + settings.session_ttl)
        × (0
            < count_where
                (user_at (start_session settings now fresh email db).0.user.id)
                (start_session settings now fresh email db).1.members.users)
        × ((start_session settings now fresh email db).0.user.email ≡ email))
unfolding start_session new_session accept_pending_invitations
start_session-found settings now fresh email db new =
    let (mail, there) = get_or_create_user-found fresh.user_id email db.members.users in
    (
      new_session settings now fresh (start_session settings now fresh email db).0.user.id
          (start_session settings now fresh email db).0.orgs,
      find_where-append (session_at fresh.session_id) db.members.sessions _ new
          (==_refl fresh.session_id),
      refl,
      refl,
      refl,
      there,
      mail,
    )

leb-live : (at expires : ℕ) → at < expires → leb expires at ≡ false
leb-live at expires h = ground (arith, h)

-- Authentication by the session that a table has.
authenticate_session-row :
    (at wait id : ℕ) (r : Request) (db : AuthDb) (s : Session)
    → find_where (session_at id) db.sessions ≡ some s
    → at < s.expires_at
    → 0 < count_where (user_at s.user_id) db.users
    → r.csrf_header ≡ some s.csrf_token
    → r.csrf_cookie ≡ some s.csrf_token
    → authenticate_session at wait r (some id) db ≡ ok (user s.user_id)
unfolding authenticate_session csrf_ok
authenticate_session-row at wait id r db s e soon there header cookie =
    let (u, f) = find_where-some (user_at s.user_id) db.users there in
    let same = ==→eq u.id s.user_id (find_where-meets (user_at s.user_id) db.users u f) in
    rw (authenticate_session, e, leb-live at s.expires_at soon, f)
      (rw (header, cookie) (rw (==_refl s.csrf_token) (ground (arith, same))))

authenticate_session-none :
    (at wait id : ℕ) (r : Request) (db : AuthDb)
    → count_where (session_at id) db.sessions ≡ 0
    → authenticate_session at wait r (some id) db ≡ unauthorized wait
unfolding authenticate_session
authenticate_session-none at wait id r db e =
    elim (Option-cases (find_where (session_at id) db.sessions)) [
      | inl f ↦ rw (authenticate_session, f) refl
      | inr (s, f) ↦ absurd (omega (arith, e, find_where-count (session_at id) db.sessions s f))
    ]

used_up : ℕ → ℕ → SignInDb → SignInDb
unfolding as_used
used_up now digest db = record db {
  magic_links = update_where (open_link now digest) (as_used now) db.magic_links;
}

use_link-starts :
    (settings : SignInSettings) (wait now : ℕ) (fresh : FreshSession) (digest : ℕ) (db : SignInDb)
    (out : SessionOut)
    → (use_link settings wait now fresh digest db).0 ≡ ok out
    → ((l : MagicLink) × (find_where (link_at digest) db.magic_links ≡ some l)
        × (out ≡ (start_session settings now fresh l.email (used_up now digest db)).0)
        × ((use_link settings wait now fresh digest db).1
            ≡ (start_session settings now fresh l.email (used_up now digest db)).1))
unfolding use_link used_up
use_link-starts settings wait now fresh digest db out e =
    elim (Bool-cases (count_where (open_link now digest) db.magic_links == 1)) [
      | inr b ↦ absurd (ground (arith, b, e))
      | inl b ↦ elim (Option-cases (find_where (link_at digest) db.magic_links)) [
        | inl c ↦ absurd (ground (arith, b, c, e))
        | inr (l, c) ↦ (l, c, ground (arith, b, c, e), rw (b, c, use_link) refl)
      ]
    ]

logged_out :
    (at2 at3 wait2 id : ℕ) (r2 : Request) (row : Session) (db : SignInDb)
    → row.id ≡ id
    → authenticate_session at3 wait2 r2 (some id) (auth_tables (logout at2 row db))
      ≡ unauthorized wait2
unfolding logout
logged_out at2 at3 wait2 id r2 row db same =
    authenticate_session-none at3 wait2 id r2 _
      (rw same (count_where-delete_self (session_at id) db.members.sessions))

-- A sign-in starts a session, under an id that is new, that works and that ends. Until it expires a
-- request with its cookie and its CSRF token is the user of the sign-in, whose e-mail is that of the
-- link; after its logout, at any time, the cookie is refused.
pub use_link-session :
    (settings : SignInSettings) (wait now : ℕ) (fresh : FreshSession) (digest : ℕ) (db : SignInDb)
    (out : SessionOut) (at at2 at3 wait2 : ℕ) (r r2 : Request)
    → find_where (session_at fresh.session_id) db.members.sessions ≡ none
    → (use_link settings wait now fresh digest db).0 ≡ ok out
    → at < now + settings.session_ttl
    → r.csrf_header ≡ some out.csrf_token
    → r.csrf_cookie ≡ some out.csrf_token
    → ((row : Session) × (l : MagicLink) × (find_where (link_at digest) db.magic_links ≡ some l)
        × (out.user.email ≡ l.email)
        × (authenticate_session at wait2 r
              (some fresh.session_id)
              (auth_tables (use_link settings wait now fresh digest db).1)
            ≡ ok (user out.user.id))
        × (find_where
              (session_at fresh.session_id)
              (use_link settings wait now fresh digest db).1.members.sessions
            ≡ some row)
        × (authenticate_session at3 wait2 r2
              (some fresh.session_id)
              (auth_tables (logout at2 row (use_link settings wait now fresh digest db).1))
            ≡ unauthorized wait2))
unfolding used_up
use_link-session settings wait now fresh digest db out at at2 at3 wait2 r r2 new e soon header
      cookie =
    let (l, c, answered, after) = use_link-starts settings wait now fresh digest db out e in
    let (row, f, owns, token, ends, there, mail) =
      start_session-found settings now fresh l.email (used_up now digest db) new in
    let secret = ap (λ (o : SessionOut). some o.csrf_token) answered ∙ ap some (sym token) in
    let login =
      authenticate_session-row at wait2 fresh.session_id r
        (auth_tables (start_session settings now fresh l.email (used_up now digest db)).1) row f
        (rw ends soon) (rw owns there) (header ∙ secret) (cookie ∙ secret) in
    rw (answered, after)
      (
        row,
        l,
        c,
        mail,
        login ∙ ap (λ i. ok (user i)) owns,
        f,
        logged_out at2 at3 wait2 fresh.session_id r2 row _ (
            ==→eq row.id fresh.session_id (find_where-meets (session_at fresh.session_id) _ row f)),
      )
