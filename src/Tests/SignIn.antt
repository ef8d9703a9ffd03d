-- ===== src/Tests/SignIn.antt =====
-- The theorems on signing in, on one link; and on identifiers.
use daas_engine.Base.{
  [], arith, count_where, false, find_where, none, refl, select_where, some, true, ◌<◌, ◌∷◌, ◌≡◌,
}
use daas_engine.Control.Access.{user}
use daas_engine.Control.Authentication.{Request, authenticate_session, unauthorized}
use daas_engine.Control.Directory.{get_or_create_user, joined_rows, memberships_of, new_user}
use daas_engine.Control.Ids.{Clock, UlidCall, new_ulid, run_calls, ticked}
use daas_engine.Control.Ids.Order.{pow32, text_lt}
use daas_engine.Control.Ids.Runs.{new_ulid-ascends}
use daas_engine.Control.Members.Invitations.{accept_pending_invitations, join_all}
use daas_engine.Control.Members.Routes.{MembersDb}
use daas_engine.Control.Problem.{err, ok, problem}
use daas_engine.Control.Records.{MagicLink, Session}
use daas_engine.Control.SignIn.{
  FreshSession, MagicLinkConfirm, SessionOut, SignInDb, SignInSettings, check_link, invalid_token,
  link_at, logout, new_session, same_browser, start_session, use_link, verify_magic_link,
}
use daas_engine.Control.SignIn.Links.{use_link-once, verify_magic_link-refused}
use daas_engine.Control.SignIn.Sessions.{auth_tables, session_at, use_link-session}

abbrev cloud : SignInSettings
cloud = record {
  maintenance_mode = false;
  has_secret_key = true;
  magic_link_ttl = 900;
  session_ttl = 3600;
}

abbrev the_link : MagicLink
the_link = record {
  token_hash = 700;
  email = 5;
  created_at = 0;
  expires_at = 900;
  used_at = none;
  nonce_hash = some 40;
}

abbrev accounts : MembersDb
accounts = record {
  users = [];
  memberships = [];
  sessions = [];
  api_keys = [];
  invitations = [];
  audit_events = [];
}

abbrev before_sign_in : SignInDb
before_sign_in = record { magic_links = the_link ∷ []; orgs = []; members = accounts }

abbrev new_ids : FreshSession
new_ids = record { user_id = 20; session_id = 80; csrf_token = 90 }

abbrev signed_in : SessionOut
signed_in = record { user = new_user 20 5; orgs = []; csrf_token = 90; expires_at = 3610 }

signs_in : (use_link cloud 0 10 new_ids 700 before_sign_in).0 ≡ ok signed_in
unfolding use_link start_session count_where find_where get_or_create_user
    accept_pending_invitations join_all memberships_of joined_rows select_where new_session new_user
signs_in = refl

use_link-once_example :
    use_link cloud 0 20 new_ids 700 (use_link cloud 0 10 new_ids 700 before_sign_in).1
    ≡ (err (invalid_token 0), (use_link cloud 0 10 new_ids 700 before_sign_in).1)
use_link-once_example =
    use_link-once cloud 0 0 10 20 new_ids new_ids 700 before_sign_in signed_in (omega arith)
      signs_in

-- Another browser, and no consent.
abbrev elsewhere : MagicLinkConfirm
elsewhere = record { digest = 700; presented = some 41; confirm = false }

not_confirmed :
    (verify_magic_link cloud 0 10 new_ids elsewhere before_sign_in).0
    ≡ err (problem 409 "confirm_required")
unfolding verify_magic_link check_link find_where same_browser
not_confirmed = refl

verify_magic_link-refused_example :
    (verify_magic_link cloud 0 10 new_ids elsewhere before_sign_in).1 ≡ before_sign_in
verify_magic_link-refused_example =
    verify_magic_link-refused cloud 0 10 new_ids elsewhere before_sign_in
      (problem 409 "confirm_required") not_confirmed

abbrev with_session : Request
with_session = record {
  is_safe_method = false;
  presented = none;
  cookie = some (some 80);
  csrf_header = some 90;
  csrf_cookie = some 90;
  client_ip = 1;
}

no_session : find_where (session_at 80) before_sign_in.members.sessions ≡ none
unfolding find_where
no_session = refl

use_link-session_example :
    ((row : Session) × (l : MagicLink) × (find_where (link_at 700) before_sign_in.magic_links
        ≡ some l)
      × (signed_in.user.email ≡ l.email)
      × (authenticate_session 100 0 with_session
            (some new_ids.session_id)
            (auth_tables (use_link cloud 0 10 new_ids 700 before_sign_in).1)
          ≡ ok (user signed_in.user.id))
      × (find_where
            (session_at new_ids.session_id)
            (use_link cloud 0 10 new_ids 700 before_sign_in).1.members.sessions
          ≡ some row)
      × (authenticate_session 300 0 with_session
            (some new_ids.session_id)
            (auth_tables (logout 200 row (use_link cloud 0 10 new_ids 700 before_sign_in).1))
          ≡ unauthorized 0))
use_link-session_example =
    use_link-session cloud 0 10 new_ids 700 before_sign_in signed_in 100 200 300 0 with_session
      with_session no_session signs_in (omega arith) refl refl

abbrev first_call : UlidCall
first_call = record { now_ms = 1000; bits79 = 7; bits80 = 8 }

-- The clock went back.
abbrev second_call : UlidCall
second_call = record { now_ms = 900; bits79 = 3; bits80 = 4 }

abbrev no_clock : Clock
no_clock = record { last_ms = none; last_rand = 0 }

in_time : (ticked second_call (run_calls [] (new_ulid first_call no_clock).1)).0 < pow32 10
unfolding run_calls new_ulid ticked
in_time = omega arith

new_ulid-ascends_example :
    text_lt
      (new_ulid first_call no_clock).0
      (new_ulid second_call (run_calls ([]) (new_ulid first_call no_clock).1)).0
    ≡ true
new_ulid-ascends_example =
    new_ulid-ascends first_call second_call ([]) no_clock (omega arith) (omega arith) in_time
