-- ===== src/OAuth/Clients.antt =====
-- The clients of app/control/oauth.py: registration and its rules, the request for a code, access
-- tokens as the resource server loads them, and the removal of old rows.
use daas_engine.Base.{
  Bool, List, Option, String, [], delete_where, exists_where, false, find_where, if◌then◌else◌, inl,
  inr, is_none, is_some, leb, length, ltb, none, not, opt_eq, some, true, ℕ, ◌&&◌, ◌++◌, ◌+◌, ◌==◌,
  ◌||◌, ◌∷◌, ◌⊎◌,
}
use daas_engine.Control.Audit.{record_event}
use daas_engine.Control.Records.{
  OAuthClient, OAuthCode, OAuthGrant, OAuthToken, by_system, oauth_client_registered, pending,
}
use daas_engine.Control.Scopes.{
  Scope, key_scopes, only_in, reports_read, runs_read, subset, usage_read,
}
use daas_engine.OAuth.{OAuthDb, Presented, is_access, is_refresh, of_grant}
use daas_engine.OAuth.Principals.{live_access}
use daas_engine.OAuth.Refresh.{dedupe, is_expired}

-- `ProviderError`: the codes of `RegistrationError` and `AuthorizeError`.
pub data Refusal : Type 0 where
  invalid_client_metadata invalid_redirect_uri unsupported_scope invalid_request : Refusal

pub data AuthMethod : Type 0 where
  no_secret client_secret_post client_secret_basic other_method : AuthMethod

-- `scheme`, and for `http` whether the host is a loopback one.
pub data Scheme : Type 0 where
  https http_loopback http other_scheme : Scheme

pub record RedirectUri : Type 0 where
  pub size : ℕ
  pub has_fragment : Bool
  pub has_credentials : Bool
  pub scheme : Scheme
  pub has_host : Bool

-- What the rules read of the metadata: `info_size` is the size of the JSON, the two flags say that
-- the grant types and the response types are among the allowed ones.
pub record ClientInfo : Type 0 where
  pub client_id : ℕ
  pub client_name : Option String
  pub name_size : ℕ
  pub auth_method : AuthMethod
  pub grants_allowed : Bool
  pub responses_allowed : Bool
  pub redirect_uris : List RedirectUri
  pub info_size : ℕ

abbrev pub is_known : AuthMethod → Bool
is_known other_method = false
is_known _ = true

-- The last two tests of `_check_redirect_uri`.
unfoldable pub good_scheme : Bool → RedirectUri → Bool
good_scheme dev u = elim u.scheme [
  | https ↦ u.has_host
  | http_loopback ↦ dev
  | http ↦ false
  | other_scheme ↦ false
]

-- `_check_redirect_uri`.
unfoldable pub good_uri : Bool → RedirectUri → Bool
unfolding good_scheme
good_uri dev u = leb u.size 512 && not u.has_fragment && not u.has_credentials && good_scheme dev u

unfoldable pub all_good : Bool → List RedirectUri → Bool
unfolding good_uri
all_good dev [] = true
all_good dev (u ∷ us) = good_uri dev u && all_good dev us

-- `_check_registration`: the first rule that fails, or none.
unfoldable pub check_registration : Bool → ClientInfo → Option Refusal
unfolding all_good
check_registration dev info =
    if not (is_known info.auth_method)
      || not info.grants_allowed
      || not info.responses_allowed
      || ltb 200 info.name_size
    then some invalid_client_metadata
    else if length info.redirect_uris == 0
        || ltb 10 (length info.redirect_uris)
        || not (all_good dev info.redirect_uris)
    then some invalid_redirect_uri
    else none

unfoldable pub new_client : ℕ → ClientInfo → OAuthClient
new_client now info = record {
  client_id = info.client_id;
  client_name = info.client_name;
  created_at = now;
  expires_at = none;
  revoked_at = none;
}

-- `register_client`, with an event that belongs to no organization.
unfoldable pub register_client : Bool → ℕ → ClientInfo → OAuthDb → Option Refusal × OAuthDb
unfolding check_registration new_client record_event
register_client dev now info db = elim (check_registration dev info) [
  | some r ↦ (some r, db)
  | none ↦ if ltb 16384 info.info_size then (some invalid_client_metadata, db) else (
    none,
    record db {
      clients = db.clients ++ (new_client now info ∷ []);
      audit_events =
          record_event now none by_system oauth_client_registered (some info.client_id) 0
            db.audit_events;
    },
  )
]

-- `get_client`, less the validation of the stored metadata.
unfoldable pub get_client : ℕ → ℕ → List OAuthClient → Option OAuthClient
get_client now client_id clients =
    elim (find_where (λ (c : OAuthClient). c.client_id == client_id) clients) [
      | none ↦ none
      | some c ↦
          if is_some c.revoked_at || elim c.expires_at [ none ↦ false | some e ↦ leb e now ]
          then none
          else some c
    ]

-- The parameters of `authorize`; `is_pkce` says that `code_challenge` is an S256 challenge, and
-- `text_size` is the longest of the three texts.
pub record AuthorizationParams : Type 0 where
  pub scopes : List Scope
  pub code_challenge : String
  pub is_pkce : Bool
  pub redirect_uri : String
  pub redirect_uri_provided_explicitly : Bool
  pub state : Option String
  pub resource : Option String
  pub text_size : ℕ

-- `DEFAULT_SCOPES`.
abbrev pub default_scopes : List Scope
default_scopes = runs_read ∷ (reports_read ∷ (usage_read ∷ []))

-- `_default_scopes` of the scopes that the client registered.
unfoldable pub scopes_or_default : List Scope → List Scope
unfolding dedupe only_in
scopes_or_default registered = elim (dedupe (only_in key_scopes registered)) [
  | [] ↦ default_scopes
  | s ∷ ss ↦ s ∷ ss
]

unfoldable pub asked_scopes : List Scope → AuthorizationParams → List Scope
unfolding scopes_or_default dedupe
asked_scopes registered params = elim params.scopes [
  | [] ↦ scopes_or_default registered
  | s ∷ ss ↦ dedupe (s ∷ ss)
]

unfoldable pub pending_code : ℕ → ℕ → ℕ → ℕ → List Scope → AuthorizationParams → OAuthCode
pending_code now ttl id client scopes params = record {
  id = id;
  client_id = client;
  org_id = none;
  user_id = none;
  code_hash = none;
  scopes = scopes;
  code_challenge = params.code_challenge;
  redirect_uri = params.redirect_uri;
  redirect_uri_provided_explicitly = params.redirect_uri_provided_explicitly;
  state = params.state;
  resource = params.resource;
  status = pending;
  created_at = now;
  expires_at = now + ttl;
  exchanged_at = none;
}

-- `authorize`: the id of the request.
unfoldable pub authorize :
    ℕ → ℕ → ℕ → ℕ → List Scope → AuthorizationParams → OAuthDb → (Refusal ⊎ ℕ) × OAuthDb
unfolding asked_scopes pending_code subset
authorize now ttl id client registered params db =
    if not (subset (asked_scopes registered params) key_scopes)
    then (inl unsupported_scope, db)
    else if not params.is_pkce || ltb 512 params.text_size
    then (inl invalid_request, db)
    else (
      inr id,
      record db {
        codes =
            db.codes
            ++ (pending_code now ttl id client (asked_scopes registered params) params ∷ []);
      },
    )

-- `_active_token` of an access token, which is what `load_access_token` gives.
unfoldable pub load_access_token : ℕ → Presented → OAuthDb → Option OAuthToken
unfolding live_access is_expired
load_access_token now presented db =
    if not presented.is_shaped
    then none
    else elim (find_where
        (λ (t : OAuthToken).
          live_access presented.hash t
          && exists_where (λ (g : OAuthGrant). opt_eq t.grant_id g.id && is_none g.revoked_at)
              db.grants)
        db.tokens) [ none ↦ none | some t ↦ if is_expired now t then none else some t ]

-- The retention times, in seconds.
abbrev pub code_retention : ℕ
code_retention = 86400

abbrev pub token_retention : ℕ
token_retention = 2592000

abbrev pub client_retention : ℕ
client_retention = 86400

-- `column <= cutoff` and `column < cutoff`, false on NULL; the cutoff is `now` less the retention.
abbrev pub until : ℕ → ℕ → Option ℕ → Bool
until now retention none = false
until now retention (some t) = leb (t + retention) now

abbrev pub before : ℕ → ℕ → Option ℕ → Bool
before now retention none = false
before now retention (some t) = ltb (t + retention) now

-- `recent_refresh`: a refresh token of the grant that is not expired for the whole retention.
unfoldable pub is_recent : ℕ → ℕ → OAuthToken → Bool
is_recent now grant t =
    of_grant grant t && is_refresh t.kind && not (until now token_retention t.expires_at)

-- `old_grants`.
unfoldable pub is_old : ℕ → List OAuthToken → OAuthGrant → Bool
unfolding is_recent
is_old now tokens g =
    until now token_retention g.revoked_at || not (exists_where (is_recent now g.id) tokens)

-- The condition of the DELETE of tokens.
unfoldable pub is_outdated : ℕ → List OAuthGrant → List OAuthToken → OAuthToken → Bool
unfolding is_old
is_outdated now grants tokens t =
    (is_access t.kind && before now token_retention t.expires_at)
    || (is_refresh t.kind
        && exists_where (λ (g : OAuthGrant). opt_eq t.grant_id g.id && is_old now tokens g) grants)
    || (is_none t.grant_id
        && (until now token_retention t.revoked_at
            || (is_refresh t.kind && until now token_retention t.expires_at)))

-- The tokens that `purge_expired` leaves.
unfoldable pub tokens_left : ℕ → OAuthDb → List OAuthToken
unfolding is_outdated
tokens_left now db = delete_where (is_outdated now db.grants db.tokens) db.tokens

unfoldable pub codes_left : ℕ → List OAuthCode → List OAuthCode
codes_left now codes =
    delete_where (λ (c : OAuthCode). ltb (c.expires_at + code_retention) now) codes

unfoldable pub grants_left : List OAuthToken → List OAuthGrant → List OAuthGrant
grants_left tokens grants =
    delete_where (λ (g : OAuthGrant). not (exists_where (of_grant g.id) tokens)) grants

unfoldable pub clients_left :
    ℕ → List OAuthCode → List OAuthToken → List OAuthGrant → List OAuthClient → List OAuthClient
clients_left now codes tokens grants clients =
    delete_where
      (λ (c : OAuthClient).
        ltb (c.created_at + client_retention) now
        && not (exists_where (λ (x : OAuthCode). x.client_id == c.client_id) codes)
        && not (exists_where (λ (x : OAuthToken). x.client_id == c.client_id) tokens)
        && not (exists_where (λ (x : OAuthGrant). x.client_id == c.client_id) grants))
      clients

-- `purge_expired`: codes, then tokens, then the grants without tokens, then the clients without rows.
unfoldable pub purge_expired : ℕ → OAuthDb → OAuthDb
unfolding tokens_left codes_left grants_left clients_left
purge_expired now db = record db {
  codes = codes_left now db.codes;
  tokens = tokens_left now db;
  grants = grants_left (tokens_left now db) db.grants;
  clients =
      clients_left now (codes_left now db.codes) (tokens_left now db)
        (grants_left (tokens_left now db) db.grants) db.clients;
}
