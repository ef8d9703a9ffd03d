-- ===== src/Tests/Webhooks.antt =====
-- The theorems on webhooks, on one receiver with a public address.
use daas_engine.Base.{
  List, Option, [], arith, codes, count_where, false, length, none, refl, some, suc, true, zero, ℕ,
  ◌+◌, ◌-◌, ◌<◌, ◌∷◌, ◌≡◌, ◌≤◌,
}
use daas_engine.Control.Records.{Webhook, run_finished_event}
use daas_engine.Control.Webhooks.{
  Ip, IpFlags, Network, Resolver, UrlParts, before_percent, check_parts, ends_with, has_blank,
  has_byte, http_scheme, https_required, https_scheme, ipv4, is_blocked_name, is_inner_host,
  is_public, is_public_ip, is_routable, same_text, starts_with, unsafe, validate_url,
}
use daas_engine.Control.Webhooks.Delivery.{
  DeliverySettings, deliver, gave_up, is_permanent, is_success, signing_secret,
}
use daas_engine.Control.Webhooks.Limits.{
  HookReach-IsWithin, IsWithin, hook_created, next_request, no_request,
}
use daas_engine.Control.Webhooks.Posting.{
  Reply, Target, all_public, checked_addresses, first_of, pinned_targets, pinned_to, post_each,
  post_json, resolve_public, status_of, targets_of,
}
use daas_engine.Control.Webhooks.Retries.{deliver-counts, deliver-refused, deliver-succeeds}
use daas_engine.Control.Webhooks.Routes.{WebhooksDb, create_webhook}
use daas_engine.Control.Webhooks.Safety.{AllSafe, deliver-AllSafe}
use daas_engine.Tests.{by_owner}

abbrev no_flags : IpFlags
no_flags = record {
  is_unspecified = false;
  is_loopback = false;
  is_link_local = false;
  is_multicast = false;
  is_reserved = false;
  is_private = false;
  is_global = true;
}

-- Each text of one byte is an address; each name has the address 9.
abbrev parse_ip : List ℕ → Option Ip
parse_ip [] = none
parse_ip (c ∷ []) = some (ipv4 c)
parse_ip (c ∷ (d ∷ cs)) = none

abbrev net : Network
net = record { ip_address = parse_ip; flags = λ ip. no_flags }

-- Each asking of each attempt has its own answer.
abbrev names : ℕ → Resolver
names attempt asking host port = some (((9 + attempt + asking) ∷ []) ∷ [])

abbrev derive : ℕ → ℕ → ℕ
derive id master = id + master

abbrev cloud : DeliverySettings
cloud = record {
  maintenance_mode = false;
  is_dev = false;
  secret_key = some 100;
  backoff = 1000 ∷ (5000 ∷ []);
}

abbrev hook : Webhook
hook = record {
  id = 1;
  org_id = 1;
  url = codes "https://a.example/x";
  secret_hash = 101;
  events = run_finished_event ∷ [];
  active = true;
  created_at = 0;
}

abbrev parts : UrlParts
parts = record {
  scheme = https_scheme;
  raw_host = codes "a.example.";
  host = codes "a.example";
  port = none;
  has_username = false;
  has_password = false;
  fragment = [];
}

-- The first attempt is not taken, the next one is.
abbrev receiver : ℕ → Target → Reply
receiver zero t = status_of 500
receiver (suc i) t = status_of 200

deliver-AllSafe_example :
    AllSafe net (some parts) (deliver net names derive cloud receiver (some parts) hook 3).contacted
deliver-AllSafe_example = deliver-AllSafe net names derive cloud receiver (some parts) hook 3 refl

deliver-counts_example :
    ((deliver net names derive cloud receiver (some parts) hook 3).result.attempts ≤ 3)
    × (length (deliver net names derive cloud receiver (some parts) hook 3).waits ≤ 3 - 1)
    × ((deliver net names derive cloud receiver (some parts) hook 3).result.delivered
        ≡ is_success
            (deliver net names derive cloud receiver (some parts) hook 3).result.status_code)
deliver-counts_example = deliver-counts net names derive cloud receiver (some parts) hook 3

signs : signing_secret derive (some 100) hook ≡ some 101
unfolding signing_secret
signs = refl

second_is_taken :
    is_success (post_json net (names 1) false (receiver 1) hook.url (some parts)).status ≡ true
unfolding is_success post_json targets_of validate_url check_parts has_blank has_byte is_inner_host
    is_blocked_name same_text ends_with starts_with resolve_public checked_addresses all_public
    is_public_ip before_percent is_public is_routable pinned_targets pinned_to first_of post_each
second_is_taken = refl

not_permanent :
    (j : ℕ)
    → j < 1
    → is_permanent (post_json net (names j) false (receiver j) hook.url (some parts)).error ≡ false
unfolding is_permanent post_json targets_of validate_url check_parts has_blank has_byte
    is_inner_host is_blocked_name same_text ends_with starts_with resolve_public checked_addresses
    all_public is_public_ip before_percent is_public is_routable pinned_targets pinned_to first_of
    post_each
not_permanent zero lt = refl
not_permanent (suc j) lt = absurd (omega (arith, lt))

deliver-succeeds_example :
    (deliver net names derive cloud receiver (some parts) hook 3).result.delivered ≡ true
deliver-succeeds_example =
    deliver-succeeds net names derive cloud receiver (some parts) hook 3 101 1 refl signs
      (omega arith) second_is_taken not_permanent

abbrev plain_parts : UrlParts
plain_parts = record parts { scheme = http_scheme }

plain_is_refused :
    targets_of net (names 0) false hook.url (some plain_parts) ≡ unsafe https_required
unfolding targets_of validate_url check_parts has_blank has_byte
plain_is_refused = refl

deliver-refused_example :
    deliver net names derive cloud receiver (some plain_parts) hook (suc 2)
    ≡ gave_up 1 (record { status = none; error = some https_required; contacted = [] })
deliver-refused_example =
    deliver-refused net names derive cloud receiver (some plain_parts) hook 2 101 https_required
      refl signs plain_is_refused

abbrev no_hooks : WebhooksDb
no_hooks = record { webhooks = []; audit_events = [] }

nothing-IsWithin : IsWithin no_hooks.webhooks
unfolding count_where
nothing-IsWithin = record { few = λ o. omega arith; unique = λ o u. omega arith }

abbrev with_hook : WebhooksDb
with_hook =
    (create_webhook net derive false (some 100) 5 1 by_owner (codes "https://a.example/x")
      (some parts) (run_finished_event ∷ []) no_hooks).1

HookReach-IsWithin_example : IsWithin with_hook.webhooks
HookReach-IsWithin_example =
    HookReach-IsWithin no_hooks with_hook
      (next_request no_request (
        hook_created net derive false (some 100) 5 1 by_owner (codes "https://a.example/x")
          (some parts) (run_finished_event ∷ [])))
      nothing-IsWithin
