-- ===== src/Control/Webhooks/Delivery.antt =====
-- `WebhookDispatcher` of app/control/webhooks.py: a delivery with its retries, the event of the audit
-- trail, and the deliveries of a finished run. Waits are in milliseconds.
use daas_engine.Base.{
  Bool, List, Option, [], false, if◌then◌else◌, leb, ltb, none, select_where, some, suc, true, zero,
  ℕ, ◌&&◌, ◌++◌, ◌+◌, ◌==◌, ◌||◌, ◌∷◌,
}
use daas_engine.Control.Audit.{record_event}
use daas_engine.Control.Records.{
  Actor, AuditEvent, EventName, Webhook, other_event, ping_event, run_finished_event,
  webhook_delivered, webhook_failed,
}
use daas_engine.Control.Webhooks.{
  Fault, Network, Resolver, UrlParts, credentials_in_url, dns_failed, http_status, https_required,
  in_maintenance, private_address, secret_unavailable, url_malformed,
}
use daas_engine.Control.Webhooks.Posting.{Posted, Reply, Target, post_json}

abbrev pub max_attempts_default : ℕ
max_attempts_default = 3

pub record DeliveryResult : Type 0 where
  pub delivered : Bool
  pub status_code : Option ℕ
  pub attempts : ℕ
  pub error_type : Option Fault

-- A delivery with the waits between its attempts and the hosts that it contacted.
pub record Delivery : Type 0 where
  pub result : DeliveryResult
  pub waits : List ℕ
  pub contacted : List (List ℕ)

-- `backoff[index]`, or the last one, or 0.
unfoldable pub backoff_at : List ℕ → ℕ → ℕ
backoff_at [] index = 0
backoff_at (b ∷ []) index = b
backoff_at (b ∷ (c ∷ bs)) zero = b
backoff_at (b ∷ (c ∷ bs)) (suc index) = backoff_at (c ∷ bs) index

-- The errors that a retry does not mend.
unfoldable pub is_permanent : Option Fault → Bool
is_permanent (some private_address) = true
is_permanent (some dns_failed) = true
is_permanent (some https_required) = true
is_permanent (some url_malformed) = true
is_permanent (some credentials_in_url) = true
is_permanent _ = false

unfoldable pub is_success : Option ℕ → Bool
is_success none = false
is_success (some n) = leb 200 n && ltb n 300

-- `error_type or "http_status"`.
unfoldable pub named_error : Option Fault → Fault
named_error none = http_status
named_error (some f) = f

unfoldable pub gave_up : ℕ → Posted → Delivery
unfolding named_error
gave_up attempt posted = record {
  result = record {
    delivered = false;
    status_code = posted.status;
    attempts = attempt;
    error_type = some (named_error posted.error);
  };
  waits = [];
  contacted = posted.contacted;
}

unfoldable pub succeeded_at : ℕ → Posted → Delivery
succeeded_at attempt posted = record {
  result = record {
    delivered = true;
    status_code = posted.status;
    attempts = attempt;
    error_type = none;
  };
  waits = [];
  contacted = posted.contacted;
}

-- What comes before the rest of a delivery: a failed attempt and a wait.
unfoldable pub after_wait : ℕ → Posted → Delivery → Delivery
after_wait wait posted d = record {
  result = d.result;
  waits = wait ∷ d.waits;
  contacted = posted.contacted ++ d.contacted;
}

-- The loop of `deliver` at the attempt number `index + 1`, which `left` attempts may follow; `posts`
-- gives the outcome of the attempt of each index.
unfoldable pub try_from : (ℕ → Posted) → List ℕ → ℕ → ℕ → Delivery
unfolding is_success is_permanent backoff_at gave_up succeeded_at after_wait
try_from posts backoff index zero =
    if is_success (posts index).status
    then succeeded_at (index + 1) (posts index)
    else gave_up (index + 1) (posts index)
try_from posts backoff index (suc left) =
    let rest = try_from posts backoff (index + 1) left in
    if is_success (posts index).status
    then succeeded_at (index + 1) (posts index)
    else if is_permanent (posts index).error
    then gave_up (index + 1) (posts index)
    else after_wait (backoff_at backoff index) (posts index) rest

unfoldable pub not_sent : Fault → Delivery
not_sent f = record {
  result = record { delivered = false; status_code = none; attempts = 0; error_type = some f };
  waits = [];
  contacted = [];
}

-- The loop of `deliver` over all its attempts; with none the answer is that of its initial values.
unfoldable pub try_all : (ℕ → Posted) → List ℕ → ℕ → Delivery
unfolding not_sent try_from
try_all posts backoff zero = not_sent http_status
try_all posts backoff (suc n) = try_from posts backoff 0 n

-- `signing_secret`: `derive` gives the hash of `webhook_signing_secret`, of the id of a webhook and of
-- the master key, which may be absent. The answer is the hash of the secret.
unfoldable pub signing_secret : (ℕ → ℕ → ℕ) → Option ℕ → Webhook → Option ℕ
signing_secret derive none hook = none
signing_secret derive (some master) hook =
    if derive hook.id master == hook.secret_hash then some (derive hook.id master) else none

-- The settings that a delivery reads.
pub record DeliverySettings : Type 0 where
  pub maintenance_mode : Bool
  pub is_dev : Bool
  pub secret_key : Option ℕ
  pub backoff : List ℕ

-- `deliver`; the resolver and the transport answer each attempt in their own way.
unfoldable pub deliver :
    Network
    → (ℕ → Resolver)
    → (ℕ → ℕ → ℕ)
    → DeliverySettings
    → (ℕ → Target → Reply)
    → Option UrlParts
    → Webhook
    → ℕ
    → Delivery
unfolding not_sent signing_secret try_all post_json
deliver net resolver derive settings transport split hook max_attempts =
    if settings.maintenance_mode
    then not_sent in_maintenance
    else elim (signing_secret derive settings.secret_key hook) [
      | none ↦ not_sent secret_unavailable
      | some s ↦
          try_all (λ i. post_json net (resolver i) settings.is_dev (transport i) hook.url split)
            settings.backoff max_attempts
    ]

unfoldable pub event_id : EventName → ℕ
event_id run_finished_event = 0
event_id ping_event = 1
event_id (other_event n) = n + 2

unfoldable pub wants : EventName → List EventName → Bool
unfolding event_id
wants e [] = false
wants e (x ∷ xs) = event_id e == event_id x || wants e xs

-- `on_run_finished`: the webhooks that a delivery is started for.
unfoldable pub on_run_finished : Bool → ℕ → List Webhook → List Webhook
unfolding wants
on_run_finished maintenance org_id hooks =
    if maintenance
    then []
    else select_where (λ (h : Webhook). wants run_finished_event h.events)
        (select_where (λ (h : Webhook). h.org_id == org_id && h.active) hooks)

-- `audit_result`.
unfoldable pub audit_result :
    ℕ → Actor → Webhook → DeliveryResult → List AuditEvent → List AuditEvent
unfolding record_event
audit_result now actor hook result trail =
    record_event now (some hook.org_id) actor
      (if result.delivered then webhook_delivered else webhook_failed) (some hook.id)
      result.attempts trail
