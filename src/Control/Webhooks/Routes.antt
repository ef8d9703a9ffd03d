-- ===== src/Control/Webhooks/Routes.antt =====
-- The routes of app/api/v1/webhooks.py.
use daas_engine.Base.{
  Bool, List, Option, [], count_where, delete_where, exists_where, find_where, if◌then◌else◌, leb,
  ltb, none, some, true, ℕ, ◌&&◌, ◌++◌, ◌/◌, ◌==◌, ◌∷◌,
}
use daas_engine.Control.Access.{OrgContext, actor_of}
use daas_engine.Control.Audit.{record_event}
use daas_engine.Control.Problem.{Result, err, ok, problem}
use daas_engine.Control.Records.{AuditEvent, EventName, Webhook, webhook_created, webhook_deleted}
use daas_engine.Control.Webhooks.{
  Network, Resolver, UrlParts, safe, same_text, unsafe, validate_url,
}
use daas_engine.Control.Webhooks.Delivery.{DeliverySettings, audit_result, deliver}
use daas_engine.Control.Webhooks.Posting.{Reply, Target}

pub record WebhooksDb : Type 0 where
  pub webhooks : List Webhook
  pub audit_events : List AuditEvent

abbrev pub max_webhooks : ℕ
max_webhooks = 10

abbrev pub hook_of : ℕ → Webhook → Bool
hook_of org_id h = h.org_id == org_id

-- The row of an organization and a URL, which the table has once.
abbrev pub same_hook : ℕ → List ℕ → Webhook → Bool
same_hook org_id url h = h.org_id == org_id && same_text h.url url

abbrev pub hook_in : ℕ → ℕ → Webhook → Bool
hook_in id org_id h = h.id == id && h.org_id == org_id

unfoldable pub new_hook : ℕ → ℕ → ℕ → OrgContext → List ℕ → List EventName → Webhook
new_hook now id secret_hash ctx url events = record {
  id = id;
  org_id = ctx.org.id;
  url = url;
  secret_hash = secret_hash;
  events = events;
  active = true;
  created_at = now;
}

-- `create_webhook`, of a caller with `webhooks:manage`; `url` and its parts are those of the body
-- without blanks at the ends, `events` its events without repetition, and `id` is fresh.
unfoldable pub create_webhook :
    Network
    → (ℕ → ℕ → ℕ)
    → Bool
    → Option ℕ
    → ℕ
    → ℕ
    → OrgContext
    → List ℕ
    → Option UrlParts
    → List EventName
    → WebhooksDb
    → Result Webhook × WebhooksDb
unfolding validate_url new_hook record_event actor_of same_text
create_webhook net derive dev secret_key now id ctx url split events db = elim secret_key [
  | none ↦ (err (problem 503 "webhooks_unavailable"), db)
  | some master ↦ elim events [
    | [] ↦ (err (problem 422 "events_required"), db)
    | e ∷ es ↦ elim (validate_url net dev url split) [
      | unsafe f ↦ (err (problem 422 "webhook_url_invalid"), db)
      | safe _ ↦
          if leb max_webhooks (count_where (hook_of ctx.org.id) db.webhooks)
          then (err (problem 409 "webhook_limit_reached"), db)
          else if exists_where (same_hook ctx.org.id url) db.webhooks
          then (err (problem 409 "webhook_exists"), db)
          else (
            ok (new_hook now id (derive id master) ctx url (e ∷ es)),
            record db {
              webhooks = db.webhooks ++ (new_hook now id (derive id master) ctx url (e ∷ es) ∷ []);
              audit_events =
                  record_event now (some ctx.org.id) (actor_of ctx.principal) webhook_created
                    (some id) 0 db.audit_events;
            },
          )
    ]
  ]
]

-- `delete_webhook`.
unfoldable pub delete_webhook : ℕ → OrgContext → ℕ → WebhooksDb → Result (Unit {0}) × WebhooksDb
unfolding record_event actor_of
delete_webhook now ctx id db = elim (find_where (hook_in id ctx.org.id) db.webhooks) [
  | none ↦ (err (problem 404 "not_found"), db)
  | some h ↦ (
    ok tt,
    record db {
      webhooks = delete_where (λ (r : Webhook). r.id == h.id) db.webhooks;
      audit_events =
          record_event now (some ctx.org.id) (actor_of ctx.principal) webhook_deleted (some id) 0
            db.audit_events;
    },
  )
]

-- `delivered` and `status_class`: `n` is `nxx`, none is `error`.
unfoldable pub ping_class : Option ℕ → Option ℕ
ping_class none = none
ping_class (some code) = if leb 200 code && ltb code 600 then some (code / 100) else none

-- `ping_webhook`: one attempt.
unfoldable pub ping_webhook :
    Network
    → (ℕ → Resolver)
    → (ℕ → ℕ → ℕ)
    → DeliverySettings
    → (ℕ → Target → Reply)
    → Option UrlParts
    → ℕ
    → OrgContext
    → ℕ
    → WebhooksDb
    → Result (Bool × Option ℕ) × WebhooksDb
unfolding deliver audit_result actor_of ping_class
ping_webhook net resolver derive settings transport split now ctx id db =
    if settings.maintenance_mode
    then (err (problem 503 "maintenance"), db)
    else elim (find_where (hook_in id ctx.org.id) db.webhooks) [
      | none ↦ (err (problem 404 "not_found"), db)
      | some h ↦
          let result = (deliver net resolver derive settings transport split h 1).result in
          (
            ok (result.delivered, ping_class result.status_code),
            record db {
              audit_events = audit_result now (actor_of ctx.principal) h result db.audit_events;
            },
          )
    ]
