-- ===== src/Control/Audit.antt =====
-- app/control/audit.py: `record_event` appends an event to the audit trail. The checks of the action
-- name and of the metadata, and the line in the file of the organization, are not modelled.
use daas_engine.Base.{ℕ, Option, List, [], ◌∷◌, ◌++◌}
use daas_engine.Control.Records.{Actor, Action, AuditEvent}

unfoldable pub record_event :
    ℕ → Option ℕ → Actor → Action → Option ℕ → ℕ → List AuditEvent → List AuditEvent
record_event now org_id actor action target count trail =
    trail
    ++ (record {
      org_id = org_id;
      actor = actor;
      action = action;
      target = target;
      count = count;
      ts = now;
    }
        ∷ [])
