-- ===== src/Control/Usage.antt =====
-- `add_usage` of app/control/service.py and the plans of app/control/plans.py.
use daas_engine.Base.{
  Bool, List, Option, [], exists_where, find_where, if◌then◌else◌, none, some, update_where, ℕ,
  ◌&&◌, ◌*◌, ◌++◌, ◌+◌, ◌==◌, ◌∷◌,
}
use daas_engine.Control.Records.{Plan, UsageCounter, free, pro, selfhost}

pub record PlanLimits : Type 0 where
  pub runs_per_month : Option ℕ
  pub upload_bytes_per_month : Option ℕ

abbrev pub mib : ℕ
mib = 1048576

abbrev pub gib : ℕ
gib = 1073741824

-- `limits_for`; an unknown plan has the limits of `free`, so `Plan` has no other value.
unfoldable pub limits_for : Plan → PlanLimits
limits_for free = record { runs_per_month = some 20; upload_bytes_per_month = some (200 * mib) }
limits_for pro = record { runs_per_month = some 500; upload_bytes_per_month = some (5 * gib) }
limits_for selfhost = record { runs_per_month = none; upload_bytes_per_month = none }

-- `UsageCounter.org_id == org_id, UsageCounter.period == period`.
abbrev pub at_period : ℕ → ℕ → UsageCounter → Bool
at_period org_id period c = c.org_id == org_id && c.period == period

unfoldable pub bumped : ℕ → ℕ → UsageCounter → UsageCounter
bumped runs upload_bytes c = record c {
  runs = c.runs + runs;
  upload_bytes = c.upload_bytes + upload_bytes;
}

-- The UPDATE, or the first row of the month.
unfoldable pub add_usage : ℕ → ℕ → ℕ → ℕ → List UsageCounter → List UsageCounter
unfolding bumped
add_usage org_id period runs upload_bytes counters =
    if exists_where (at_period org_id period) counters
    then update_where (at_period org_id period) (bumped runs upload_bytes) counters
    else counters
      ++ (record { org_id = org_id; period = period; runs = runs; upload_bytes = upload_bytes }
          ∷ [])

-- The runs of the month: `counter.runs if counter else 0`.
unfoldable pub runs_used : ℕ → ℕ → List UsageCounter → ℕ
runs_used org_id period counters = elim (find_where (at_period org_id period) counters) [
  | none ↦ 0
  | some c ↦ c.runs
]

unfoldable pub bytes_used : ℕ → ℕ → List UsageCounter → ℕ
bytes_used org_id period counters = elim (find_where (at_period org_id period) counters) [
  | none ↦ 0
  | some c ↦ c.upload_bytes
]
