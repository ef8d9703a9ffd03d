-- ===== src/Tests/Tenants.antt =====
-- The theorems on tenants and event streams, on small registries.
use daas_engine.Base.{
  [], arith, count_where, false, find_where, length, none, refl, true, ◌∷◌, ◌≡◌, ◌≤◌, ◌⊎◌,
}
use daas_engine.Jobs.Bus.{JobBus, active_streams, open_stream, streams_of}
use daas_engine.Jobs.Bus.Laws.{open_stream-limits}
use daas_engine.Tenancy.{Registry, entry_of, evict_over_limit, is_kept, uses}
use daas_engine.Tenancy.Laws.{evict_over_limit-bound, evict_over_limit-kept, may_go}

abbrev full : Registry
full = record {
  max_active = 1;
  entries =
      record { org_id = 1; runner = 100; llm_narrative = none }
      ∷ (record { org_id = 2; runner = 101; llm_narrative = none } ∷ []);
  in_use = (1, 1) ∷ [];
  evictions = 0;
}

evict_over_limit-bound_example :
    (length (evict_over_limit 2 full).entries ≤ 1)
    ⊎ (count_where (may_go 2 full.in_use) (evict_over_limit 2 full).entries ≡ 0)
evict_over_limit-bound_example = evict_over_limit-bound 2 full

is_used : is_kept 2 full.in_use 1 ≡ true
unfolding is_kept uses
is_used = refl

evict_over_limit-kept_example :
    find_where (entry_of 1) (evict_over_limit 2 full).entries ≡ find_where (entry_of 1) full.entries
evict_over_limit-kept_example = evict_over_limit-kept 2 1 full is_used

abbrev quiet : JobBus
quiet = record { events = []; streams = (7, 1) ∷ []; closing = false }

within_subject : streams_of 7 quiet.streams ≤ 3
unfolding streams_of
within_subject = omega arith

within_all : active_streams quiet.streams ≤ 5
unfolding active_streams
within_all = omega arith

open_stream-limits_example :
    (streams_of 7 (open_stream 7 3 5 quiet).1.streams ≤ 3)
    × (active_streams (open_stream 7 3 5 quiet).1.streams ≤ 5)
open_stream-limits_example = open_stream-limits 7 3 5 7 quiet within_subject within_all
