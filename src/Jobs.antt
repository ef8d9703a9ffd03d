-- ===== src/Jobs.antt =====
-- Jobs: app/api/v1/jobs.py, app/control/executor.py and app/api/v1/plan_guard.py.
pub mod Bus
pub mod Table
pub mod Queue
pub mod Executor
pub mod Orgs
pub mod Steps
pub mod Invariant
pub mod Ends
pub mod Begins
pub mod Arrivals
pub mod Removal
pub mod Safety
pub mod Lifecycle
pub mod Quota
