-- ===== src/Lib.antt =====
-- The DaaS Engine: a multi-tenant service that runs data pipelines for organizations. This library
-- models the control plane of the API: who may act, what the members' and jobs' routes write, the
-- executor that runs the jobs, signing in, the OAuth provider for agents with the consent of users,
-- webhooks, reminders, retention, the rate limiter, the registry of tenants' runners, and the check
-- of an uploaded file.
--
-- The parts and their files, with the code that each is about:
--   Base: Boolean tests on numbers, and tables. A table is a list of rows; an SQL statement is
--     `update_where`, `delete_where` or `count_where` with the condition of its WHERE clause and the
--     count of its changed rows.
--   Control/Scopes: app/control/scopes.py, and `grantable_scopes` of app/control/oauth.py.
--   Control/Records: app/control/models.py, a record for each table.
--   Control/Problem, Control/Audit, Control/Usage: app/api/problems.py, app/control/audit.py
--     (`record_event`), app/control/plans.py and `add_usage` of app/control/service.py.
--   Control/Access and Control/Authentication: app/api/v1/deps.py, and `principal_key` of
--     app/core/ratelimit_v1.py.
--   Control/Members: app/api/v1/members.py and the guarded statements of app/control/service.py.
--     Guarded, Routes and Invitations hold the operations; Owners, Keeping and Effects the theorems.
--   Control/SignIn: app/api/v1/auth.py; Links and Sessions hold the theorems. Control/Directory: users
--     and memberships in app/control/service.py.
--   Control/Ids: app/control/ids.py; Order and Runs hold the theorems.
--   Control/Webhooks: the rules for URLs and addresses of app/control/webhooks.py; Posting is one
--     post, Delivery the retries, Routes app/api/v1/webhooks.py; Safety, Retries and Limits hold the
--     theorems.
--   Jobs: Table has the statements on `jobs`, Queue the routes of app/api/v1/jobs.py, Executor the
--     phases of a task of app/control/executor.py, Bus its event streams, Quota the guard of
--     app/api/v1/plan_guard.py, Orgs the deletion of an organization in app/api/v1/orgs.py. Steps
--     interleaves them; Invariant, Ends, Begins, Arrivals, Removal, Safety and Lifecycle are about all the interleavings.
--   OAuth: app/control/oauth.py. The root has grants and their revocation, Codes the authorization
--     codes, Refresh the rotation and revocation of tokens, Principals the use of an access token,
--     Clients registration, the request for a code and the removal of old rows. Consent is
--     app/api/v1/oauth.py: the decision on a request, and the end of a connection. Live, Exchange,
--     Rotation, Requests, Reached, Reuse, Decisions, Approvals, Granted, Families, Replay and
--     Disconnect hold the theorems.
--   Retention: app/control/retention.py; Purge has `purge_org`, and Keeping the theorems.
--   Schedule: app/control/schedule.py. The root has the next moment of a reminder, Reminders its claim
--     and the tick, Settings app/api/v1/schedule.py; Slots, Once, Ticks and Quiet hold the theorems.
--   RateLimit: app/core/ratelimit.py. Laws and Window hold the theorems.
--   Sources: the choice of the columns in app/sources/csv_mapper.py; One holds a theorem.
--   Uploads: the check of a CSV file in app/core/upload_guard.py. Rows and Accepted hold the theorems.
--   Tenancy: `TenantRegistry` of app/control/tenancy.py. Laws holds the theorems.
--   Tests: concrete tables on which the theorems are applied.
--
-- State is passed explicitly: a route takes the tables that it reads and gives its answer and the
-- tables afterwards; a refusal before the commit gives the tables back unchanged. Ids, hashes,
-- addresses and times are natural numbers. The clock, new ids, the hashes of new secrets, the answer
-- of a limiter asked before, the outcome of a pipeline and whether a file is there are arguments.
-- The executor's concurrency is a relation: one step is what happens between two awaits, so a sequence of
-- steps is an interleaving; a restart may come at any time and may change the settings. A task passes
-- through phases, each a list of the model: it waits for the lock of its organization, holds it and
-- waits for the semaphore, holds both and claims its job, runs it, and holds both on while it awaits the
-- listeners. It may fail in each of them, and the handler that then ends the job may fail as well.
-- Retention deletes uploads at any time, which sets `jobs.upload_id` to NULL. A resolver of names gives
-- its own answer to each asking in each attempt of a delivery.
--
-- The rate limiter has floats in the source and exact numbers here: milliseconds, and 60000 units for
-- a token; so nothing is said of a call at the very moment at which a token is full again, where the
-- rounding of a float decides. A retention lists the files that it unlinks. The recursive query of `revoke_subtree` has fuel, one more than the number of tokens:
-- a chain of parents without a cycle is no longer than the table. The search for the next reminder
-- looks at 15 days, as the source does.
--
-- Not modelled: HTTP, the wire formats, the database engine and its locks (a transaction is one
-- step), files, mail, the pipelines themselves, the reports and the web client; of the OAuth provider
-- the routes of its SDK; the restore of a backup, which runs while the service does not. Reports, notifications of a run, the names and paths of
-- uploads and the sources of data are other parts.

pub mod Base
pub mod Control
pub mod Jobs
pub mod OAuth
pub mod RateLimit
pub mod Retention
pub mod Schedule
pub mod Sources
pub mod Tenancy
pub mod Uploads
pub mod Tests
