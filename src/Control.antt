-- ===== src/Control.antt =====
-- The control plane (app/control and app/api/v1): who may do what, and what happened.
pub mod Scopes
pub mod Records
pub mod Problem
pub mod Audit
pub mod Members
pub mod Access
pub mod Authentication
pub mod Usage
pub mod Directory
pub mod SignIn
pub mod Ids
pub mod Webhooks
