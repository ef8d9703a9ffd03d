-- ===== src/Control/Members.antt =====
-- app/api/v1/members.py and the member operations of app/control/service.py. A handler takes the
-- tables that it reads and writes; what it raises before its commit leaves them as they were.
pub mod Guarded
pub mod Routes
pub mod Owners
pub mod Invitations
pub mod Keeping
pub mod Effects
