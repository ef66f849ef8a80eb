-- ===== src/Auth.antt =====
-- Accounts and sessions: app/auth/router.py, app/auth/dependencies.py and app/auth/service.py.
pub mod Limiter
pub mod Window
pub mod Session
pub mod Access
pub mod Admitted
pub mod Account
pub mod Enrolment
pub mod Recovery
pub mod Reset
mod Tests
