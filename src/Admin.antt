-- ===== src/Admin.antt =====
-- The operations of the administrator, app/web_routes.py. Each is called by a user whom
-- `require_admin` of app/auth/dependencies.py has let through.
pub mod Users
pub mod Identity
pub mod Treasury
pub mod Sweep
mod Tests
