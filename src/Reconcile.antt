-- ===== src/Reconcile.antt =====
-- The comparison of the balances of the platform with the balance at the gateway, and its correction:
-- app/core/audit_worker.py and `matrix_audit` of app/web_routes.py.
pub mod Sums
pub mod Worker
pub mod Daily
pub mod Endpoint
pub mod Forensics
pub mod Customers
pub mod Matches
pub mod Agreement
pub mod Days
mod Tests
