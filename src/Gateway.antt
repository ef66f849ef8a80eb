-- ===== src/Gateway.antt =====
-- `AsaasAdapter` of app/adapters/asaas_adapter.py: the requests that it sends to the payment
-- gateway, which answers of them it repeats, and what it makes of the answers.
pub mod Wire
pub mod Settings
pub mod Charges
pub mod Payments
pub mod Psp
pub mod Fields
pub mod Codes
pub mod Sends
pub mod Retries
pub mod Settles
pub mod Once
pub mod Issued
mod Tests
