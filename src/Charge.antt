-- ===== src/Charge.antt =====
-- Charges and incoming payments: the endpoints of app/pix/router.py that confirm a charge, the
-- payment events of the webhook, the active verification of deposits, and the synchronisation of
-- app/pix/service.py.
pub mod Confirm
pub mod Inbound
pub mod Deposit
pub mod Credits
pub mod Settle
pub mod Once
pub mod Book
pub mod Marks
pub mod Repeat
pub mod Gate
pub mod Guards
pub mod Diagram
pub mod Deviations
mod Tests
