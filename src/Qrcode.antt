-- ===== src/Qrcode.antt =====
-- The payment of a QR code, `pay_pix_qrcode` of app/pix/router.py: the search for a charge of the
-- platform that the code stands for, and the two routes of the payment.
pub mod Rows
pub mod Lookup
pub mod Call
pub mod Pay
pub mod Internal
pub mod External
pub mod Settled
pub mod Guarded
pub mod Replay
pub mod Losses
mod Tests
