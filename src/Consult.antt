-- ===== src/Consult.antt =====
-- What a payer is told before a payment, in app/pix/router.py: `consultar_pix_qrcode` for a code, and
-- `lookup_pix_key_endpoint` for a key.
pub mod Location
pub mod Answers
pub mod Keys
pub mod Same
pub mod Issued
pub mod Founded
pub mod Refused
mod Tests
