-- ===== src/Boleto.antt =====
-- Boleto payment, app/boleto/service.py: the check digits of barcodes and the payment.
pub mod Barcode
pub mod Detection
pub mod Payment
pub mod Balance
mod Tests
