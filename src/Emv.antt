-- ===== src/Emv.antt =====
-- BR Code payloads, app/core/pix_emv.py and the parsers of app/pix/router.py: fields of a
-- two-character tag, a two-character length and a value.
pub mod Tlv
pub mod Build
pub mod Parse
pub mod Keys
pub mod Steps
pub mod RoundTrip
pub mod Hang
pub mod Reads
pub mod Checksum
mod Tests
