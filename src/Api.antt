-- ===== src/Api.antt =====
-- The endpoints of app/pix/router.py that wrap the services of app/pix/service.py.
pub mod Send
pub mod Refresh
pub mod Issue
pub mod Keys
pub mod Statement
pub mod Fresh
pub mod Read
pub mod Claimed
pub mod Listed
mod Tests
