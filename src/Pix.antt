-- ===== src/Pix.antt =====
-- PIX transactions, app/pix/service.py, app/pix/internal_transfer.py, app/core/matrix.py and the
-- webhook of app/pix/router.py.
pub mod Outcome
pub mod Ledger
pub mod Matrix
pub mod Transfer
pub mod Receipt
pub mod Credit
pub mod Create
pub mod Lifecycle
pub mod Webhook
pub mod Conservation
pub mod Solvency
pub mod Replay
pub mod Deferred
pub mod Events
pub mod Screen
pub mod Velocity
pub mod Deviations
pub mod Samples
mod Tests
