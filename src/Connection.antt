-- ===== src/Connection.antt =====
-- src/connection.rs: the reliable connection over a link and a timer.
pub mod State
pub mod Waiters
pub mod Output
pub mod Deadline
pub mod Input
pub mod Drive
pub mod Valid
pub mod Kept
pub mod History
pub mod Delivery
pub mod Retries
pub mod Stream
pub mod Budget
pub mod Api
