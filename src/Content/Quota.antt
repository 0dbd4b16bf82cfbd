-- ===== src/Content/Quota.antt =====
-- No folder comes to hold more live clips than the largest plan allows.
pub mod Writes
pub mod Restoring
pub mod Deleting
pub mod Schedule
