-- ===== src/Subscriptions/Repository.antt =====
-- subscriptions/infrastructure/prisma-subscriptions.repository.ts, by the part of the life of a
-- subscription that an operation serves.
pub mod Rows
pub mod Initial
pub mod Lifecycle
pub mod Renewal
pub mod Due
pub mod Schedule
pub mod Unresolved
pub mod SingleCharge
pub mod Phase
pub mod UniqueIds
pub mod Lifelong
pub mod Refusals
pub mod Settling
pub mod Resuming
pub mod DueLaws
