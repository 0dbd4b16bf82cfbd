-- ===== src/Subscriptions/UseCases.antt =====
-- subscriptions/application: the use cases over the repository, the gateway and the mailer.
pub mod Helpers
pub mod Reconcile
pub mod Confirm
pub mod Manage
pub mod Renew
pub mod Batch
pub mod Charging
pub mod Items
pub mod Counting
pub mod Pricing
pub mod SingleCharge
pub mod BatchCharge
mod Tests
