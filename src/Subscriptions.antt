-- ===== src/Subscriptions.antt =====
-- src/subscriptions: plans, payments and their reconciliation.
pub mod Types
pub mod Store
pub mod Repository
pub mod Calendar
pub mod Period
pub mod App
pub mod UseCases
pub mod Sample
mod Tests
