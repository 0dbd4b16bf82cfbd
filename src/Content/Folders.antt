-- ===== src/Content/Folders.antt =====
pub mod Repository
pub mod Names
pub mod Limit
pub mod Order
pub mod UseCases
