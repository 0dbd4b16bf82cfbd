-- ===== src/Content/Clips.antt =====
-- src/clips: clips/infrastructure/prisma-clips.repository.ts and its use cases.
pub mod Writes
pub mod Reads
pub mod Colors
pub mod Data
pub mod UseCases
pub mod Lists
pub mod Pages
pub mod Images
