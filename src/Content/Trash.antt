-- ===== src/Content/Trash.antt =====
-- src/trash: trash/infrastructure/prisma-trash.repository.ts and its use cases.
pub mod Writes
pub mod Listing
pub mod Pages
pub mod UseCases
pub mod Cursors
pub mod Keeping
