-- ===== src/Content/Access.antt =====
-- shared/application/clip-limit.ts, shared/application/folder-access.ts and the transactions of
-- shared/infrastructure/prisma-folder-access.ts and prisma-clip-limit.ts: what a plan allows, and
-- which folder a user without one may open. A `SELECT ... FOR UPDATE` reads nothing.

pub mod Defs
pub mod Frame
pub mod Upgrade
