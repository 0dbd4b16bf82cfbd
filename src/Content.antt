-- ===== src/Content.antt =====
-- src/clips, src/folders, src/trash and the parts of src/shared that they stand on: what users
-- keep, what their plan lets them reach, and what they have thrown away.
pub mod Types
pub mod Store
pub mod App
pub mod Access
pub mod Clips
pub mod Trash
pub mod Folders
pub mod Quota
pub mod Sample
mod Tests
