-- ===== src/Defrag.antt =====
-- The block map of the disk defragmenter, tek/devtools/defrag.c.
pub mod Bitmap
pub mod Account
pub mod Follow
pub mod Scan
pub mod Space
pub mod Move
mod Runs
