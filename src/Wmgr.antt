-- ===== src/Wmgr.antt =====
-- The window manager, tek/wmgr.
pub mod Events
pub mod Paint
pub mod Rect
pub mod Stack
mod Runs
