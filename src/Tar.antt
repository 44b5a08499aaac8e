-- ===== src/Tar.antt =====
-- The tape archiver, tek/utils/tar.c.
pub mod Tape
pub mod Header
mod Runs
