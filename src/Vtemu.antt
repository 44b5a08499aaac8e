-- ===== src/Vtemu.antt =====
-- The VT100 emulator of the window manager, tek/wmgr/vtemu.c and tek/wmgr/vtemu.h.
pub mod State
pub mod Region
pub mod Lines
pub mod Args
pub mod Csi
pub mod Output
mod Runs
