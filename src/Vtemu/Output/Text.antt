-- ===== src/Vtemu/Output/Text.antt =====
-- Plain text, without an escape byte, on the emulator of tek/wmgr/vtemu.c.
