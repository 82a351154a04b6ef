-- ===== src/LaunchConfig/Cycle.antt =====
-- A checkpoint and the restore of it.
