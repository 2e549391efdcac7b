-- ===== src/Timers/Endless.antt =====
-- A looping system timer of duration 0.
