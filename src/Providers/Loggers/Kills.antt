-- ===== src/Providers/Loggers/Kills.antt =====
-- When a logger kills the test.
