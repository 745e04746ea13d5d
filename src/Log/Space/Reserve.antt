-- ===== src/Log/Space/Reserve.antt =====
-- Why the log never overflows (xv6/log.c).
