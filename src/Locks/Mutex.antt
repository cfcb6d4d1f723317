-- ===== src/Locks/Mutex.antt =====
-- Mutual exclusion of acquire and release of spinlock.c, and that they do not panic.
