-- ===== src/Proc.antt =====
-- proc.c and proc.h: the process table and the scheduler.
pub mod Types
pub mod Table
pub mod Sched
pub mod Life
pub mod Frame
pub mod Wake
pub mod Sleepers
pub mod GetMin
pub mod Wait
pub mod Queued
pub mod Kill
pub mod System
pub mod Twice
