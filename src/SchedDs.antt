-- ===== src/SchedDs.antt =====
-- ass1ds.cpp and ass1ds.hpp: the structures that hold the runnable and the running processes.
pub mod LinkedList
pub mod Map
pub mod Sorted
pub mod Order
pub mod Extract
pub mod Queues
pub mod Pools
pub mod Transfer
pub mod Modulo
