-- ===== src/Tests.antt =====
-- The theorems at concrete inputs.
mod Queue
mod Kernel
mod Streams
mod Disk
mod Memory
mod Processors
mod Names
mod Pages
mod CommandLine
mod Files
mod OpenFiles
mod Buffers
mod Numbers
