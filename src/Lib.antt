-- ===== src/Lib.antt =====
-- xv6 with priority scheduling: the parts of the kernel and of the user programs that keep state
-- and decide, as functions and step relations, with the theorems that make them correct.
--
-- The kernel keeps a table of processes (proc.c, proc.h). The RUNNABLE ones wait in a priority queue
-- ordered by accumulator, the RUNNING ones stand in a list; both, and a round-robin list, are the
-- structures of ass1ds.cpp over one pool of links and nodes (schedulinginterface.h is what proc.c
-- sees of them). Pipes (pipe.c) and user programs such as grep.c are clients of the kernel.
--
-- Base: shared names, Boolean tests, lists over the native numbers, signed integers.
--
-- SchedDs (ass1ds.cpp, ass1ds.hpp). LinkedList: the class LinkedList and the pool; a list is the
-- sequence of its processes, a process its index in the table, and the free lists are their lengths,
-- since a link or node belongs to one list, tree or free list at a time. Map: MapNode and Map as a
-- binary search tree, with put, getMinKey and extractMin. Queues: the three structures of
-- initSchedDS, the operations of schedulinginterface.h, the policy switches and extractProc. Modulo:
-- __moddi3, with its loops in Loops and its result in Remainder. Sorted is the specification, a list in key order and oldest first among equals; Order,
-- Extract, Transfer and Pools relate the code to it. The loops over the tree have a round for each
-- entry, and those of __moddi3 one more than the number, which is enough since each round takes
-- something away; in __moddi3 a long long is its 64-bit pattern, and the fuel runs out only for the
-- divisor with which its loops do not end. The calls of kalloc and the page layout of mymalloc are not modelled.
--
-- Proc (proc.c, proc.h). Types: struct proc, the table, nextpid, initproc, and the calls into other
-- subsystems as a list of events. Table: the loops that search the table. Sched: get_min,
-- Priority_Scheduler and Round_Robin_Scheduler in the parts before and after swtch, the checks of
-- sched, yield, sleep, wakeup. Life: allocproc, userinit, fork, exit, wait, kill, detach, priority.
-- What kalloc, copyuvm and setupkvm return is an argument. A function that runs with ptable.lock held
-- is one step; yield, sleep and exit run on into Priority_Scheduler, which releases the lock. System
-- is the step relation. nextpid is the 32-bit pattern of an int and accumulators add as 64-bit
-- patterns. Trap frames, contexts, names of processes, procdump, growproc and forkret are not
-- modelled. Frame, Wake, GetMin, Wait, Kill, Twice and Queued hold the theorems.
--
-- Grep (grep.c): match, matchhere and matchstar; Spec is the meaning of patterns, Correct relates the
-- two. The loop over lines is not modelled.
--
-- Pipe (pipe.c): the ring of 512 bytes between two uint counters. A call that sleeps returns what is
-- left to do. Window and Refine relate the ring to the bytes it holds, Calls has the theorems.
--
-- Log (log.c, bread and bwrite of bio.c). Disk: block contents as lists of words, with a count of the
-- writes that still reach the disk, so that a run may stop at each of them. Log: the header, begin_op,
-- end_op, log_write, commit and recover_from_log; a pass of begin_op that sleeps is `none`. Trace and
-- Phases turn the loops into lists of writes, Recovery and Commit are about crashes, Operations, Space
-- and Absorb about the counters and the list of blocks. The superblock and the lock are not modelled.
--
-- Strings (string.c, stosb and stosl of x86.h): memory as a function from addresses to bytes, and
-- the loops as recursion on the count. Move is about memmove, Fill about memset, Text about strncmp and
-- strlen, Copy about strncpy and safestrcpy.
--
-- Locks (spinlock.c): Locks has pushcli and popcli on a processor, and the parts of acquire and
-- release between which other processors may run. Exclusion is the step relation of several
-- processors on one lock, Mutex and Nesting have the theorems. The memory fences and the record of
-- return addresses are not modelled.
--
-- Paths (fs.c): skipelem on the bytes of a path; Split says what it finds.
--
-- Kalloc (kalloc.c): the list of free pages, with the linker's symbol end as a parameter; the loop of
-- freerange has at most vend / PGSIZE rounds. Pages has the theorems. The lock and the contents of
-- pages are not modelled.
--
-- Shell (sh.c): the parser of command lines. A line is the list of its bytes, a pointer into it the
-- list of the bytes from there on, and a word the bytes between its two pointers, which is what
-- nulterminate leaves of it. The four functions that call one another take the call as an argument;
-- parse ties them with fuel for the depth of the calls, four times the bytes and four, which is
-- enough for every line (Settle), and the loops have fuel for the bytes that are left. Print writes
-- command trees as text and shows that the parser reads them back. nulterminate, runcmd and the
-- reading of lines are not modelled.
--
-- Fs (fs.c): the free map, and the blocks and bytes of an inode's file. The disk is the free map and the
-- bytes of each block, as bread gives them; a bit of the free map is a Boolean of its block, and where
-- the bit stands on the disk is not modelled. Blocks is balloc, Slots the sequence of an inode's block
-- addresses and the bytes of a file that they define, Grow and Stored what a new block changes, Bmap the
-- function bmap, Bytes and Content runs of bytes in a block and in a file, Read, Write and Files the
-- functions readi and writei, Freed, Entries, Directs and Truncate the function itrunc. The loops of
-- readi and writei have fuel for one round per byte, and every round moves a
-- byte. Not modelled of these functions: the buffers' locks, log_write, iupdate, and device inodes.
--
-- File (file.c): the table of open files, a list of its entries, and the branches of fileread and filewrite
-- for an inode, on top of Fs. A round of filewrite's loop writes a byte at least, so as many rounds as
-- bytes are enough. Counts is what the calls do to the reference counts, Handles the tables they lead
-- to, Offset the loop of filewrite. The lock of the table is held through each call. The branches for
-- a pipe, filestat, and the transactions around writei are not modelled here.
--
-- Bio (bio.c, memide.c): the buffer cache. A buffer is its index in bcache.buf, the list of buffers is the
-- list of their indices, and the disk is the one in memory of memide.c; the driver of ide.c, which does
-- the same to a buffer by way of interrupts, is device access. A call is one step, from its sleep lock
-- on. Steps has the loops of bget and says when a cache has the current contents of the blocks, Same,
-- Current, Calls and Writes what each call does to them, Runs the caches that calls lead to. The sleep
-- locks are not modelled. Log and Fs have the blocks' contents alone, as bread gives them.
--
-- Printf (printf.c): the number printing of the user library, with an int as its 32-bit pattern and the
-- output as a list of bytes. A round of the loop over the digits makes the number smaller, so one more
-- round than the number is enough. Number has the theorem. The loop over the format is not modelled.
--
-- Tests: each theorem at a concrete input, and runs of the code.
--
-- Not modelled: sleep locks, the user allocator, the inode cache and directories, virtual memory,
-- system call arguments and console; devices and start-up code are hardware access.
pub mod Base
pub mod Bio
pub mod SchedDs
pub mod Proc
pub mod Grep
pub mod Log
pub mod Strings
pub mod Locks
pub mod Paths
pub mod Kalloc
pub mod Shell
pub mod Fs
pub mod File
pub mod Pipe
pub mod Printf
pub mod Tests
