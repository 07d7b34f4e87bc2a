-- ===== src/Lib.antt =====
-- The kernel of the repository (initial-xv6/src/kernel, an xv6 with priority based scheduling and
-- copy-on-write fork) and its simulations of a cafe (concurrency/1.c) and of an ice cream parlour
-- (concurrency/2.c) by threads, with their proofs.
--
-- The parts. A process is an entry of a table (proc.h, proc.c). The clock interrupt counts its time
-- (update_time, clockintr), from which rbi_calculator and dp_calc make a dynamic priority, by which
-- `scheduler` chooses; sys_setpriority (sysproc.c) changes the static part. An entry begins its life in
-- `fork` and ends it in `exit` and in the `wait` of its parent. Memory is a list of free
-- pages with a count of references for each page (kalloc.c). Page tables lie in such pages (vm.c). A
-- fork shares the pages of the parent (uvmcopy), and a write fault copies one (write_trap, trap.c). A
-- pipe is a ring of bytes between two processes (pipe.c). Open files have counts of the pointers to
-- them (file.c). The file system writes its blocks through a log, so that the writes of one call
-- reach the disk together (log.c), from a cache of blocks that reuses the least recently used one
-- (bio.c). CPUs exclude each other by spin locks (spinlock.c), and string.c moves bytes for all.
-- The cafe and the parlour are programs of their own: their threads share one state and wake each
-- other by semaphores.
--
-- The files.
--   Base             numbers, signed integers with the wrap-around of `int`, bits, arrays, panics
--   Proc/Defs        proc.h: the entry and the table
--   Proc/Priority    proc.c: max, min, rbi_calculator, dp_calc
--   Proc/Scheduler   proc.c: the PBS branch of scheduler, up to swtch
--   Proc/Sleep       proc.c: sleep, wakeup, yield, kill, setkilled, killed
--   Proc/SleepLock   sleeplock.c
--   Proc/Clock       proc.c: update_time; trap.c: clockintr
--   Proc/SetPriority sysproc.c: sys_setpriority and its helpers
--   Proc/Exit        proc.c: reparent, exit
--   Proc/Machine     these operations as steps of one table, in any order
--   Proc/Create      proc.c: allocpid, allocproc, freeproc, fork
--   Proc/Wait        proc.c: wait, waitx
--   Proc/Life        the steps of Proc/Machine with fork and wait
--   Files            file.c: filealloc, filedup, fileclose
--   Locks            spinlock.c
--   Strings          string.c
--   Mem/Pages        physical memory as 64-bit words; riscv.h, memlayout.h, string.c
--   Mem/Kalloc       kalloc.c
--   Mem/Pte          the page-table entry: riscv.h, and the flag changes of vm.c and trap.c
--   Mem/Walk         vm.c: walk, walkaddr
--   Mem/Map          vm.c: mappages, uvmunmap, uvmcreate, uvmalloc, uvmdealloc, uvmclear
--   Mem/Copy         vm.c: copyin, copyinstr, copyout
--   Mem/Cow          trap.c: write_trap, allocate_new_memory; vm.c: uvmcopy, map_new_to_old
--   Bio              bio.c: binit, bget, brelse, bpin, bunpin
--   Log              log.c, and bread and bwrite of bio.c
--   Pipe             pipe.c: the loops of pipewrite and piperead
--   Cafe/Defs        concurrency/1.c: the structures and global variables
--   Cafe/Names       give_index
--   Cafe/Arrivals    to_enter_customer
--   Cafe/Links       the loop of main that links the customers who arrive
--   Cafe/Baristas    free_barista, and the loop of main that links the free baristas
--   Cafe/Threads     barista_simulation and customer_waiting
--   Cafe/Main        customer_remaining, and main second by second
--   Cafe/Machine     these threads as steps of one state, in any order
--   Cafe/Claims      orders that threads claim, for the cafe and the parlour
--   Parlour/Defs     concurrency/2.c: the structures and global variables
--   Parlour/Checks   order_status_checker, ingreadient_checker, any_order_being_prepared,
--                    ingredient_exhausted_checker
--   Parlour/Threads  machine_simulation and customer_waiting
--   Parlour/Main     populate_order, the start values, and main second by second
--   Parlour/Machine  these threads as steps of one state, in any order
--   Parlour/Effects  what a step may change of orders, stock and guests
-- The laws of a part are in the modules below its own, named for what they show. The modules called
-- Tests hold concrete inputs.
--
-- How the model corresponds to the code. A pointer to a process is its index, and the null pointer
-- is `none`. A field of type `int` is an integer that int32 wraps after each operation; one of type
-- `uint` is a number below 2 ^ 32. The operations of one process run with the locks of the source,
-- so each is one step from its first lock to its last release or its call of sched; the locks have no
-- state there, and Locks shows on one lock what that rests on. Some of these steps are larger than the
-- critical sections of the source, and what others could do in between is not modelled: fork gives up the
-- lock of the new entry, in state USED, and takes it again; a pass of scheduler releases the locks of the
-- entries that it passes over; sys_setpriority scans the pids under no lock, and releases the lock before
-- it yields. A function that may panic returns `panic`, or `none` where it has no other failure. The
-- address `end` of the linker script is the argument `kend`. Loops over the table recur on the number
-- of entries left, 64 at the start, and loops over pages on the number of pages, so they have no other
-- fuel, and each terminates.
--
-- In the cafe and the parlour an index that may be -1 is an option, a semaphore is its count, an `int`
-- is an integer without bounds, and what a thread does from one sem_wait to the next is one step,
-- which the others do not interrupt; a barista's step under machine_lock takes and releases it. In the
-- source a customer of the parlour who leaves takes no lock, and main gives machine_lock up in the middle
-- of a second: these interleavings are not modelled. The
-- loops of main that link those to be woken have as fuel their number, with the result `none` if that
-- does not do. Times are read from the menu at the index that give_index returns, -1 included.
--
-- In a pipe, what copyin, copyout and killed answer for each byte is an argument, and a run of a loop
-- reaches to the next sleep or return.
--
-- In `fork` and `wait`, what kalloc, proc_pagetable, uvmcopy and copyout answer is an argument, and
-- the pages, the registers and the files of a process are left out; a round of `wait` reaches to the
-- next sleep or return. A life of the table counts its forks, since `nextpid` is an `int`. The functions
-- of string.c work on a memory of bytes; strlen has as fuel a bound of the length, with the result
-- `none` if that does not do.
--
-- The interrupt flag of a CPU is a Boolean, and an instruction of acquire or release that other CPUs
-- can see is a step of its own. A pointer to an open file is its index in the file table.
--
-- The disk of the log may lose its power before any write of a block, never in the middle of one; the
-- number of writes that it still makes is part of the state. After that the machine may start again any
-- number of times. A block that a buffer holds stays in the cache, as the pins of log_write keep it.
--
-- Not modelled: the first process and the growth of a process, the making of the kernel's page
-- table and the freeing of page tables in vm.c, traps but for the write fault, the file
-- system but for its log and its buffers, devices and user programs; in the simulations the
-- reading of the input, the joining of threads and the output.
pub mod Base
pub mod Cafe
pub mod Mem
pub mod Parlour
pub mod Pipe
pub mod Proc
pub mod Strings
pub mod Locks
pub mod Files
pub mod Log
pub mod Bio
