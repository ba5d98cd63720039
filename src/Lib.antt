-- ===== src/Lib.antt =====
-- A verification library for AutomaticOptimisticAccess: lock-free sets (a linked list and a hash
-- map) under several schemes of memory reclamation, in C.
--
-- Parts and files. Paths are from the repository's root.
--   Base        shared names, tests, arrays as lists, outcomes of code that may stop early.
--   Entry       entry.h: the mark in bit 0 of a link, the key and the data in `keyData`.
--   SimpleSet   simpleSet.c: the hash set in which the manual collector (allocatorOA.c) keeps the
--               hazard pointers. `hash_insert`, `hash_retrieve` and the rest keep their names; the
--               loops over `try` are `insert_loop` and `retrieve_loop`.
--   Lfl         lfl-NoOrDelayRecl.c: the list of Harris and Michael, with no reclamation. `step` makes
--               one shared access of `find`, `ListSearch`, `ListInsert` or `ListDelete`; a `Pc` is a
--               place in that code with its live locals. `Step` interleaves any number of threads.
--   Aoa         lfl-RoF.c: the same list with automatic optimistic access, with the thread's
--               `DirtyRecord`; Aoa/Simulation relates its places to those of Lfl.
--   Moa         lfl-MOA.c: the same list with its calls of `pfree` and `pReturnAlloc`, which Moa/Calls
--               counts over a run.
--   NoRecl      allocatorNR.c: `palloc`.
--   Marks       trace.c and allocator.h: mark bits, `mark`, `clearMarks`.
--   Phase       allocator.c: `Reclamation`, the start of a collection.
--   Manual      allocatorOA.c: `pfree`, `Recycle`, `palloc`, `pReturnAlloc` and `triggerCollection`, over
--               SimpleSet, Pool and Phase.
--   Pool        allocator.c and trace.c: allocation caches and the pool with its version.
--   Sweep       trace.c: `process_sweep_page` and `sweep`, over Marks and Pool; Sweep/Counter has the counter
--               that hands out the pages, with `resetSweepCounter`.
--   Trace       trace.c: `trace`, `traceRoots`, `traceMarkstack` and `traceObj` of any number of threads,
--               one shared access at a time. `mutate` is the store of a thread of the list that has not
--               yet noticed the collection; Trace/Writers shows that lfl-RoF.c makes no other, and
--               Trace/Complete puts tracing and Sweep together.
--               Trace/Measure and those after it bound the steps of a thread.
--   Arrays      trace.c: roots that are arrays: registration, clearing, chunks, mark bits, and helping.
--   Rc          lfl-RC.c: the list with reference counts. Each step comes with a ledger of the
--               references that it takes and gives up.
--               Rc/System puts threads, counts and nodes together, with `safeRead` as one step; Rc/Attempts
--               has its accesses one at a time, and is what Rc/Counts is about.
--   Refcount    refcount.c: the counts, `release` down a chain of nodes, and the free list.
--   Check       trace.c: `CheckFinish`, over whatever it reads of the other threads.
--   Heap        allocator.c and allocatorNR.c: `initAllocator`, `init_allocator`, `assert_in_heap`, over Pool.
--   HashMap     lfhash.c: the hash map, an array of lists, over whatever the calls on a
--               list do (ListOps).
--   FastInit    main_test.c and rand.h: `initialize_ds`, which fills the list before the threads start.
--   Barrier     worker.c: `barrier`, one access of the counter at a time.
--   Tests       runs at concrete inputs, and the theorems at concrete inputs.
--
-- Conventions. A pointer is its address, a natural number; an `int` or a word is the number that its
-- bits stand for. `x & 1` is `x % 2`. Keys are `int`s that are not negative, as the workers draw them.
-- Memory is sequentially consistent: each shared access is one step. `malloc` and, in Lfl, `palloc`
-- return a node that is aligned, not null and unused: the premise `Available` of a step.
--
-- Bounds. The `try` loops of simpleSet.c have no bound; they run on fuel, twice the number of cells.
-- That is enough, also where the sum `key + try` wraps around, if there are at least three cells:
-- this is part of the theorems. The loops of the list are not bounded: a step relation needs no fuel.
--
-- A loop over compare-and-swap (Base.Cas) is given what others write between its read and its swap, one
-- entry for each attempt that can be disturbed: no fuel. The other loops of the collector run on fuel;
-- the rounds of a page and of a header are constants of the code, those of `palloc` are twice the
-- number of entries in the pool.
--
-- `release` calls itself on the next node; it, and `safe_read` and `cntfree` with it, run on fuel, one for
-- each node of the chain and one more.
--
-- The loop of `initAllocator` over a chunk runs on fuel: 130 rounds are enough, since 129 caches fill a chunk.
-- `CheckFinish` begins again when a thread has changed meanwhile; its rounds are the fuel, and one in which no
-- thread changes is enough. `findFAST` runs on fuel, one for each node and one more.
--
-- Tracing takes no fuel: it is a step relation, and the number of steps that a thread needs is a theorem.
--
-- A count in Rc/Attempts is the number in the field `refcount` of a live node up to its lowest bit, and grows without
-- a bound. A node is collected when only unfinished attempts of `safeRead` refer to it, in one step with the release of
-- its link; the chain of calls that this may set off is in Refcount.
--
-- Not modelled: the place of arrays and of `CheckFinish` among the steps of a trace, and with them
-- `triggerCollection` of allocator.c, which `palloc` takes as a parameter: in Trace, `help` stands for
-- pointers that a thread takes over from others, and that all work is marked is a premise; the arguments and the
-- output of the benchmark (main_test.c, worker.c), whose loop draws an operation and calls it; the log and the
-- dump functions (debugging.c); and code that the preprocessor drops (`#if 0`).
pub mod Aoa
pub mod Arrays
pub mod Barrier
pub mod Base
pub mod Entry
pub mod FastInit
pub mod HashMap
pub mod Heap
pub mod Check
pub mod Lfl
pub mod Manual
pub mod Marks
pub mod Moa
pub mod NoRecl
pub mod Phase
pub mod Pool
pub mod Rc
pub mod Refcount
pub mod SimpleSet
pub mod Sweep
pub mod Trace
mod Tests
