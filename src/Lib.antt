-- ===== src/Lib.antt =====
-- MAMBO: a dynamic binary modification tool. It scans basic blocks of a guest program, copies them
-- translated into a code cache, and a dispatcher links the copies. This library models the data
-- structures that these parts share, the code cache and its threads, the RISC-V encoders, decoders
-- and memory accesses, and of the plugins the data race detectors, the cache simulator and the
-- string functions of memcheck.
--
-- Base: the shared names, tests, arrays (List with `get_or` and `set`), ℤ over the native ℕ, bit
--   masks, and `Outcome`: a C function returns (`ok`), stops at a failed `assert` (`abort`), or
--   stays in a loop (`hang`). The build leaves `assert` on.
-- IntervalMap (common.c, interval_map_*): `State` is interval_map with the file descriptors closed
--   so far and the number of calls of the C library, which number the results of `dup` and of
--   the mutex; `Os` is the C library, a parameter. One function per C function; a loop's body is
--   a `_round` and the loop is structural in its index.
-- CodeHash (common.c, hash_*, and hash_table in common.h): the table from source addresses to code
--   cache addresses. HT_SHIFT is the parameter `shift`. A probe is bounded by the table's size as
--   fuel, which is more than the cells from any home cell to the end.
-- Align (common.h, align_lower and align_higher): 64-bit addresses.
-- MamboHt (api/hash_table.c): the growing table of the plugins, with probes that wrap around. A probe
--   has the size of the table as fuel, which is enough if a cell is free. An addition calls itself
--   through __mambo_ht_resize, to a depth that is fuel too; an addition below the threshold has depth
--   one. The results of calloc and of the mutex are parameters.
-- LinkedList (common.c, linked_list_*): the pool of links; a pointer is an index into it.
-- DataRace (plugins/datarace/detectors): the vector clocks, threads and locks that djit.c and
--   fasttrack.c share; `System` holds the threads and locks by their indices, and `Event` is a call
--   of thread_fork, thread_join, lock_acquire or lock_release. DataRace.Djit and DataRace.Fasttrack
--   have the variables of the two detectors. A clock is a number, which stands for an
--   `int` as long as it is below 2 ^ 31. The mutexes, whose results the code does not look at, are left
--   out. The lists that find threads, locks and variables by address are not modelled.
-- Dispatch (dispatcher.c, arch/riscv/dispatcher_riscv.c): the dispatcher and the linking of blocks.
--   Dispatch.Trampolines has jump trampolines: the search of a slot is a loop over the blocks, and
--   the chain has 8 slots at most, which is its fuel. Dispatch.Machine fetches the code written. What
--   the scanner writes and the dispatcher of traces are parameters.
-- Plugins (api/plugin_support.c, api/internal.c, stack and branches of api/helpers.c, and the
--   delivery of callbacks of arch/riscv/scanner_riscv.c): registration, delivery, scratch registers,
--   branches, system calls. A callback is a number, what it does is a parameter. What the memory
--   behind the array of plugins reads as is a parameter, `behind`. The functions that plugins watch are called elsewhere.
-- FunctionWatch (elf/symbol_parser.c, function_watch_*): the tables of watched functions and of their
--   addresses. A mutex is a flag, and locking a locked one waits for ever. The loop that deletes
--   entries takes the count that it begins with as fuel.
-- RegList (common.c, next_reg_in_list, get_lowest_n_regs, count_bits): a list of registers is a number
--   with a bit for each, in a build for RISC-V. count_bits takes fuel, of which 33 is enough.
-- Riscv (scanner_public.h, arch/riscv/scanner_riscv.c): bit fields, sign extension, the immediates.
--   Riscv.Emit: the emitters of constants and jumps. The encoders of pie/ are generated by the build,
--   so a call of one is recorded as an `Instr`; Riscv.Emit.Machine says what the instructions do.
--   Riscv.Emit.Push has riscv_push and riscv_pop, with 33 rounds for 32 registers.
--   `__builtin_ffsll` is a parameter. riscv_copy_to_reg_64bits recurses on fuel 4, of which a 64-bit
--   value never needs more: a level takes at least 12 bits off.
--
-- LoadStore (api/load_store.c, emit_add_sub_i of api/helpers.c): which RISC-V instructions access
--   memory, at what address and how many bytes; LoadStore.A64 has kinds and sizes for AArch64.
--   LoadStore.Encodings and LoadStore.VectorManual are what the manuals say, without the program.
--   `RiscvInst` has the numbers of the generated decoder that the file names. The field decoders are a
--   parameter; the calls of the encoders are recorded, and LoadStore.Run says what the instructions
--   do. The switch of _riscv_calc_ld_st_addr is split into groups of cases.
-- Dbm (dbm.c, dbm.h): `Thread` is dbm_thread with its code cache and block table; Dbm.Cache has the
--   flush, the allocation of blocks, lookups and scans, over CodeHash and LinkedList; Dbm.Fragments
--   the search of a fragment by its address, on a fuel of the number of fragments; Dbm.Threads the
--   list of threads; Dbm.Vm the changes of the address space, over IntervalMap. A RISC-V build with
--   traces and without plugins; the scanner is a parameter, the block size is in bytes.
-- CacheSim (plugins/cachesim/cachesim_model.c): `Model` is a simulated cache, and a cache with its
--   parents is a list. CacheSim.Reference has cachesim_ref, whose loop takes as fuel the bytes of the
--   reference and of one line: a line has a byte at least. The parents are asked down to the number
--   of caches.
-- Strings (plugins/memcheck/naive_stdlib.c): memory is a function from addresses to bytes, char is
--   unsigned. A loop that a terminator ends takes fuel: more than the length of the string is enough.
--
-- A `uintptr_t` is a number (below 2 ^ 64 where a wrap-around matters), an `int` or `ssize_t` that
-- can be negative is a ℤ. Debug output is left out. Not modelled: the scanners of AArch32 and
-- AArch64, the addresses of AArch64 and the loads and stores of AArch32, the ELF loader, signals
-- and system calls (assembly, kernel interfaces and pointers into raw memory), and the other plugins.
pub mod Align
pub mod Dispatch
pub mod Base
pub mod IntervalMap
pub mod Dbm
pub mod CacheSim
pub mod CodeHash
pub mod DataRace
pub mod FunctionWatch
pub mod LinkedList
pub mod LoadStore
pub mod MamboHt
pub mod Plugins
pub mod Strings
pub mod RegList
pub mod Riscv
