-- ===== src/Lib.antt =====
-- A verification library for the OpenSHMEM implementation of this repository (osss-ucx/src).
--
-- The program: a PE calls the API (api/), which calls the communication layer (shmemc/, over UCX in
-- shmemc/ucx/). Symmetric memory is a table of regions that every PE holds a copy of; an address of
-- one PE is translated to the address of the same variable on another, and an operation goes there
-- through UCX. The lock of api/lock.c is built on those atomics; the partitions of symmetric memory
-- are handed out by the buddy allocator of api/allocator/memalloc.c.
--
-- Comms/Address: osss-ucx/src/shmemc/ucx/comms.c, the region table and translation. `Proc` is
--   `thispe_info_t` with one entry per region and PE; `at p pe` is the same table on another PE;
--   `IsValid` says what start-up establishes. Children: Lookup, Translate.
-- Comms/Ucx: the calls of UCX that comms.c makes, as a record of functions over a state of all
--   memories and requests; `Documented` is what ucp.h says of them, with an order of the
--   states in time: an atomic is done at one time between its issue and its completion, and other PEs
--   change the words at any time.
-- Comms/Ops: comms.c again, waits, fences, atomics (Atomics), puts and gets (Rma), each function
--   under its C name less `shmemc_`. An `Outcome` is a return, the end of the program by a failed
--   assertion, or a wait for which the fuel did not suffice; Wait and Effect are about these.
-- Lock: osss-ucx/src/api/lock.c as a step relation. `System` is the lock word on its owner, a node
--   per PE and the place of every PE in the code; `step` is one access of one PE; `Reach` is any
--   interleaving. Owner is `lock_owner`; Invariant and Safety are about the reachable states.
-- Buddy: osss-ucx/src/api/allocator/memalloc.c, the tree of a partition as a function from index
--   to entry, with the 32-bit wrap-around of every index. Nodes reads a tree as a list of blocks;
--   Subtree, Entry, Alloc, Take, Loops and Climb lead to Spec, where the loops of `buddy_alloc` meet
--   a recursion over levels; Full is about when it fails. Sizes and Round are about requests that
--   are no power of two, Fresh about `buddy_new`. Find and Release are the same recursion for the
--   loops of `buddy_free`; Give, Return, Freed and Restore are about what it gives back. Partition
--   is the bytes and addresses around the tree, with the tables of partitions, Partition/Memory what
--   a partition promises.
-- Trees: osss-ucx/src/shcoll/src/util/trees.c, the parent and the children of a PE, `none` for -1;
--   Complete and Rooted are about the complete tree and about other roots, Knomial holds the
--   k-nomial tree and Knomial/Search its search for a range.
-- Teams: osss-ucx/src/shmemc/teams.c, less the memory for synchronization; the hash map of klib is
--   the record `KhMap` with its promises in `IsMap`. World, Split and Translate are about the world
--   team, `shmemc_team_split_strided` and `shmemc_team_translate_pe`.
-- Contexts: osss-ucx/src/shmemc/contexts.c, the table of contexts of one team with the statics that
--   go with it; Ids is about which numbers are in use and which are free.
-- Sync: osss-ucx/src/shmemc/ucx/test.c and waituntil.c, the waits and tests on words of symmetric
--   memory. `Memory` says what a word reads and what waiting does to the state. Api has the typed
--   functions of osss-ucx/src/api; Any, All, Some and Compare are about the kinds of waits and tests.
-- Shcoll: osss-ucx/src/shcoll/src, the collectives. What a PE does in a call is a list of actions
--   on symmetric memory, and `step` runs the lists of all PEs in any interleaving, with puts that
--   arrive at any time before the next fence or quiet of their PE ends. A fence stands still until
--   they have arrived, where the library only keeps the order. Barrier, Alltoall, Broadcast and
--   Fcollect follow the files of those names; Barrier/Words, Updates, Dissemination, Runs and
--   Completion are about the dissemination barrier, Alltoall/Peers about the schedules of peers,
--   Broadcast/Complete and Blocks about the complete tree and the blocks of the scatter, and
--   Fcollect/Bruck about the Bruck algorithms. Exchange is the exchange that counts, which
--   alltoall_helper_*_counter and fcollect_helper_all_linear have in common; its children hold what
--   every action keeps, and Alltoall/Counter and Fcollect/Linear are about those two. Alltoalls is
--   alltoalls.c, where a put of strided elements is one put an element. Collect is the collects of
--   collect.c in which all put to all, after their scan. Indices, Sums, Turns and Barrier/Ring have
--   what they share. A call stands for one use of its `pSync` words; calls that follow one another
--   are not composed.
-- Shcoll/Scan: osss-ucx/src/shcoll/src/util/scan.c as a step relation: `System` has the words of
--   every PE, its sum and its place in the function, a step is one access, and `Reach` any
--   interleaving. Window is the sums of consecutive members, Invariant, Moves and Writes what every
--   step keeps, Advance that the lowest member can always go on, Result what the function answers;
--   all of these are about the sets that start at PE 0 with stride 1, to which Unit reduces the
--   steps. Offset is about the sets that start further on. The scan and the puts of a collect use
--   words apart and are composed one after the other.
-- Shcoll/Reduction: osss-ucx/src/shcoll/src/reduction.c. Reduction is the set of a power of two of
--   members that recursive doubling and Rabenseifner exchange among, with the place of each; Linear
--   is the linear reduction as a list of actions, the operation a parameter, with the part of member
--   0 taken alone: the barriers and the broadcast around it are those of Barrier and Broadcast.
-- Utility: osss-ucx/src/shmemu/unitparse.c, parse_unit alone, and threadlevels.c. A string is the
--   list of its characters' codes, and toupper a parameter.
-- Prelude: what the files share: tests on numbers, signed integers, machine words, binary digits.
--
-- Bounds and fuel. Words wrap at 2^16 (lock halves), 2^32 (indices, units) or 2^64 (addresses) as
-- written in the source. The fuel of `descend` is the level and of `ascend_max` the index, which
-- fall each round, so neither runs out; that of `find_block` is the height, from where the root
-- fails. The fuel of the k-nomial search is the size of the tree, and the range gets shorter each
-- round; a binomial mask is 0 after 31 rounds. The fuel of `wait_loop` is any number: ucp.h gives
-- no bound on the rounds that a request takes, and the theorems are about the calls that return.
--
-- Not modelled: the copies of ptmalloc and klib, PMIx and UCX themselves, environment and logging,
-- the other front ends, which check arguments and call one operation, the reductions other than
-- the linear one, and the collects of unequal blocks other than those in which all put to all. PE
-- numbers and sizes are taken as not negative, and tree sizes so that their products fit an int.
-- The build is that with ENABLE_DEBUG, HAVE_UCP_PUT_NBX, HAVE_UCP_GET_NBX,
-- HAVE_UCP_WORKER_FLUSH_NBX and HAVE_UCP_BITWISE_ATOMICS, without ENABLE_ALIGNED_ADDRESSES.
pub mod Prelude
pub mod Comms
pub mod Lock
pub mod Buddy
pub mod Trees
pub mod Teams
pub mod Contexts
pub mod Sync
pub mod Shcoll
pub mod Utility
