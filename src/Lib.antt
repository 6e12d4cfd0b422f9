-- ===== src/Lib.antt =====
-- The search for three words that sum to zero, as ijoux/joux_v3.c does it: a word of a list A, a
-- word of a list B and a word of a list C, with `a ^ b ^ c = 0`. The preprocessing cuts C into
-- slices. A slice comes with a 64 x 64 matrix over GF(2) and its inverse, such that the words of
-- the slice, multiplied by the matrix, are zero on the top `l` bits. So the products of `a` and
-- `b` agree on the top `l` bits, and a join on them finds the pairs. `process_slice` multiplies
-- both lists, dispatches the products by their top `p` bits, joins the partitions one by one,
-- looks the sums up in a table of the slice, and lifts what it finds by the inverse.
--
-- Files and code:
--   Base: lists as arrays, tests on numbers, membership, and `Run`, the outcome of a run of C
--     code: a value, a loop that never ends, an exit, or a step that C leaves undefined.
--   Word: unsigned words as natural numbers, `>>`, `<<`, `& mask` and `^` by their bits.
--   Gemv: ijoux/joux_v3.c, `naive_gemv`, `gemv`, `matmul_init` and `gemm`. A matrix is the list of
--     its rows. Gemv.Linear is the abstract product that both routines are compared with.
--   Table: ijoux/datastructures.h. A table is a list of 512 words, where 0 marks a free slot.
--     Table.Linear is linear probing, with the hash function as a parameter; Table.Cuckoo is the
--     cuckoo table; Table.Build is `cuckoo_build` with its fallback, and the look-ups.
--   Join: ijoux/joux_v3.c, `subjoin`, over the insertion of Table.
--   Result: ijoux/common.c and common.h, `result_init` and `report_solution`, with the number of
--     bytes behind the pointer.
--   Partition: ijoux/joux_v3.c, `prepare_side` and `partition`, and the reads of the scratch space.
--     Partition.Address says that the regions do not overlap, Partition.Dispatch is the loop of
--     one thread, Partition.Correct all threads, Partition.Pieces what is read back.
--   Slice: ijoux/joux_v3.c, `checkup` and `process_slice`, and `struct slice_t` of
--     preprocessing/preprocessing.h. Slice.Joins is the third phase, Slice.Checkup the fourth,
--     Slice.Solutions the lift, Slice.Found the list of all solutions in the order of the schedule,
--     Slice.Input the conditions, Slice.Main the whole, Slice.Keeps what a run leaves alone.
--   Task: ijoux/joux_v3.c, `iterated_joux_task`, over slices that lie packed in an array of words.
--     Task.Walk is one round of the loop, Task.Packed the layout of packed slices, Task.Init the
--     setup, Task.Reports the whole.
--   Group: ijoux/do_task_group.c, the numbers of the tasks, `tg_task_work` and `do_job`.
--     Group.Index is the grid of tasks, Group.Tasks the descriptors of the tasks, Group.Work the
--     loop of a core, Group.Job the jobs;
--     Group.Setup is `setup`, Group.Load `load_tg_data`, and Group.Sections the files it reads.
--   Slicer: preprocessing/slicer.c. Slicer.Chain is the doubly-linked lists with `filter_active`,
--     on a store of nodes by address; Slicer.Transpose is `transpose_64` and `transpose`,
--     Slicer.Rows `swap`, Slicer.Invert `invert`, Slicer.Echelon `swap_columns`, `echelonize`
--     and `check_rank_defect`, Slicer.Isd `slice_it`, Slicer.Main the main loop with `myrand`.
--     Slicer.Parity is the scalar product over GF(2), and Slicer.Main.Feeds leads to Slice.
--   Checker: preprocessing/slice_checker.c, the check of one slice, with `LEFT_MASK` of
--     preprocessing/preprocessing.h. Checker.Search is the binary search, Checker.Sound what a
--     slice that passes is good for, Checker.Whole the program and Checker.Counts what it compares.
--   Dictionary: preprocessing/dict_checker.c (Dictionary.Valid, Dictionary.Accepts) and
--     preprocessing/hash_checker.c (Dictionary.Increasing).
--   Hasher: preprocessing/hasher.h, `build_plaintext_block`, with `enum kind_t` of
--     preprocessing/preprocessing.h. Hasher.Digest is preprocessing/hasher.c, `compute_full_hash`,
--     and what is extracted from a hash; Hasher.FileKind is `file_get_kind` of
--     preprocessing/preprocessing.c.
--   Splitter: preprocessing/splitter.c, its reader, mappers and writer. Splitter.Entries is what a
--     preimage is worth, Splitter.Buffers, Mapping and Flushing the mapper, Reading and Ending the
--     reader, Writing and Receiving the writer, with what is still to come from each mapper as
--     Frames, and Correct the whole.
--
-- Bounds: a table has 512 slots, so a loop that has not stopped after 512 rounds has seen every
-- slot and goes round for ever; it has the value `none`, or `endless` in a run. Theorems that a
-- loop ends ask for a free slot. `ffs` has 32 rounds, the bits of an `int`,
-- and the loop over the digits of a counter 16, the digits of a 64-bit number. Products of 32-bit
-- sizes keep their wrap-around; the conditions on a side ask that none of them wraps. A shift by the
-- width of the word or more, a division by 0 and a product of `int` that does not fit 31 bits are
-- faults, and so is a store past a block of memory. The loop over
-- the slices has one round for each word of the array, and moves on by 130 words at least. In the
-- slicer, a walk along a list has one round more than the list has nodes; the search for a pivot
-- one for each trial left and each column behind; `slice_it` a pass for each equation, and the main
-- loop a round for each vector, since each slice takes at least one. A search of `slice_it` goes on
-- until the clock runs out: its rounds are bounded by a condition on the tests of the clock.
--
-- Parameters: OpenMP's division of the work is a `Schedule`; the conditions on it are that each
-- item goes to one thread, and that the partitions are all taken. `chernoff_bound` computes in
-- floating point, and is an argument of `prepare_side`; that no bucket outgrows its region is a
-- condition, which the code makes likely and does not check. The slicer takes the results of
-- `lrand48`, of the tests of the clock, and of the bound of Gilbert and Varshamov, which is
-- floating point, as a `Machine`; nothing is assumed of the first and the last. `qsort` of
-- the slice checker is an argument, assumed to permute the list. SHA-256 is one as well, a function
-- from bytes to bytes of which nothing is assumed. The order in which requests reach the reader of
-- the splitter, and that of the sources from which its writer receives, are lists; the conditions on
-- them are that a mapper makes no request after it was told the end, and that the writer receives
-- from each mapper until it ends. A source without a message is passed over.
--
-- Not modelled: the capacity of the buffers `preselected`; the order in which threads run, since
-- they write to places of their own (but for `checkup`, whose threads share one array without a
-- lock, and run in order here); time counters and output; the options, files and MPI calls of the
-- slicer, and the layout of its output in memory; the options, file names and MPI data types of the
-- splitter; the loads and options of the checkers; the merge, the sorter and the forger, the
-- postprocessing, `do_task.c`, and the options, files and messages of `do_task_group.c`; SHA-256 and
-- cgminer, which are third-party code.
pub mod Base
pub mod Word
pub mod Gemv
pub mod Table
pub mod Join
pub mod Result
pub mod Partition
pub mod Slice
pub mod Slicer
pub mod Splitter
pub mod Task
pub mod Group
pub mod Checker
pub mod Hasher
pub mod Dictionary
