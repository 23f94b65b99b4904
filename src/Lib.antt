-- ===== src/Lib.antt =====
-- PSTForge reads mail stores (PST files), also damaged ones, and writes their mail into new stores of
-- bounded size. This library models the parts that decide where things go: which items go into which
-- output store, and where each block and page of a store goes in its file.
--
-- Packing (crates/pstforge-core/src/packing.rs): `pack_candidates` sorts the candidates, refuses bad
--   folder paths and duplicate keys, and packs them next-fit into parts. Packing.antt has one function
--   for each stage (check_paths, check_keys, pack_step, finish_parts) with the variables of the loop in
--   the record Packer. The children prove: Parts what a part and a division are, Loop that a step keeps
--   them, Division the result, Keys the orders and keys, Arrangement and Acceptance the inputs.
-- Writer (crates/pstforge-pst/src/writer.rs): the transactional writer of one store.
--   Writer/Extent: `align_up`, `reserved_map_page_count`, `allocate_extent`, `allocation_file_eof`.
--   Writer/FreeSlots: the free bytes that `write_allocation_pages` counts.
--   Writer/Block: `BlockSpec`, `BlockPayload`, `write_blocks`; blocks are put into extents.
--   Writer/Stream: `BlockStream::emit`, with and without a file.
--   Writer/DataTree: `append_data_tree`, `append_data_tree_sized`, `append_data_tree_pages`; its child
--     Stream: `append_reader_data_tree`, `append_declared_data_tree`. A sink, an argument, takes the
--     blocks. Contents is a reader of such trees, with which the results are stated; Emission and
--     RoundTrip are about the common steps, Total and Success about trees made in memory, Grouping,
--     Counted and Streamed about trees that are read, Projected and Deferred about declared ones; Leaves
--     says which blocks hold data; ListReader has arguments for runs of the model.
--   Writer/RowMatrix: `append_row_matrix_data_tree`, for the rows of a table; Slices and
--     Framing are about it.
--   Writer/Properties: `append_direct_properties`, `append_declared_properties` and
--     `append_direct_data_tree`, the values of properties in trees of their own.
--   Writer/Subnodes: `append_subnode_tree` and `append_subnode_tree_at`, the subnodes of a node. Shape
--     says what such a tree is, Listing is about its lowest blocks, Levels about those above.
--   Writer/BTree: `plan_leaf_pages`, `btree_page_count`, `write_bbt`, `write_nbt`; one function
--     `write_btree` is both, which differ in the leaf capacity and the type of the entries.
--   Writer/Projection: `projected_finalized_file_eof`, and of `finalize_with_policy` the part that
--     places the last blocks and the trees.
-- Split (crates/pstforge-core/src/split.rs): the choice of the messages of the next store.
--   Split/Size: `LayoutEstimator`, `estimate_candidate_iter` and `AdaptiveSizeModel`, which scales an
--     estimate by the last observed size. Monotone: sizes of prefixes.
--   Split/Prefix: `canonical_candidate_order`, `fitting_prefix_len`, `take_fitting_prefix`,
--     `extend_to_fitting_prefix`, `shrink_to_fitting_prefix`. Search is about the two searches, by
--     halving (`bisect`) and by doubling (`gallop`); Fitting, Queue, Extension and Order are about
--     the functions.
-- Multivalue: the payload of a multi-valued binary property, which
--   crates/pstforge-pst/src/writer.rs writes (`multiple_binary_bytes`) and
--   crates/pstforge-core/src/writer_input.rs reads (`decode_multiple_binary`).
-- Job (crates/pstforge-job/src/lib.rs): how a finished store is published. Job/World has the directories
--   and the ledger of a job with actions on them that a crash can cut off, Job/Checks the checks of
--   records and files, Job/Publication `publish_part_with_interrupt`, the transaction
--   `commit_published_part_transaction` and `reconcile_publications`. Its children: Rows and Acceptance
--   are about the rows of the ledger, Phases has the states between the steps, Steps, Preparation and
--   Whole that each step stays in them, Reconciliation and Recovery are about what comes after a run
--   that was cut off; the rules for runs are in Job/Triples. A durable change that the file system or
--   the database refuses counts as a crash before it. JSON is read back as it was written, a
--   transaction of the database takes effect as a whole, and of the constraints of its tables those on
--   unique values are modelled.
-- Base: shared names, lists over native numbers, machine words, results, sorts and derived orders.
--
-- Conventions. A value that the source passes by `&mut` is an argument and part of the result. Errors
-- are values of Result; `aborted` stands for a panic, or for a loop of the model that is cut off. Words
-- wrap, saturate or are checked as in the source; a `usize` has 64 bits, and builds are release builds.
-- Texts are sequences of bytes. Sorts of slices are stable sorts by insertion.
-- Fuel: `allocate_loop` has 2^64 / (bytes of a region) + 2 rounds, more than there are regions;
-- `count_levels` has 2^64 rounds, each of which leaves fewer pages;
-- the loops over a payload have a round for each byte and one more, and a round takes a byte at least;
-- `append_subnode_levels` has one round more than there are lowest blocks, and each round leaves fewer
-- or ends; `write_parents` has as many rounds as there are leaves; `bisect` and `gallop` have as many as there
-- are lengths between their bounds, of which each round leaves fewer.
--
-- Not modelled: reading and writing of files, the bytes of blocks and pages (arguments `put`), the
-- reader of stores, the C library that damaged stores are read with, the recording of candidates in the
-- job's ledger, the worker processes, and the building of messages but for
-- Writer/Properties and Writer/Subnodes.
pub mod Base
pub mod Job
pub mod Multivalue
pub mod Packing
pub mod Split
pub mod Writer
