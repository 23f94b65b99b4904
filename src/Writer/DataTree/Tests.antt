-- ===== src/Writer/DataTree/Tests.antt =====
-- Runs of the data trees of crates/pstforge-pst/src/writer.rs, and their theorems at concrete inputs.
use pstforge.Base.{
  ℕ, ◌<◌, Bool, true, false, List, [], ◌∷◌, none, some, ok, Returns, ◌≡◌, refl, arith,
}
use pstforge.Writer.Extent.{
  allocate_extent, allocate_loop, allocate_round, align_up, reserved_map_page_count,
}
use pstforge.Writer.Block.{
  BlockId, BlockSpec, data_bytes, data_tree, new_block_id, message_size_contribution, logical_size,
  block_size, entry_count, check_interrupted, place_block, write_block, write_blocks,
}
use pstforge.Writer.Stream.{BlockStream, emit}
use pstforge.Writer.DataTree.{
  push, append_data_tree, append_data_tree_sized, append_data_tree_pages, append_levels,
  append_groups, append_root, append_chunks, append_pages, append_parent, append_numbered_parent,
  append_block, add_sizes, take_block_id,
}
use pstforge.Writer.DataTree.Total.{
  Stores, append_data_tree_sized-Stores, append_data_tree_pages-Stores,
}
use pstforge.Writer.DataTree.Success.{Appends, append_data_tree-Appends}
use pstforge.Writer.DataTree.Stream.{
  append_reader_data_tree, append_declared_data_tree, reader_loop, reader_round, counted,
  close_full_group, finish_tree, check_eof,
}
use pstforge.Writer.DataTree.Streamed.{ReadAndStored, append_reader_data_tree-ReadAndStored}
use pstforge.Writer.DataTree.ListReader.{list_reader, list_reader-IsStream, sum, never, accept}
use pstforge.Writer.DataTree.Deferred.{append_declared_data_tree-append_reader_data_tree}

abbrev block : Bool → ℕ → BlockId
block internal index = record { internal = internal; index = index }

abbrev three_blocks : List BlockSpec
three_blocks =
    record { id = block false 5; payload = data_bytes (1 ∷ 2 ∷ []); ref_count = 2 }
    ∷ record { id = block false 6; payload = data_bytes (3 ∷ []); ref_count = 2 }
    ∷ record {
      id = block true 7;
      payload = data_tree 1 3 (block false 5 ∷ block false 6 ∷ []);
      ref_count = 2;
    }
    ∷ []

abbrev three_out : BlockId × ℕ × List BlockSpec
three_out = (block true 7, 8, three_blocks)

-- Two leaves and their parent.
append_data_tree_sized_runs : append_data_tree_sized push (1 ∷ 2 ∷ 3 ∷ []) 2 5 [] ≡ ok three_out
unfolding append_data_tree_sized append_levels append_groups append_root append_chunks
    append_numbered_parent append_block add_sizes take_block_id new_block_id
append_data_tree_sized_runs = refl

append_data_tree_sized-Stores_example : Stores push [] 5 (1 ∷ 2 ∷ 3 ∷ []) three_out
append_data_tree_sized-Stores_example =
    append_data_tree_sized-Stores push (1 ∷ 2 ∷ 3 ∷ []) 2 5 [] three_out (omega arith) (omega arith)
      append_data_tree_sized_runs

-- The same two leaves from two pages.
append_data_tree_pages_runs :
    append_data_tree_pages push ((1 ∷ 2 ∷ []) ∷ (3 ∷ []) ∷ []) 5 [] ≡ ok three_out
unfolding append_data_tree_pages append_levels append_groups append_root append_pages append_parent
    append_block add_sizes take_block_id new_block_id
append_data_tree_pages_runs = refl

append_data_tree_pages-Stores_example : (0 < 2) × Stores push [] 5 (1 ∷ 2 ∷ 3 ∷ []) three_out
append_data_tree_pages-Stores_example =
    append_data_tree_pages-Stores push ((1 ∷ 2 ∷ []) ∷ (3 ∷ []) ∷ []) 5 [] three_out
      append_data_tree_pages_runs

append_data_tree-Appends_example :
    Returns (Appends 5 [] (1 ∷ 2 ∷ 3 ∷ [])) (append_data_tree push (1 ∷ 2 ∷ 3 ∷ []) 5 [])
append_data_tree-Appends_example =
    append_data_tree-Appends (1 ∷ 2 ∷ 3 ∷ []) 5 [] (omega arith) (omega arith)

abbrev fresh_stream : BlockStream
fresh_stream = record { cursor = 0x4400; written = [] }

abbrev one_block_out : (BlockId × ℕ × ℕ) × ℕ × BlockStream
one_block_out = (
  (block false 9, 3, 6),
  10,
  record {
    cursor = 0x4840;
    written = record { id = block false 9; offset = 0x4800; size = 3; ref_count = 2 } ∷ [];
  },
)

append_reader_data_tree_runs :
    append_reader_data_tree
      (emit never (some accept))
      list_reader
      sum
      (1 ∷ 2 ∷ 3 ∷ [])
      3
      (some 6)
      true
      9
      fresh_stream
    ≡ ok one_block_out
unfolding append_reader_data_tree reader_loop reader_round counted close_full_group finish_tree
    check_eof append_block take_block_id new_block_id message_size_contribution emit write_blocks
    write_block place_block logical_size block_size entry_count check_interrupted allocate_extent
    allocate_loop allocate_round align_up reserved_map_page_count
append_reader_data_tree_runs = refl

append_reader_data_tree-ReadAndStored_example :
    ReadAndStored
      (emit never (some accept))
      sum
      fresh_stream
      (1 ∷ 2 ∷ 3 ∷ [])
      3
      (some 6)
      true
      9
      one_block_out
append_reader_data_tree-ReadAndStored_example =
    append_reader_data_tree-ReadAndStored (emit never (some accept)) list_reader (λ bytes. bytes)
      list_reader-IsStream sum (1 ∷ 2 ∷ 3 ∷ []) 3 (some 6) true 9 fresh_stream one_block_out
      append_reader_data_tree_runs

append_declared_data_tree-append_reader_data_tree_example :
    append_declared_data_tree (emit never none) 3 9 fresh_stream
    ≡ ok ((one_block_out.0.0, one_block_out.0.1), one_block_out.1, one_block_out.2)
append_declared_data_tree-append_reader_data_tree_example =
    append_declared_data_tree-append_reader_data_tree never accept list_reader (λ bytes. bytes) sum
      (1 ∷ 2 ∷ 3 ∷ []) 3 (some 6) true 9 fresh_stream one_block_out list_reader-IsStream
      (omega arith) append_reader_data_tree_runs
