-- ===== src/Writer/Properties/Tests.antt =====
-- A run of the streamed properties of crates/pstforge-pst/src/writer.rs, and their theorem there.
use pstforge.Base.{ℕ, Bool, true, false, List, [], ◌∷◌, none, some, ok, ◌≡◌, refl, arith}
use pstforge.Writer.Error.{WriterResult}
use pstforge.Writer.Extent.{
  allocate_extent, allocate_loop, allocate_round, align_up, reserved_map_page_count,
}
use pstforge.Writer.Block.{
  new_block_id, message_size_contribution, logical_size, block_size, entry_count, check_interrupted,
  place_block, write_block, write_blocks,
}
use pstforge.Writer.Stream.{BlockStream, emit}
use pstforge.Writer.DataTree.{append_block, take_block_id}
use pstforge.Writer.DataTree.Stream.{
  append_reader_data_tree, reader_loop, reader_round, counted, close_full_group, finish_tree,
  check_eof,
}
use pstforge.Writer.DataTree.ListReader.{list_reader, list_reader-IsStream, sum, never, accept}
use pstforge.Writer.Properties.{
  DirectBlobSpec, DirectPropertySpec, PropertyBuild, value_node_id, append_direct_data_tree,
  append_direct_properties, append_declared_properties,
  append_declared_properties-append_direct_properties,
}

abbrev any_type : ℕ → Bool
any_type _ = true

abbrev one_to_three : ℕ → DirectBlobSpec → WriterResult (List ℕ)
one_to_three opened blob = ok (1 ∷ 2 ∷ 3 ∷ [])

abbrev spec : ℕ → DirectPropertySpec
spec id = record {
  id = id;
  property_type = 258;
  blob = record { id = id; byte_len = 3; sha256 = some 6 };
}

abbrev nothing_built : PropertyBuild BlockStream
nothing_built = record {
  properties = [];
  subnodes = [];
  next_block_index = 9;
  next_value_node = 1;
  sink = record { cursor = 0x4400; written = [] };
}

abbrev two_built : (ℕ × List (DirectBlobSpec × ℕ)) × PropertyBuild BlockStream
two_built = (
  (6, ((spec 1).blob, 6) ∷ ((spec 2).blob, 6) ∷ []),
  record {
    properties =
        record { id = 1; property_type = 258; node = 63 }
        ∷ record { id = 2; property_type = 258; node = 95 }
        ∷ [];
    subnodes =
        record { node = 63; block = record { internal = false; index = 9 } }
        ∷ record { node = 95; block = record { internal = false; index = 10 } }
        ∷ [];
    next_block_index = 11;
    next_value_node = 3;
    sink = record {
      cursor = 0x4880;
      written =
          record {
            id = record { internal = false; index = 9 };
            offset = 0x4800;
            size = 3;
            ref_count = 2;
          }
          ∷ record {
            id = record { internal = false; index = 10 };
            offset = 0x4840;
            size = 3;
            ref_count = 2;
          }
          ∷ [];
    };
  },
)

append_direct_properties_runs :
    append_direct_properties any_type
      (emit never (some accept))
      list_reader
      sum
      one_to_three
      (spec 1 ∷ spec 2 ∷ [])
      0
      []
      nothing_built
    ≡ ok two_built
unfolding append_direct_properties append_direct_data_tree value_node_id append_reader_data_tree
    reader_loop reader_round counted close_full_group finish_tree check_eof append_block
    take_block_id new_block_id message_size_contribution emit write_blocks write_block place_block
    logical_size block_size entry_count check_interrupted allocate_extent allocate_loop
    allocate_round align_up reserved_map_page_count
append_direct_properties_runs = refl

append_declared_properties-append_direct_properties_example :
    append_declared_properties any_type (emit never none) (spec 1 ∷ spec 2 ∷ []) 0 nothing_built
    ≡ ok (two_built.0.0, two_built.1)
append_declared_properties-append_direct_properties_example =
    append_declared_properties-append_direct_properties any_type never accept list_reader
      (λ bytes. bytes) sum one_to_three (spec 1 ∷ spec 2 ∷ []) 0 [] nothing_built two_built
      list_reader-IsStream (omega arith, (omega arith, tt)) append_direct_properties_runs
