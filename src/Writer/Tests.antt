-- ===== src/Writer/Tests.antt =====
-- Runs of the model of crates/pstforge-pst/src/writer.rs, and its theorems at concrete inputs.
use pstforge.Base.{
  ◌-◌, ◌%◌, ◌<◌, ◌⊎◌, ℕ, ◌+◌, ◌≤◌, ◌≡◌, refl, inl, List, [], ◌∷◌, Bool, false, Returns, ok, sort_by,
  arith,
}
use pstforge.Writer.Error.{WriterResult}
use pstforge.Writer.FreeSlots.{
  free_slots_in, free_slots, add_free_bytes, allocation_free_bytes,
  allocation_free_bytes-allocation_file_eof,
}
use pstforge.Writer.Extent.{
  slot_size, first_amap, amap_data_size, align_up, reserved_map_page_count, allocate_round,
  allocate_loop, allocate_extent, allocation_file_eof,
}
use pstforge.Writer.Extent.Laws.{Allocated, IsExtent}
use pstforge.Writer.Extent.FirstFit.{
  allocate_extent-Allocated, allocate_extent_first_fit, allocation_file_eof_covers,
}
use pstforge.Writer.Block.{
  BlockSpec, WrittenBlock, data_bytes, write_blocks, write_block, place_block, block_size,
  logical_size, entry_count, check_interrupted,
}
use pstforge.Writer.Block.Layout.{Laid, write_blocks-Laid}
use pstforge.Writer.BTree.{
  TreePage, plan_leaf_pages, plan_ranges, btree_page_count, count_levels, write_btree,
  write_parents, write_parent_level, write_level, write_page,
}
use pstforge.Writer.BTree.Plan.{IsPlan, plan_leaf_pages-IsPlan}
use pstforge.Writer.Projection.{
  NodeEntry, write_bbt, write_nbt, finalized_file_eof, projected_finalized_file_eof,
}
use pstforge.Writer.Projection.Exact.{projected_finalized_file_eof-finalized_file_eof}

-- The first extent stands behind the two map pages of the first region.
allocate_extent_runs : allocate_extent 0x4400 128 64 ≡ ok (0x4800, 0x4880)
unfolding allocate_extent allocate_loop allocate_round align_up reserved_map_page_count
allocate_extent_runs = refl

-- An extent that does not fit its region goes behind the map page of the next one.
allocate_extent_next_region : allocate_extent 271_300 128 64 ≡ ok (271_872, 272_000)
unfolding allocate_extent allocate_loop allocate_round align_up reserved_map_page_count
allocate_extent_next_region = refl

allocate_extent-Allocated_example : Allocated 271_300 128 64 (allocate_extent 271_300 128 64)
allocate_extent-Allocated_example =
    allocate_extent-Allocated 271_300 128 64 (inl refl) (omega arith)

far-IsExtent : IsExtent 271_936 128 64
unfolding reserved_map_page_count
far-IsExtent = record { aligned = refl; behind_maps = omega arith; inside = omega arith }

allocate_extent_first_fit_example :
    Returns
      (λ x. (271_300 ≤ x.0) × (x.0 ≤ 271_936) × (x.1 ≡ x.0 + 128) × IsExtent x.0 128 64)
      (allocate_extent 271_300 128 64)
allocate_extent_first_fit_example =
    allocate_extent_first_fit 271_300 128 64 (inl refl) 271_936 (omega arith) (omega arith)
      far-IsExtent (omega arith)

allocation_file_eof_covers_example :
    Returns
      (λ eof.
        (0x4880 ≤ eof)
        × (first_amap + amap_data_size ≤ eof)
        × ((eof < 0x4880 + amap_data_size) ⊎ (eof ≡ first_amap + amap_data_size))
        × ((eof - first_amap) % amap_data_size ≡ 0))
      (allocation_file_eof 0x4880)
allocation_file_eof_covers_example = allocation_file_eof_covers 0x4880 (omega arith) (omega arith)

plan_leaf_pages_runs : plan_leaf_pages 41 20 ≡ ok ((0, 14) ∷ (14, 28) ∷ (28, 41) ∷ [])
unfolding plan_leaf_pages plan_ranges
plan_leaf_pages_runs = refl

plan_leaf_pages-IsPlan_example : Returns (IsPlan 41 20) (plan_leaf_pages 41 20)
plan_leaf_pages-IsPlan_example = plan_leaf_pages-IsPlan 41 20 (omega arith) (omega arith)

btree_page_count_runs : btree_page_count 401 20 20 ≡ ok 24
unfolding btree_page_count count_levels
btree_page_count_runs = refl

abbrev put_block : ℕ → BlockSpec → WriterResult (Unit {0})
put_block offset block = ok tt

abbrev put_page : {E : Type 0} → TreePage E → WriterResult (Unit {0})
put_page page = ok tt

abbrev three_bytes : ℕ → BlockSpec
three_bytes index = record {
  id = record { internal = false; index = index };
  payload = data_bytes (1 ∷ 2 ∷ 3 ∷ []);
  ref_count = 2;
}

abbrev written_at : ℕ → ℕ → WrittenBlock
written_at index offset = record {
  id = record { internal = false; index = index };
  offset = offset;
  size = 3;
  ref_count = 2;
}

abbrev never : ℕ → Bool
never n = false

two_written :
    write_blocks put_block never (three_bytes 1 ∷ three_bytes 2 ∷ []) 0x4800
    ≡ ok (written_at 1 0x4800 ∷ written_at 2 0x4840 ∷ [], 0x4880)
unfolding write_blocks write_block place_block block_size logical_size entry_count check_interrupted
    allocate_extent allocate_loop allocate_round align_up reserved_map_page_count
two_written = refl

write_blocks-Laid_example :
    Laid 0x4800
      (three_bytes 1 ∷ three_bytes 2 ∷ [])
      (written_at 1 0x4800 ∷ written_at 2 0x4840 ∷ [])
      0x4880
write_blocks-Laid_example =
    write_blocks-Laid put_block never (three_bytes 1 ∷ three_bytes 2 ∷ []) 0x4800 0x4880
      (written_at 1 0x4800 ∷ written_at 2 0x4840 ∷ []) (omega arith) two_written

abbrev one_node : List NodeEntry
one_node = (record { node = 0x21; data_block = 4; subnode_block = 0 }) ∷ []

finalized_runs :
    finalized_file_eof put_block put_page put_page never 0x4880
      (written_at 1 0x4800 ∷ written_at 2 0x4840 ∷ [])
      (three_bytes 3 ∷ [])
      one_node
    ≡ ok 271_360
unfolding finalized_file_eof write_bbt write_nbt write_btree write_parents write_parent_level
    write_level write_page plan_leaf_pages plan_ranges write_blocks write_block place_block
    block_size logical_size entry_count check_interrupted allocate_extent allocate_loop
    allocate_round align_up reserved_map_page_count allocation_file_eof sort_by
finalized_runs = refl

projected_finalized_file_eof-finalized_file_eof_example :
    projected_finalized_file_eof 0x4880 2 (three_bytes 3 ∷ []) 1 ≡ ok 271_360
projected_finalized_file_eof-finalized_file_eof_example =
    projected_finalized_file_eof-finalized_file_eof put_block put_page put_page never 0x4880
      (written_at 1 0x4800 ∷ written_at 2 0x4840 ∷ []) (three_bytes 3 ∷ []) one_node 271_360
      (omega arith) finalized_runs

-- Two regions, of which the second has 40 bytes, one slot, in use.
free_bytes_run : allocation_free_bytes 271_400 ≡ ok 253_888
unfolding allocation_free_bytes free_slots free_slots_in add_free_bytes
free_bytes_run = refl

allocation_free_bytes-allocation_file_eof_example :
    (free : ℕ) × (eof : ℕ) × (allocation_free_bytes 271_400 ≡ ok free)
    × (allocation_file_eof 271_400 ≡ ok eof)
    × (271_400 + free ≤ eof)
    × (eof < 271_400 + free + slot_size)
allocation_free_bytes-allocation_file_eof_example =
    allocation_free_bytes-allocation_file_eof 271_400 (omega arith) (omega arith)
